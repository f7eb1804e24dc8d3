-- ===== src/Router/Finding.antt =====
-- What the search in the routing tree finds.
use api_firewall.Base.{
  ℕ, zero, suc, ◌≡◌, refl, ap, subst, ◌∙◌, Bool, true, false, ◌⊎◌, inl, inr, Option, none, some,
  List, [], ◌∷◌, ◌++◌, Str, length, take, drop, has_prefix, arith, Bool-cases,
}
use api_firewall.Router.{
  Info, Node, node, Nodes, no_nodes, add_node, info_of, labels, Search, find_edge, first_byte,
  try_rest, try_param, unless_empty, push, pop, cut, static_rest, find_route, find_static,
  find_param, find_catch_all,
}
use api_firewall.Router.Values.{prefix-split, IsValue, cut-IsValue}
use api_firewall.Router.Matching.{
  In, group, IsLast, IsFirst, Matches, static_end, static_more, value_end, value_more, no_value,
  rest_end, rest_more, Found,
}
use api_firewall.Router.Combining.{
  Found-mono, Found-then_try, Found-none, Below, Sound, Found-rest, Front, Found-cut_back,
  Found-pop,
}

module _ (H : Type 0) where
  module _ (m : ℕ) where
    Front-static :
        (i : Info H) (st re pa ca : Nodes H) (n : Node H) (path rest : Str) (vs : List Str)
        (o : Info H)
        → In H n st
        → path ≡ (info_of H n).prefix ++ rest
        → Below H m n rest vs o
        → Matches H (node i st re pa ca) path vs o
    Front-static i st re pa ca n path rest vs o at_n e (inl (r, q, s)) =
        rw (q, s) (static_end n at_n (e ∙ ap (λ x. (info_of H n).prefix ++ x) r))
    Front-static i st re pa ca n path rest vs o at_n e (inr below) = static_more n rest at_n e below

    Front-value :
        (i : Info H) (st re pa ca : Nodes H) (is_regexp : Bool) (n : Node H) (path v rest : Str)
        (ws : List Str) (o : Info H)
        → In H n (group H is_regexp re pa)
        → IsValue H is_regexp (info_of H n) path v rest
        → Front H m v (Below H m n rest) ws o
        → Matches H (node i st re pa ca) path ws o
    Front-value i st re pa ca is_regexp n path v rest ws o at_n x (vs, e, inl (r, q, s)) =
        rw (e, q, s)
          (value_end is_regexp n at_n (subst (IsValue H is_regexp (info_of H n) path v) r x))
    Front-value i st re pa ca is_regexp n path v rest ws o at_n x (vs, e, inr below) =
        rw e (value_more is_regexp n rest at_n x below)

    Front-rest :
        (i : Info H) (st re pa ca : Nodes H) (n : Node H) (path : Str) (ws : List Str) (o : Info H)
        → IsFirst H n ca
        → Front H m path (Below H m n []) ws o
        → Matches H (node i st re pa ca) path ws o
    Front-rest i st re pa ca n path ws o at_n (vs, e, inl (r, q, s)) =
        rw (e, q, s) (rest_end n at_n)
    Front-rest i st re pa ca n path ws o at_n (vs, e, inr below) = rw e (rest_more n at_n below)

    -- A static node behind the one at the index, in a group H of which all nodes are in `st`.
    abbrev ViaStatic : Nodes H → Str → List Str → Info H → Type 0
    ViaStatic st path vs o =
        (n : Node H) × (rest : Str) × In H n st
        × (path ≡ (info_of H n).prefix ++ rest)
        × Below H m n rest vs o

    Found-static :
        (n : Node H) (path : Str) (s : Search H) (x : Option Str)
        → static_rest H (info_of H n) path ≡ x
        → Sound H m n
        → Found H m
            (λ vs o. (rest : Str) × (path ≡ (info_of H n).prefix ++ rest) × Below H m n rest vs o)
            s
            (try_rest H x (info_of H n) m s (λ y t. find_route H n m y t))
    unfolding Found try_rest static_rest
    Found-static n path s none e sound = (refl, refl)
    Found-static n path s (some rest) e sound =
        Found-mono H m (Below H m n rest) _ s
          (try_rest H (some rest) (info_of H n) m s (λ y t. find_route H n m y t))
          (λ vs o b. (
            rest,
            elim (Bool-cases (has_prefix path (info_of H n).prefix)) [
              | inl h ↦
                  let cut_off : drop (length (info_of H n).prefix) path ≡ rest = ground arith in
                  prefix-split path (info_of H n).prefix h
                  ∙ ap (λ r. (info_of H n).prefix ++ r) cut_off
              | inr h ↦ absurd (ground arith)
            ],
            b,
          ))
          (Found-rest H m n rest s sound)

    -- The values of the parameters in a group H, from one of its nodes on.
    abbrev ViaParam : Bool → Nodes H → Str → List Str → Info H → Type 0
    ViaParam is_regexp ns path ws o =
        ((n : Node H) × (v : Str) × (rest : Str) × In H n ns
          × IsValue H is_regexp (info_of H n) path v rest
          × Front H m v (Below H m n rest) ws o)
        ⊎ ((n : Node H) × IsLast H n ns × Front H m [] (Matches H n path) ws o)

    Found-param :
        (is_regexp : Bool) (n : Node H) (path : Str) (s : Search H) (x : Option ℕ)
        → cut H is_regexp (info_of H n) path ≡ x
        → Sound H m n
        → Found H m
            (λ ws o.
              (v : Str) × (rest : Str) × IsValue H is_regexp (info_of H n) path v rest
              × Front H m v (Below H m n rest) ws o)
            s
            (try_param H x path (info_of H n) m s (λ y t. find_route H n m y t))
    unfolding Found try_param
    Found-param is_regexp n path s none e sound = (refl, refl)
    Found-param is_regexp n path s (some p) e sound =
        Found-mono H m (Front H m (take p path) (Below H m n (drop p path))) _ s
          (try_param H (some p) path (info_of H n) m s (λ y t. find_route H n m y t))
          (λ ws o b. (take p path, drop p path, cut-IsValue H is_regexp (info_of H n) path p e, b))
          (Found-cut_back H m (Below H m n (drop p path)) (take p path) s _
            (Found-rest H m n (drop p path) (push H (take p path) s) sound))

    abbrev ViaRest : Nodes H → Str → List Str → Info H → Type 0
    ViaRest ns path ws o = (n : Node H) × IsFirst H n ns × Front H m path (Below H m n []) ws o

    Found-unless_empty :
        (P : List Str → Info H → Type 0) (path : Str) (s : Search H)
        (f : Search H → Search H × Option (Info H))
        → Found H m P s (f s)
        → Found H m P s (unless_empty H path s f)
    unfolding Found unless_empty
    Found-unless_empty P [] s f x = (refl, refl)
    Found-unless_empty P (b ∷ path) s f x = x

    Matches-param :
        (i : Info H) (st re pa ca : Nodes H) (is_regexp : Bool) (path : Str) (ws : List Str)
        (o : Info H)
        → ViaParam is_regexp (group H is_regexp re pa) path ws o
        → Matches H (node i st re pa ca) path ws o
    Matches-param i st re pa ca is_regexp path ws o (inl (n, v, rest, at_n, x, b)) =
        Front-value i st re pa ca is_regexp n path v rest ws o at_n x b
    Matches-param i st re pa ca is_regexp path ws o (inr (n, last, (vs, e, below))) =
        rw e (no_value is_regexp n last below)

    ViaStatic-there :
        (n : Node H) (ns : Nodes H) (path : Str) (vs : List Str) (o : Info H)
        → ViaStatic ns path vs o
        → ViaStatic (add_node n ns) path vs o
    ViaStatic-there n ns path vs o (x, rest, at_x, e, b) = (x, rest, inr at_x, e, b)

    ViaParam-there :
        (is_regexp : Bool) (n n' : Node H) (ns : Nodes H) (path : Str) (vs : List Str) (o : Info H)
        → ViaParam is_regexp (add_node n' ns) path vs o
        → ViaParam is_regexp (add_node n (add_node n' ns)) path vs o
    ViaParam-there is_regexp n n' ns path vs o (inl (x, v, rest, at_x, y, b)) =
        inl (x, v, rest, inr at_x, y, b)
    ViaParam-there is_regexp n n' ns path vs o (inr (x, last, b)) = inr (x, last, b)

    mutual
      unfolding find_route

      pub find_route-Sound :
          (n : Node H) (path : Str) (s : Search H)
          → Found H m (Matches H n path) s (find_route H n m path s)
      find_route-Sound (node i st re pa ca) path s =
          let P = Matches H (node i st re pa ca) path in
          Found-then_try H m P s _ _
            (Found-mono H m (ViaStatic st path) P s
              (find_static H st (find_edge (labels H st) (first_byte path)) m path s)
              (λ vs o (n, rest, at_n, e, b). Front-static i st re pa ca n path rest vs o at_n e b)
              (find_static-Sound st _ path s))
            (λ t.
              Found-then_try H m P t _ _
                (Found-unless_empty P path t _ (
                  Found-mono H m (ViaParam true re path) P t (find_param H true re m path t)
                    (Matches-param i st re pa ca true path) (find_param-Sound true re path t)))
                (λ u.
                  Found-then_try H m P u _ _
                    (Found-unless_empty P path u _ (
                      Found-mono H m (ViaParam false pa path) P u (find_param H false pa m path u)
                        (Matches-param i st re pa ca false path)
                        (find_param-Sound false pa path u)))
                    (λ w.
                      Found-mono H m (ViaRest ca path) P w (find_catch_all H ca m path w)
                        (λ vs o (n, at_n, b). Front-rest i st re pa ca n path vs o at_n b)
                        (find_catch_all-Sound ca path w))))

      find_static-Sound :
          (ns : Nodes H) (k : Option ℕ) (path : Str) (s : Search H)
          → Found H m (ViaStatic ns path) s (find_static H ns k m path s)
      find_static-Sound no_nodes k path s = Found-none H m _ s
      find_static-Sound (add_node n ns) none path s = Found-none H m _ s
      find_static-Sound (add_node n ns) (some zero) path s =
          Found-mono H m _ (ViaStatic (add_node n ns) path) s
            (try_rest H (static_rest H (info_of H n) path) (info_of H n) m s
              (λ y t. find_route H n m y t))
            (λ vs o (rest, e, b). (n, rest, inl refl, e, b))
            (Found-static n path s _ refl (λ r t. find_route-Sound n r t))
      find_static-Sound (add_node n ns) (some (suc k)) path s =
          Found-mono H m (ViaStatic ns path) (ViaStatic (add_node n ns) path) s
            (find_static H ns (some k) m path s) (ViaStatic-there n ns path)
            (find_static-Sound ns (some k) path s)

      find_param-Sound :
          (is_regexp : Bool) (ns : Nodes H) (path : Str) (s : Search H)
          → Found H m (ViaParam is_regexp ns path) s (find_param H is_regexp ns m path s)
      find_param-Sound is_regexp no_nodes path s = Found-none H m _ s
      find_param-Sound is_regexp (add_node n no_nodes) path s =
          Found-then_try H m (ViaParam is_regexp (add_node n no_nodes) path) s _ _
            (Found-mono H m _ (ViaParam is_regexp (add_node n no_nodes) path) s
              (try_param H (cut H is_regexp (info_of H n) path) path (info_of H n) m s
                (λ y t. find_route H n m y t))
              (λ vs o (v, rest, x, b). inl (n, v, rest, inl refl, x, b))
              (Found-param is_regexp n path s _ refl (λ r t. find_route-Sound n r t)))
            (λ t.
              Found-mono H m (Front H m [] (Matches H n path))
                (ViaParam is_regexp (add_node n no_nodes) path) t
                (pop H (find_route H n m path (push H [] t))) (λ vs o b. inr (n, refl, b))
                (Found-pop H m (Matches H n path) [] t (find_route H n m path (push H [] t))
                  (find_route-Sound n path (push H [] t))))
      find_param-Sound is_regexp (add_node n (add_node n' ns)) path s =
          Found-then_try H m (ViaParam is_regexp (add_node n (add_node n' ns)) path) s _ _
            (Found-mono H m _ (ViaParam is_regexp (add_node n (add_node n' ns)) path) s
              (try_param H (cut H is_regexp (info_of H n) path) path (info_of H n) m s
                (λ y t. find_route H n m y t))
              (λ vs o (v, rest, x, b). inl (n, v, rest, inl refl, x, b))
              (Found-param is_regexp n path s _ refl (λ r t. find_route-Sound n r t)))
            (λ t.
              Found-mono H m (ViaParam is_regexp (add_node n' ns) path)
                (ViaParam is_regexp (add_node n (add_node n' ns)) path) t
                (find_param H is_regexp (add_node n' ns) m path t)
                (ViaParam-there is_regexp n n' ns path)
                (find_param-Sound is_regexp (add_node n' ns) path t))

      find_catch_all-Sound :
          (ns : Nodes H) (path : Str) (s : Search H)
          → Found H m (ViaRest ns path) s (find_catch_all H ns m path s)
      find_catch_all-Sound no_nodes path s = Found-none H m _ s
      find_catch_all-Sound (add_node n ns) path s =
          Found-mono H m (Front H m path (Below H m n [])) (ViaRest (add_node n ns) path) s
            (pop H
              (try_rest H (some []) (info_of H n) m (push H path s) (λ y t. find_route H n m y t)))
            (λ vs o b. (n, refl, b))
            (Found-pop H m (Below H m n []) path s _
              (Found-rest H m n [] (push H path s) (λ r t. find_route-Sound n r t)))
