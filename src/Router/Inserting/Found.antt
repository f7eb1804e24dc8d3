-- ===== src/Router/Inserting/Found.antt =====
-- A route without parameters that was inserted is found.
use api_firewall.Base.{
  ℕ, suc, ◌≡◌, refl, sym, ap, subst, ◌∙◌, inl, inr, Bool, false, ◌||◌, Bool-cases, Option, none,
  some, List, [], ◌∷◌, ◌/◌, ◌%◌, Str, length, take, drop, ◌==◌, arith, All-drop,
}
use api_firewall.Web.{Actions}
use api_firewall.Router.{Endpoint, Info, Node, node, Nodes, no_nodes, add_node, info_of}
use api_firewall.Router.Segments.{nt_static, Segment}
use api_firewall.Router.Segments.Starts.{IsPlain}
use api_firewall.Router.Groups.{
  longest_prefix, add_to_group, fresh, insert_sorted, sort_nodes, append_node,
}
use api_firewall.Router.Groups.Sorting.{AllNodes}
use api_firewall.Router.Groups.Order.{IsEntry, IsOrdered, AllOrdered}
use api_firewall.Router.Building.{InsertError, attach}
use api_firewall.Router.Inserting.{
  new_child, below_split, unless_error, split, keep_first, or_new, plain, next_segment, choose,
  follow, insert, insert_group,
}
use api_firewall.Router.Inserting.Splitting.{split-Stays}
use api_firewall.Router.Inserting.Following.{matches-label}
use api_firewall.Router.Inserting.Order.{insert-Stays}
use api_firewall.Router.Inserting.Serving.{Takes, HasEdge}
use api_firewall.Router.Inserting.Landing.{
  prefix-take, drop-taken, prefix-common, build-plain, endpoint, Lands, set-Lands, edge-Lands,
  attach-Lands, below_split-Lands, Lands-Takes,
}

module _ (H : Type 0) (compile : Str → Option (Str → Bool)) (methods : List ℕ) (method : ℕ)
    (actions : Option Actions) (handler : H) (pattern : Str) where
  abbrev target : Endpoint H
  target = endpoint H compile methods method actions handler pattern

  module _ (is_plain : IsPlain pattern) (no_stub : (method % 2 == 1) ≡ false)
      (not_all : (method / 2 % 512 == 511) ≡ false) where
    abbrev split_at : Node H → ℕ → ℕ → Str → Node H × Option InsertError
    split_at = split H compile methods method actions handler pattern

    abbrev upper : ℕ → Str → Node H → Node H
    upper c prefix lower =
        node (record { prefix = prefix; label = c; tail = 0; rex = none; endpoints = none })
          (add_node lower no_nodes) no_nodes no_nodes no_nodes

    -- A split of a node without parameters gives no error.
    split-upper :
        (n : Node H) (k c : ℕ) (s : Str)
        → IsPlain (drop k (info_of H n).prefix)
        → (lower : Node H) × (split_at n k c s
            ≡ below_split H compile methods method actions handler pattern
                (upper c (take k s) lower)
                (drop k s))
    unfolding split attach unless_error add_to_group sort_nodes append_node insert_sorted
    split-upper n k c s p = (
      _,
      ap
          (λ b.
            unless_error H compile methods method actions handler pattern
              (attach H compile (fresh H c 0 (take k s)) b)
              (λ m. below_split H compile methods method actions handler pattern m (drop k s)))
          (build-plain H compile (length (drop k (info_of H n).prefix)) _
            (drop k (info_of H n).prefix) (λ m. (m, none)) p),
    )

    split-Takes :
        (n : Node H) (c : ℕ) (t : Str)
        → IsPlain (c ∷ t)
        → IsOrdered H n
        → IsEntry H (info_of H n)
        → (info_of H n).label ≡ c
        → (longest_prefix (c ∷ t) (info_of H n).prefix == length (info_of H n).prefix) ≡ false
        → Takes H method target c t
            (split_at n (longest_prefix (c ∷ t) (info_of H n).prefix) c (c ∷ t)).0
          × ((split_at n (longest_prefix (c ∷ t) (info_of H n).prefix) c (c ∷ t)).1 ≡ none)
    split-Takes n c t p o e l ne =
        let k = longest_prefix (c ∷ t) (info_of H n).prefix in
        let (lower, eq) =
          split-upper n k c (c ∷ t) (All-drop _ k _ e.plain.0, All-drop _ k _ e.plain.1) in
        let up = upper c (take k (c ∷ t)) lower in
        let ordered =
          subst (λ (r : Node H × Option InsertError). IsOrdered H r.0) eq
            (split-Stays H compile methods method actions handler pattern n c t o e l ne).ordered in
        let lands =
          below_split-Lands H compile methods method actions handler pattern is_plain no_stub
            not_all up (drop k (c ∷ t)) (All-drop _ k (c ∷ t) p.0, All-drop _ k (c ∷ t) p.1)
            ordered in
        subst (λ (r : Node H × Option InsertError). Takes H method target c t r.0 × (r.1 ≡ none))
          (sym eq)
          (
            Lands-Takes H compile methods method actions handler pattern is_plain no_stub not_all up
                _ c t (drop k (c ∷ t)) (take k (c ∷ t)) lands refl refl (prefix-take k (c ∷ t))
                (drop-taken k (c ∷ t)),
            lands.succeeds,
          )

    abbrev Edge : Type 0
    Edge = Option (Nodes H × Option InsertError)

    abbrev plain_segment : Segment
    plain_segment = plain H compile methods method actions handler pattern

    abbrev into : Node H → Str → Node H × Option InsertError
    into = insert H compile methods method actions handler pattern

    abbrev into_group : Nodes H → ℕ → Str → Edge
    into_group ns c s =
        insert_group H compile methods method actions handler pattern nt_static c plain_segment ns s

    -- If a group has an edge, the pattern was inserted behind it.
    abbrev Followed : ℕ → Str → Edge → Type 0
    Followed c t none = Unit
    Followed c t (some (ns, e)) = HasEdge H method target c t ns × (e ≡ none)

    or_new-Lands :
        (i : Info H) (st re pa ca : Nodes H) (c : ℕ) (t : Str) (x : Edge)
        → IsPlain (c ∷ t)
        → Followed c t x
        → IsOrdered H
            (or_new H compile methods method actions handler pattern
              (node i st re pa ca)
              c
              plain_segment
              (c ∷ t)
              (λ ns. node i ns re pa ca)
              x).0
        → Lands H compile methods method actions handler pattern is_plain no_stub not_all
            (c ∷ t)
            (node i st re pa ca)
            (or_new H compile methods method actions handler pattern
              (node i st re pa ca)
              c
              plain_segment
              (c ∷ t)
              (λ ns. node i ns re pa ca)
              x)
    unfolding or_new new_child plain
    or_new-Lands i st re pa ca c t none p f o =
        attach-Lands H compile methods method actions handler pattern is_plain no_stub not_all i st
          re pa ca (length (c ∷ t)) c t p o
    or_new-Lands i st re pa ca c t (some (ns, e)) p (h, q) o =
        edge-Lands H compile methods method actions handler pattern is_plain no_stub not_all i st ns
          re pa ca e c t o h q

    kept-Followed :
        (n : Node H) (c : ℕ) (t : Str) (rest : Edge)
        → Followed c t rest
        → Followed c t (keep_first H compile methods method actions handler pattern n rest)
    unfolding keep_first
    kept-Followed n c t none f = tt
    kept-Followed n c t (some (ns, e)) ((k, a), q) = ((suc k, a), q)

    first-Followed :
        (ns : Nodes H) (c : ℕ) (t : Str) (here : Node H × Option InsertError)
        → Takes H method target c t here.0 × (here.1 ≡ none)
        → Followed c t (some (add_node here.0 ns, here.1))
    first-Followed ns c t here (a, q) = ((0, a), q)

    not_wild : (c : ℕ) (t : Str) → IsPlain (c ∷ t) → (c == b'{' || c == b'*') ≡ false
    not_wild c t p = let a = p.0.0 in let b = p.1.0 in ground (arith, a, b)

    mutual
      unfolding insert next_segment choose follow plain

      pub insert-Lands :
          (n : Node H) (s : Str)
          → IsOrdered H n
          → IsPlain s
          → Lands H compile methods method actions handler pattern is_plain no_stub not_all s n
              (into n s)
      insert-Lands (node i st re pa ca) [] o p =
          set-Lands H compile methods method actions handler pattern is_plain no_stub not_all
            (node i st re pa ca)
      insert-Lands (node i st re pa ca) (c ∷ t) (up, es, a, b, x, y) p =
          let w = not_wild c t p in
          let ordered =
            (insert-Stays H compile methods method actions handler pattern (node i st re pa ca)
              (c ∷ t) (up, es, a, b, x, y)).ordered in
          rw w (
            or_new-Lands i st re pa ca c t (into_group st c (c ∷ t)) p
              (group-Followed c st t a es p) (rw w at ordered))

      group-Followed :
          (c : ℕ) (ns : Nodes H) (t : Str)
          → AllOrdered H ns
          → AllNodes H (λ n. IsEntry H (info_of H n)) ns
          → IsPlain (c ∷ t)
          → Followed c t (into_group ns c (c ∷ t))
      group-Followed c no_nodes t a es p = tt
      group-Followed c (add_node n ns) t (o, a) (q, es) p =
          let k = longest_prefix (c ∷ t) (info_of H n).prefix in
          let label =
            matches-label H compile methods method actions handler pattern c plain_segment
              (info_of H n) q.no_tail refl in
          let rest = group-Followed c ns t a es p in
          elim (Bool-cases ((info_of H n).label == c)) [
            | inl h ↦ elim (Bool-cases (k == length (info_of H n).prefix)) [
              | inl z ↦
                  let whole : k ≡ length (info_of H n).prefix = ground (arith, z) in
                  let lands =
                    insert-Lands n (drop k (c ∷ t)) o
                      (All-drop _ k (c ∷ t) p.0, All-drop _ k (c ∷ t) p.1) in
                  rw (label ∙ h, z)
                    (first-Followed ns c t (into n (drop k (c ∷ t))) (
                      Lands-Takes H compile methods method actions handler pattern is_plain no_stub
                          not_all n _ c t (drop k (c ∷ t)) (info_of H n).prefix lands
                          (ground (arith, h)) refl (prefix-common (c ∷ t) _ z)
                          (ap (λ j. drop j (c ∷ t)) (sym whole)),
                      lands.succeeds,
                    ))
              | inr z ↦
                  rw (label ∙ h, z)
                    (first-Followed ns c t (split_at n k c (c ∷ t))
                      (split-Takes n c t p o q (ground (arith, h)) z))
            ]
            | inr h ↦ rw (label ∙ h) (kept-Followed n c t _ rest)
          ]
