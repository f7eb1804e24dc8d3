-- ===== src/Router/Inserting/Serving.antt =====
-- Where the search in the tree finds an endpoint that was set.
use api_firewall.Base.{
  ℕ, zero, suc, ◌<◌, ◌≡◌, refl, ap, ◌∙◌, inl, inr, Bool-cases, Option, none, some, List, [], ◌∷◌,
  ◌++◌, Str, get_elem?, get_or, length, ltb, arith,
}
use api_firewall.Router.{
  Endpoint, Info, Node, node, Nodes, no_nodes, add_node, info_of, labels, Search, served,
  settle_leaf, at_leaf, leaf, then_try, try_rest, static_rest, find_edge, first_byte, find_route,
  find_static,
}
use api_firewall.Router.Edges
use api_firewall.Router.Edges.{find_edge_iff}
use api_firewall.Router.Groups.{insert_sorted, sort_nodes, append_node}
use api_firewall.Router.Groups.Sorting.{Above, IsAscending}

module _ (H : Type 0) where
  Above-labels :
      (l : ℕ) (ns : Nodes H) (k : ℕ)
      → Above H l ns
      → k < length (labels H ns)
      → l < get_or (labels H ns) k 0
  Above-labels l no_nodes k a h = absurd (omega (arith, h))
  Above-labels l (add_node n ns) zero a h = a.0
  Above-labels l (add_node n ns) (suc k) a h = Above-labels l ns k a.1 (omega (arith, h))

  labels-IsAscending : (ns : Nodes H) → IsAscending H ns → Edges.IsAscending (labels H ns)
  labels-IsAscending no_nodes a x y h b = absurd (omega (arith, b))
  labels-IsAscending (add_node n ns) a zero zero h b = absurd (omega (arith, h))
  labels-IsAscending (add_node n ns) a zero (suc y) h b = Above-labels _ ns y a.0 (omega (arith, b))
  labels-IsAscending (add_node n ns) a (suc x) zero h b = absurd (omega (arith, h))
  labels-IsAscending (add_node n ns) a (suc x) (suc y) h b =
      labels-IsAscending ns a.1 x y (omega (arith, h)) (omega (arith, b))

module _ (H : Type 0) (method : ℕ) (e : Endpoint H) where
  -- The node has the endpoint for the method.
  abbrev pub Serves : Info H → Type 0
  Serves i = (es : List (ℕ × Endpoint H)) × (i.endpoints ≡ some es) × (served H es method ≡ some e)

  -- With the rest of the path behind the node, the search finds the endpoint in it or below.
  abbrev pub Hits : Str → Node H → Type 0
  Hits rest n =
      (s : Search H)
      → (s' : Search H) × (i : Info H) × (try_rest H (some rest) (info_of H n) method s
            (λ r s1. find_route H n method r s1)
          ≡ (s', some i))
        × Serves i

  at_leaf-Serves :
      (i : Info H) (es : List (ℕ × Endpoint H)) (o : Option (List (ℕ × Endpoint H))) (s : Search H)
      → o ≡ some es
      → served H es method ≡ some e
      → (s' : Search H) × (at_leaf H i o method s ≡ (s', some i))
  unfolding at_leaf settle_leaf
  at_leaf-Serves i es none s p q = absurd (ground (arith, p))
  at_leaf-Serves i es (some fs) s p q =
      let same : fs ≡ es = ground (arith, p) in
      (
        record s { keys = s.keys ++ e.param_keys },
        ap (λ (gs : List (ℕ × Endpoint H)). settle_leaf H i gs s (served H gs method)) same
            ∙ ap (settle_leaf H i es s) q,
      )

  pub leaf-Hits : (n : Node H) → Serves (info_of H n) → Hits [] n
  unfolding try_rest leaf then_try
  leaf-Hits n (es, p, q) s =
      let (s', f) = at_leaf-Serves (info_of H n) es (info_of H n).endpoints s p q in
      (s', info_of H n, ap (λ r. then_try H r (λ s1. find_route H n method [] s1)) f, (es, p, q))

  module _ (c : ℕ) (t : Str) where
    -- A static node that the search takes for the path.
    abbrev pub Takes : Node H → Type 0
    Takes n =
        ((info_of H n).label ≡ c)
        × (rest : Str) × (static_rest H (info_of H n) (c ∷ t) ≡ some rest)
        × Hits rest n

    abbrev TakesAt : Nodes H → ℕ → Type 0
    TakesAt no_nodes k = ⊥
    TakesAt (add_node n ns) zero = Takes n
    TakesAt (add_node n ns) (suc k) = TakesAt ns k

    abbrev pub HasEdge : Nodes H → Type 0
    HasEdge ns = (k : ℕ) × TakesAt ns k

    TakesAt-label : (ns : Nodes H) (k : ℕ) → TakesAt ns k → get_elem? (labels H ns) k ≡ some c
    TakesAt-label no_nodes k a = absurd a
    TakesAt-label (add_node n ns) zero a = ap some a.0
    TakesAt-label (add_node n ns) (suc k) a = TakesAt-label ns k a

    find_static-TakesAt :
        (ns : Nodes H) (k : ℕ) (s : Search H)
        → TakesAt ns k
        → (s' : Search H) × (i : Info H) × (find_static H ns (some k) method (c ∷ t) s
            ≡ (s', some i))
          × Serves i
    unfolding find_static
    find_static-TakesAt no_nodes k s a = absurd a
    find_static-TakesAt (add_node n ns) zero s (l, rest, p, h) =
        let (s', i, q, v) = h s in
        (
          s',
          i,
          ap (λ o. try_rest H o (info_of H n) method s (λ r s1. find_route H n method r s1)) p ∙ q,
          v,
        )
    find_static-TakesAt (add_node n ns) (suc k) s a = find_static-TakesAt ns k s a

    pub insert_sorted-first : (n : Node H) (ns : Nodes H) → Takes n → HasEdge (insert_sorted H n ns)
    unfolding insert_sorted
    insert_sorted-first n no_nodes p = (0, p)
    insert_sorted-first n (add_node m ms) p =
        elim (Bool-cases (ltb (info_of H m).label (info_of H n).label)) [
          | inl b ↦ let (k, a) = insert_sorted-first n ms p in rw b (suc k, a)
          | inr b ↦ rw b (0, p)
        ]

    insert_sorted-HasEdge :
        (n : Node H) (ns : Nodes H) (k : ℕ) → TakesAt ns k → HasEdge (insert_sorted H n ns)
    unfolding insert_sorted
    insert_sorted-HasEdge n no_nodes k a = absurd a
    insert_sorted-HasEdge n (add_node m ms) zero a =
        elim (Bool-cases (ltb (info_of H m).label (info_of H n).label)) [
          | inl b ↦ rw b (0, a)
          | inr b ↦ rw b (1, a)
        ]
    insert_sorted-HasEdge n (add_node m ms) (suc k) a =
        elim (Bool-cases (ltb (info_of H m).label (info_of H n).label)) [
          | inl b ↦ let (j, d) = insert_sorted-HasEdge n ms k a in rw b (suc j, d)
          | inr b ↦ rw b (suc (suc k), a)
        ]

    -- The new node of a group is found there.
    pub append_node-HasEdge :
        (ns : Nodes H) (n : Node H) → Takes n → HasEdge (sort_nodes H (append_node H ns n))
    unfolding append_node sort_nodes
    append_node-HasEdge no_nodes n p = insert_sorted-first n no_nodes p
    append_node-HasEdge (add_node m ms) n p =
        let (k, a) = append_node-HasEdge ms n p in insert_sorted-HasEdge m _ k a

    HasEdge-some : (ns : Nodes H) (k : ℕ) → TakesAt ns k → 0 < length (labels H ns)
    HasEdge-some no_nodes k a = absurd a
    HasEdge-some (add_node n ns) k a = omega arith

    -- The search goes on in the static group, whose binary search finds the edge.
    pub node-Hits :
        (i : Info H) (st re pa ca : Nodes H)
        → IsAscending H st
        → HasEdge st
        → Hits (c ∷ t) (node i st re pa ca)
    unfolding try_rest leaf then_try find_route first_byte
    node-Hits i st re pa ca up (k, a) s =
        let at : find_edge (labels H st) c ≡ some k =
          (find_edge_iff (labels H st) c (labels-IsAscending H st up) k (HasEdge-some st k a)).1
            (TakesAt-label st k a) in
        let (s', j, q, v) = find_static-TakesAt st k s a in (s', j, rw (at, q) refl, v)
