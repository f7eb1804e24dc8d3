-- ===== src/Router/Groups/Sorting.antt =====
-- A group of nodes after a node was appended and the group sorted.
use api_firewall.Base.{
  ℕ, zero, suc, ◌<◌, ◌≢◌, sym, inl, inr, Bool-cases, Option, none, some, ltb, arith,
}
use api_firewall.Router.{Node, Nodes, no_nodes, add_node, info_of}
use api_firewall.Router.Groups.{
  insert_sorted, sort_nodes, append_node, last_slash, last_of, replace_last, swap_last, tail_sort,
}

module _ (H : Type 0) where
  abbrev pub Lacks : ℕ → Nodes H → Type 0
  Lacks l no_nodes = Unit
  Lacks l (add_node n ns) = ((info_of H n).label ≢ l) × Lacks l ns

  abbrev pub Above : ℕ → Nodes H → Type 0
  Above l no_nodes = Unit
  Above l (add_node n ns) = (l < (info_of H n).label) × Above l ns

  -- Strictly ascending labels.
  abbrev pub IsAscending : Nodes H → Type 0
  IsAscending no_nodes = Unit
  IsAscending (add_node n ns) = Above (info_of H n).label ns × IsAscending ns

  abbrev IsDistinct : Nodes H → Type 0
  IsDistinct no_nodes = Unit
  IsDistinct (add_node n ns) = Lacks (info_of H n).label ns × IsDistinct ns

  Above-Lacks : (l : ℕ) (ns : Nodes H) → Above l ns → Lacks l ns
  Above-Lacks l no_nodes a = tt
  Above-Lacks l (add_node n ns) (h, a) = (λ e. omega (arith, e, h), Above-Lacks l ns a)

  IsAscending-IsDistinct : (ns : Nodes H) → IsAscending ns → IsDistinct ns
  IsAscending-IsDistinct no_nodes a = tt
  IsAscending-IsDistinct (add_node n ns) (h, a) = (Above-Lacks _ ns h, IsAscending-IsDistinct ns a)

  append_node-Lacks :
      (l : ℕ) (ns : Nodes H) (n : Node H)
      → Lacks l ns
      → (info_of H n).label ≢ l
      → Lacks l (append_node H ns n)
  unfolding append_node
  append_node-Lacks l no_nodes n a ne = (ne, tt)
  append_node-Lacks l (add_node m ms) n (h, a) ne = (h, append_node-Lacks l ms n a ne)

  append_node-IsDistinct :
      (ns : Nodes H) (n : Node H)
      → IsDistinct ns
      → Lacks (info_of H n).label ns
      → IsDistinct (append_node H ns n)
  unfolding append_node
  append_node-IsDistinct no_nodes n d a = (tt, tt)
  append_node-IsDistinct (add_node m ms) n (l, d) (h, a) =
      (append_node-Lacks _ ms n l (λ e. h (sym e)), append_node-IsDistinct ms n d a)

  insert_sorted-Lacks :
      (l : ℕ) (n : Node H) (ns : Nodes H)
      → (info_of H n).label ≢ l
      → Lacks l ns
      → Lacks l (insert_sorted H n ns)
  unfolding insert_sorted
  insert_sorted-Lacks l n no_nodes ne a = (ne, tt)
  insert_sorted-Lacks l n (add_node m ms) ne (h, a) =
      elim (Bool-cases (ltb (info_of H m).label (info_of H n).label)) [
        | inl b ↦ rw b (h, insert_sorted-Lacks l n ms ne a)
        | inr b ↦ rw b (ne, (h, a))
      ]

  sort_nodes-Lacks : (l : ℕ) (ns : Nodes H) → Lacks l ns → Lacks l (sort_nodes H ns)
  unfolding sort_nodes
  sort_nodes-Lacks l no_nodes a = tt
  sort_nodes-Lacks l (add_node n ns) (h, a) =
      insert_sorted-Lacks l n (sort_nodes H ns) h (sort_nodes-Lacks l ns a)

  insert_sorted-Above :
      (l : ℕ) (n : Node H) (ns : Nodes H)
      → l < (info_of H n).label
      → Above l ns
      → Above l (insert_sorted H n ns)
  unfolding insert_sorted
  insert_sorted-Above l n no_nodes h a = (h, tt)
  insert_sorted-Above l n (add_node m ms) h (g, a) =
      elim (Bool-cases (ltb (info_of H m).label (info_of H n).label)) [
        | inl b ↦ rw b (g, insert_sorted-Above l n ms h a)
        | inr b ↦ rw b (h, (g, a))
      ]

  Above-le : (k l : ℕ) (ns : Nodes H) → k < l → Above l ns → Above k ns
  Above-le k l no_nodes h a = tt
  Above-le k l (add_node n ns) h (g, a) = (omega (arith, h, g), Above-le k l ns h a)

  insert_sorted-IsAscending :
      (n : Node H) (ns : Nodes H)
      → Lacks (info_of H n).label ns
      → IsAscending ns
      → IsAscending (insert_sorted H n ns)
  unfolding insert_sorted
  insert_sorted-IsAscending n no_nodes l a = (tt, tt)
  insert_sorted-IsAscending n (add_node m ms) (ne, l) (g, a) =
      elim (Bool-cases (ltb (info_of H m).label (info_of H n).label)) [
        | inl b ↦
            rw b
              (insert_sorted-Above _ n ms (ground (arith, b)) g, insert_sorted-IsAscending n ms l a)
        | inr b ↦
            let under : (info_of H n).label < (info_of H m).label = ground (arith, b, ne) in
            rw b ((under, Above-le _ _ ms under g), (g, a))
      ]

  sort_nodes-IsAscending : (ns : Nodes H) → IsDistinct ns → IsAscending (sort_nodes H ns)
  unfolding sort_nodes
  sort_nodes-IsAscending no_nodes d = tt
  sort_nodes-IsAscending (add_node n ns) (l, d) =
      insert_sorted-IsAscending n (sort_nodes H ns) (sort_nodes-Lacks _ ns l)
        (sort_nodes-IsAscending ns d)

  -- A group with ascending labels stays so when a node with another label is appended and sorted.
  pub append_node-IsAscending :
      (ns : Nodes H) (n : Node H)
      → IsAscending ns
      → Lacks (info_of H n).label ns
      → IsAscending (sort_nodes H (append_node H ns n))
  append_node-IsAscending ns n a l =
      sort_nodes-IsAscending (append_node H ns n)
        (append_node-IsDistinct ns n (IsAscending-IsDistinct ns a) l)

  module _ (P : Node H → Type 0) where
    abbrev pub AllNodes : Nodes H → Type 0
    AllNodes no_nodes = Unit
    AllNodes (add_node n ns) = P n × AllNodes ns

    insert_sorted-AllNodes :
        (n : Node H) (ns : Nodes H) → P n → AllNodes ns → AllNodes (insert_sorted H n ns)
    unfolding insert_sorted
    insert_sorted-AllNodes n no_nodes p a = (p, tt)
    insert_sorted-AllNodes n (add_node m ms) p (q, a) =
        elim (Bool-cases (ltb (info_of H m).label (info_of H n).label)) [
          | inl b ↦ rw b (q, insert_sorted-AllNodes n ms p a)
          | inr b ↦ rw b (p, (q, a))
        ]

    -- What holds of all nodes of a group and of one more holds of the sorted group.
    pub append_node-AllNodes :
        (ns : Nodes H) (n : Node H)
        → AllNodes ns
        → P n
        → AllNodes (sort_nodes H (append_node H ns n))
    unfolding append_node sort_nodes
    append_node-AllNodes no_nodes n a p = insert_sorted-AllNodes n no_nodes p tt
    append_node-AllNodes (add_node m ms) n (q, a) p =
        insert_sorted-AllNodes m _ q (append_node-AllNodes ms n a p)

    last_of-P : (n : Node H) (ns : Nodes H) → P n → AllNodes ns → P (last_of H n ns)
    unfolding last_of
    last_of-P n no_nodes p a = p
    last_of-P n (add_node m ms) p (q, a) = last_of-P m ms q a

    replace_last-AllNodes :
        (ns : Nodes H) (x : Node H) → AllNodes ns → P x → AllNodes (replace_last H ns x)
    unfolding replace_last
    replace_last-AllNodes no_nodes x a p = tt
    replace_last-AllNodes (add_node n no_nodes) x a p = (p, tt)
    replace_last-AllNodes (add_node n (add_node m ms)) x (q, a) p =
        (q, replace_last-AllNodes (add_node m ms) x a p)

    swap_last-AllNodes : (ns : Nodes H) (i : ℕ) → AllNodes ns → AllNodes (swap_last H ns i)
    unfolding swap_last
    swap_last-AllNodes no_nodes i a = tt
    swap_last-AllNodes (add_node n no_nodes) i a = a
    swap_last-AllNodes (add_node n (add_node m ms)) zero (q, (r, a)) =
        (last_of-P m ms r a, replace_last-AllNodes (add_node m ms) n (r, a) q)
    swap_last-AllNodes (add_node n (add_node m ms)) (suc i) (q, a) =
        (q, swap_last-AllNodes (add_node m ms) i a)

    moved-AllNodes :
        (ns : Nodes H) (o : Option ℕ)
        → AllNodes ns
        → AllNodes (elim o [ none ↦ ns | some i ↦ swap_last H ns i ])
    moved-AllNodes ns none a = a
    moved-AllNodes ns (some i) a = swap_last-AllNodes ns i a

    pub tail_sort-AllNodes : (ns : Nodes H) → AllNodes ns → AllNodes (tail_sort H ns)
    unfolding tail_sort
    tail_sort-AllNodes ns a = moved-AllNodes ns (last_slash H ns) a
