-- ===== src/Router/Edges.antt =====
-- The binary search of `findEdge` in internal/platform/router/tree.go.
use api_firewall.Base.{
  ℕ, zero, suc, ◌+◌, ◌-◌, ◌/◌, ◌<◌, ◌≤◌, ◌≡◌, refl, sym, ap, ◌∙◌, ◌↔◌, inl, inr, some, List, [],
  ◌∷◌, get_elem?, get_or, length, ◌==◌, arith, dec_lt, Bool-cases,
}
use api_firewall.Router.{edge_loop, find_edge}

-- Strictly ascending.
abbrev pub IsAscending : List ℕ → Type 0
IsAscending ls = (a b : ℕ) → a < b → b < length ls → get_or ls a 0 < get_or ls b 0

module _ (ls : List ℕ) (label : ℕ) (up : IsAscending ls) where
  ascending_le : (a b : ℕ) → get_or ls a 0 < get_or ls b 0 → a < length ls → a < b
  ascending_le a b h bound = elim (dec_lt a b) [
    | yes p ↦ p
    | no p ↦ elim (dec_lt b a) [
      | yes q ↦ absurd (omega (arith, up b a q bound))
      | no q ↦ let same : a ≡ b = omega arith in absurd (ground (arith, same))
    ]
  ]

  at_once : (a b : ℕ) → get_or ls a 0 ≡ get_or ls b 0 → a < length ls → b < length ls → a ≡ b
  at_once a b e ha hb = elim (dec_lt a b) [
    | yes p ↦ absurd (omega (arith, up a b p hb))
    | no p ↦ elim (dec_lt b a) [ yes q ↦ absurd (omega (arith, up b a q ha)) | no q ↦ omega arith ]
  ]

  edge_loop-hit :
      (fuel k i j idx : ℕ)
      → get_or ls k 0 ≡ label
      → i ≤ k
      → k < j
      → j ≤ length ls
      → j ≤ i + fuel
      → edge_loop fuel ls label i j idx ≡ k
  unfolding edge_loop
  edge_loop-hit zero k i j idx e lo hi bound enough = absurd (omega arith)
  edge_loop-hit (suc fuel) k i j idx e lo hi bound enough =
      let mid : ℕ = i + (j - 1 - i) / 2 in
      let inside : mid < j = omega arith in
      elim (dec_lt (get_or ls mid 0) label) [
        | yes p ↦
            let right : mid < k = ascending_le mid k (rw e p) (omega arith) in
            ground
              (arith, edge_loop-hit fuel k (mid + 1) j mid e (omega arith) hi bound (omega arith))
        | no p ↦ elim (dec_lt label (get_or ls mid 0)) [
          | yes q ↦
              let left : k < mid = ascending_le k mid (rw e q) (omega arith) in
              ground (arith, edge_loop-hit fuel k i mid mid e lo left (omega arith) (omega arith))
          | no q ↦
              let equal : get_or ls mid 0 ≡ label = omega arith in
              let here : mid ≡ k = at_once mid k (equal ∙ sym e) (omega arith) (omega arith) in
              ground (arith, here)
        ]
      ]

  edge_loop-lt :
      (fuel i j idx : ℕ)
      → j ≤ length ls
      → idx < length ls
      → edge_loop fuel ls label i j idx < length ls
  unfolding edge_loop
  edge_loop-lt zero i j idx bound h = h
  edge_loop-lt (suc fuel) i j idx bound h = elim (dec_lt i j) [
    | no p ↦ ground arith
    | yes p ↦
        let mid : ℕ = i + (j - 1 - i) / 2 in
        let inside : mid < length ls = omega arith in
        ground (
          arith,
          edge_loop-lt fuel (mid + 1) j mid bound inside,
          edge_loop-lt fuel i mid mid (omega arith) inside,
        )
  ]

  get_elem?-get_or : (xs : List ℕ) (k : ℕ) → k < length xs → get_elem? xs k ≡ some (get_or xs k 0)
  get_elem?-get_or [] k h = elim h [ ]
  get_elem?-get_or (x ∷ xs) zero h = refl
  get_elem?-get_or (x ∷ xs) (suc k) h = get_elem?-get_or xs k (omega arith)

  get_elem?-at :
      (xs : List ℕ) (k : ℕ)
      → get_elem? xs k ≡ some label
      → (k < length xs) × (get_or xs k 0 ≡ label)
  get_elem?-at [] k e = absurd (ground arith)
  get_elem?-at (x ∷ xs) zero e = (omega arith, ground arith)
  get_elem?-at (x ∷ xs) (suc k) e = let (h, q) = get_elem?-at xs k e in (omega arith, q)

  -- In a group of nodes with strictly ascending labels, which is not empty, the binary search gives
  -- an index exactly if the node there has the label.
  pub find_edge_iff :
      (k : ℕ) → 0 < length ls → (find_edge ls label ≡ some k) ↔ (get_elem? ls k ≡ some label)
  unfolding find_edge
  find_edge_iff k pos =
      let idx : ℕ = edge_loop (length ls) ls label 0 (length ls) 0 in
      let bound : idx < length ls = edge_loop-lt (length ls) 0 (length ls) 0 (omega arith) pos in
      (
        λ e. elim (Bool-cases (get_or ls idx 0 == label)) [
          | inl at_idx ↦
              let same : idx ≡ k = ground arith in
              let found : get_or ls idx 0 ≡ label = ground arith in
              get_elem?-get_or ls k (omega (arith, same, bound))
              ∙ ap some (ap (λ i. get_or ls i 0) (sym same) ∙ found)
          | inr other ↦ absurd (ground arith)
        ],
        λ e.
            let (h, q) = get_elem?-at ls k e in
            let here : idx ≡ k =
              edge_loop-hit (length ls) k 0 (length ls) 0 q (omega arith) h (omega arith)
                (omega arith) in
            ground (arith, here, q),
      )
