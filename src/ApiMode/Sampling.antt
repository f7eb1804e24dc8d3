-- ===== src/ApiMode/Sampling.antt =====
-- `SampleSlice` of pkg/APIMode/validator/response.go.
use api_firewall.Base.{
  ℕ, zero, suc, ◌<◌, ◌≤◌, ◌≡◌, refl, ap, ◌∙◌, ◌⊎◌, inl, inr, ◌||◌, some, List, [], ◌∷◌, length,
  get_elem?, get_elem?-some, take, All, leb, ◌==◌, arith, Bool-cases,
}
use api_firewall.ApiMode.{ValidationError, pick, sample_slice}

-- An element of a list.
abbrev pub IsIn : List ValidationError → ValidationError → Type 0
IsIn xs x = (i : ℕ) × (get_elem? xs i ≡ some x)

module _ (xs : List ValidationError) where
  -- The indices are all in range.
  abbrev pub InRange : List ℕ → Type 0
  InRange is = All (λ i. i < length xs) is

  pick-cons :
      (i : ℕ) (is : List ℕ) (x : ValidationError)
      → get_elem? xs i ≡ some x
      → pick xs (i ∷ is) ≡ x ∷ pick xs is
  unfolding pick
  pick-cons i is x e = rw (e, pick)

  length-pick : (is : List ℕ) → InRange is → length (pick xs is) ≡ length is
  unfolding pick
  length-pick [] h = refl
  length-pick (i ∷ is) (h, hs) =
      let (x, e) = get_elem?-some xs i h in
      ap length (pick-cons i is x e) ∙ ap suc (length-pick is hs)

  pick-IsIn : (is : List ℕ) → InRange is → All (IsIn xs) (pick xs is)
  unfolding pick
  pick-IsIn [] h = tt
  pick-IsIn (i ∷ is) (h, hs) =
      let (x, e) = get_elem?-some xs i h in rw (pick-cons i is x e) ((i, e), pick-IsIn is hs)

  InRange-take : (n : ℕ) (is : List ℕ) → InRange is → InRange (take n is)
  InRange-take zero is h = tt
  InRange-take (suc n) [] h = tt
  InRange-take (suc n) (i ∷ is) (h, hs) = (h, InRange-take n is hs)

  length-take : (n : ℕ) (is : List ℕ) → n ≤ length is → length (take n is) ≡ n
  length-take zero is h = refl
  length-take (suc n) [] h = elim h [ ]
  length-take (suc n) (i ∷ is) h = ap suc (length-take n is (omega arith))

  -- Sampling with a permutation of the indices drawn: all errors are kept if they are within the
  -- limit or there is none, and else as many as the limit says, each of them one of the errors.
  pub sample_slice-limit :
      (limit : ℕ) (perm : List ℕ)
      → InRange perm
      → length perm ≡ length xs
      → ((length xs ≤ limit) ⊎ (limit ≡ 0)) × (sample_slice xs limit perm ≡ xs)
        ⊎ (limit < length xs)
          × (length (sample_slice xs limit perm) ≡ limit)
          × All (IsIn xs) (sample_slice xs limit perm)
  unfolding sample_slice
  sample_slice-limit limit perm h e = elim (Bool-cases (leb (length xs) limit || limit == 0)) [
    | inl q ↦ inl (ground arith, rw q)
    | inr q ↦
        let small : limit < length xs = ground arith in
        let r = InRange-take limit perm h in
        inr (
          small,
          rw q (length-pick (take limit perm) r ∙ length-take limit perm (omega arith)),
          rw q (pick-IsIn (take limit perm) r),
        )
  ]
