-- ===== src/GraphQl/Duplicates.antt =====
-- Which documents have duplicate fields.
use api_firewall.Base.{
  ℕ, ◌<◌, ◌≡◌, ◌≢◌, refl, sym, ap, subst, ◌∙◌, ◌↔◌, inl, inr, Bool, true, false, ◌||◌, Option, none,
  some, List, [], ◌∷◌, Str, str_eq, str_eq_iff, exists, ltb, if◌then◌else◌, arith, Bool-cases,
  Option-cases, All,
}
use api_firewall.GraphQl.{
  Field, Document, Stop, refused, count_name, field_at, count_field, count_fields, check_counts,
  or_else, duplicates_loop, validate_duplicate_fields,
}

-- A name is among those counted.
seen : Str → List (Str × ℕ) → Bool
seen x m = exists (λ (g, n). str_eq g x) m

many : List (Str × ℕ) → Bool
many m = exists (λ (g, n). ltb 1 n) m

abbrev IsCounted : List (Str × ℕ) → Type 0
IsCounted m = All (λ (g, n). 0 < n) m

count_name-IsCounted : (f : Str) (m : List (Str × ℕ)) → IsCounted m → IsCounted (count_name f m)
unfolding count_name
count_name-IsCounted f [] c = (omega arith, tt)
count_name-IsCounted f ((g, n) ∷ rest) (p, c) = elim (Bool-cases (str_eq g f)) [
  | inl e ↦ rw e (omega arith, c)
  | inr e ↦ rw e (p, count_name-IsCounted f rest c)
]

many-count_name :
    (f : Str) (m : List (Str × ℕ)) → IsCounted m → many (count_name f m) ≡ many m || seen f m
unfolding count_name many seen
many-count_name f [] c = refl
many-count_name f ((g, n) ∷ rest) (p, c) =
    let ih = many-count_name f rest c in
    elim (Bool-cases (str_eq g f)) [
      | inl e ↦ rw e (ground (arith, p))
      | inr e ↦ rw e (ground (arith, ih))
    ]

seen-count_name :
    (x f : Str) (m : List (Str × ℕ)) → seen x (count_name f m) ≡ seen x m || str_eq f x
unfolding count_name seen
seen-count_name x f [] = ground arith
seen-count_name x f ((g, n) ∷ rest) =
    let ih = seen-count_name x f rest in
    elim (Bool-cases (str_eq g f)) [
      | inl e ↦
          let same : g ≡ f = (str_eq_iff g f).0 e in
          let here : str_eq g x ≡ str_eq f x = ap (λ y. str_eq y x) same in
          rw e (ground (arith, here))
      | inr e ↦ rw e (ground (arith, ih))
    ]

count_all : List Str → List (Str × ℕ) → List (Str × ℕ)
count_all [] m = m
count_all (x ∷ xs) m = count_all xs (count_name x m)

repeats : List Str → Bool
repeats [] = false
repeats (x ∷ xs) = exists (λ y. str_eq x y) xs || repeats xs

seen_nothing : (xs : List Str) → exists (λ y. seen y []) xs ≡ false
unfolding seen
seen_nothing [] = refl
seen_nothing (x ∷ xs) = seen_nothing xs

exists-count_name :
    (f : Str) (m : List (Str × ℕ)) (xs : List Str)
    → exists (λ y. seen y (count_name f m)) xs
      ≡ exists (λ y. seen y m) xs || exists (λ y. str_eq f y) xs
exists-count_name f m [] = refl
exists-count_name f m (x ∷ xs) =
    let here = seen-count_name x f m in
    let ih = exists-count_name f m xs in ground (arith, here, ih)

many-count_all :
    (xs : List Str) (m : List (Str × ℕ))
    → IsCounted m
    → many (count_all xs m) ≡ many m || exists (λ y. seen y m) xs || repeats xs
unfolding count_all repeats
many-count_all [] m c = ground arith
many-count_all (x ∷ xs) m c =
    let ih = many-count_all xs (count_name x m) (count_name-IsCounted x m c) in
    let here = many-count_name x m c in
    let there = exists-count_name x m xs in ground (arith, ih, here, there)

-- No two of the names are the same.
abbrev pub Distinct : List Str → Type 0
Distinct [] = Unit
Distinct (x ∷ xs) = All (λ y. x ≢ y) xs × Distinct xs

exists-All : (x : Str) (xs : List Str) → (exists (λ y. str_eq x y) xs ≡ false) ↔ All (λ y. x ≢ y) xs
exists-All x [] = (λ e. tt, λ a. refl)
exists-All x (y ∷ ys) =
    let ih = exists-All x ys in
    let here = str_eq_iff x y in
    (
      λ e. (λ same. let t = here.1 same in absurd (ground (arith, t, e)), ih.0 (ground arith)),
      λ (p, ps).
          let rest = ih.1 ps in
          elim (Bool-cases (str_eq x y)) [ inl t ↦ absurd (p (here.0 t)) | inr t ↦ rw (t, rest) ],
    )

repeats_iff : (xs : List Str) → (repeats xs ≡ false) ↔ Distinct xs
unfolding repeats
repeats_iff [] = (λ e. tt, λ a. refl)
repeats_iff (x ∷ xs) =
    let ih = repeats_iff xs in
    let here = exists-All x xs in
    (
      λ e. (here.0 (ground arith), ih.0 (ground arith)),
      λ (p, ps). let a = here.1 p in let b = ih.1 ps in rw (a, b),
    )

prepend : Field → Option (List Str) → Option (List Str)
prepend f none = none
prepend f (some ns) = if f.has_selections then some ns else some (f.name ∷ ns)

-- The names that are counted for a selection set: those of the fields, with no selections of their
-- own, that have the references of its selections as numbers. The reference of a fragment is taken for
-- the number of a field too. `none` if a number is out of range.
unfoldable pub counted_names : Document → List ℕ → Option (List Str)
unfolding prepend field_at
counted_names document [] = some []
counted_names document (cs ∷ refs) = elim (field_at document cs) [
  | none ↦ none
  | some f ↦ prepend f (counted_names document refs)
]

count_names : Option (List Str) → List (Str × ℕ) → Option (List (Str × ℕ))
unfolding count_all
count_names none m = none
count_names (some ns) m = some (count_all ns m)

count_names-prepend :
    (f : Field) (ns : Option (List Str)) (m : List (Str × ℕ))
    → count_names ns (count_field f m) ≡ count_names (prepend f ns) m
unfolding count_names prepend count_field count_all
count_names-prepend f none m = refl
count_names-prepend f (some ns) m = elim (Bool-cases (f.has_selections)) [
  | inl e ↦ rw e
  | inr e ↦ rw e
]

count_fields-names :
    (document : Document) (refs : List ℕ) (m : List (Str × ℕ))
    → count_fields document refs m ≡ count_names (counted_names document refs) m
unfolding count_fields count_names counted_names count_all
count_fields-names document [] m = refl
count_fields-names document (cs ∷ refs) m = elim (Option-cases (field_at document cs)) [
  | inl e ↦ rw (e, count_fields, counted_names)
  | inr (f, e) ↦
      rw (e, count_fields, counted_names)
        (count_fields-names document refs (count_field f m)
          ∙ count_names-prepend f (counted_names document refs) m)
]

-- A selection set whose references are in range as numbers of fields, with distinct names counted.
abbrev pub CountsDistinct : Document → List ℕ → Type 0
CountsDistinct document ss = (ns : List Str) × (counted_names document ss ≡ some ns) × Distinct ns

check_names_iff :
    (ns : Option (List Str))
    → (check_counts (count_names ns []) ≡ none) ↔ ((xs : List Str) × (ns ≡ some xs) × Distinct xs)
unfolding check_counts count_names refused many
check_names_iff none = (λ e. absurd (ground arith), λ (xs, e, d). absurd (ground arith))
check_names_iff (some ns) =
    let total = many-count_all ns [] tt in
    let r = repeats_iff ns in
    let nothing = seen_nothing ns in
    elim (Bool-cases (repeats ns)) [
      | inl e ↦
          let bad : exists (λ (f, n). ltb 1 n) (count_all ns []) ≡ true =
            total ∙ ground (arith, nothing, e) in
          (
            λ q. absurd (ground (arith, rw bad at q)),
            λ (xs, same, d).
                let eq : xs ≡ ns = ground arith in
                let no = r.1 (subst Distinct eq d) in absurd (ground (arith, no, e)),
          )
      | inr e ↦
          let good : exists (λ (f, n). ltb 1 n) (count_all ns []) ≡ false =
            total ∙ ground (arith, nothing, e) in
          (λ q. (ns, refl, r.0 e), λ d. rw good)
    ]

pub or_else_iff : (a b : Option Stop) → (or_else a b ≡ none) ↔ ((a ≡ none) × (b ≡ none))
unfolding or_else
or_else_iff none b = (λ e. (refl, e), λ p. p.1)
or_else_iff (some x) b = (λ e. absurd (ground arith), λ p. p.0)

duplicates_loop_iff :
    (document : Document) (sets : List (List ℕ))
    → (duplicates_loop document sets ≡ none) ↔ All (CountsDistinct document) sets
unfolding duplicates_loop
duplicates_loop_iff document [] = (λ e. tt, λ a. refl)
duplicates_loop_iff document (ss ∷ sets) =
    let ih = duplicates_loop_iff document sets in
    let here = check_names_iff (counted_names document ss) in
    let same = ap check_counts (count_fields-names document ss []) in
    let both =
      or_else_iff (check_counts (count_fields document ss [])) (duplicates_loop document sets) in
    (
      λ e. let (p, q) = both.0 e in (here.0 (sym same ∙ p), ih.0 q),
      λ (p, q). both.1 (same ∙ here.1 p, ih.1 q),
    )

-- A document passes the check for duplicates exactly if in each of its selection sets the reference of
-- every selection, taken as the number of a field whether or not the selection is one, is in range,
-- and those of the fields with these numbers that have no selections of their own have distinct names.
pub validate_duplicate_fields_iff :
    (document : Document)
    → (validate_duplicate_fields document ≡ none)
      ↔ All (CountsDistinct document) document.selection_sets
unfolding validate_duplicate_fields
validate_duplicate_fields_iff document = duplicates_loop_iff document document.selection_sets
