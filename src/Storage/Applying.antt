-- ===== src/Storage/Applying.antt =====
-- Which changes an update from the database takes over.
use api_firewall.Base.{
  ℕ, ◌≡◌, refl, sym, ap, subst, ◌∙◌, inl, inr, Bool, true, false, not, Option, none, some, List, [],
  ◌∷◌, map, Str, bytes, str_eq, str_eq_iff, exists, length, ltb, ◌==◌, arith, Bool-cases,
  Option-cases, All,
}
use api_firewall.Storage.{
  SpecificationEntryV2, Storage, load, schema_ids, entry_of, specification_raw,
  specification_version, version_or_empty, entry_changed, should_update, apply_entry, after_load,
  empty_storage, settle_new, new_open_api_db_v2, Firewall, update_specs_storage, loaded_v2,
  update_from_db,
}

-- No entry is new.
abbrev NoneNew : List SpecificationEntryV2 → Type 0
NoneNew es = All (λ e. str_eq e.status (bytes "new") ≡ false) es

apply-NoneNew : (es : List SpecificationEntryV2) → NoneNew (map apply_entry es)
unfolding apply_entry str_eq
apply-NoneNew [] = tt
apply-NoneNew (e ∷ es) = elim (Bool-cases (str_eq e.status (bytes "new"))) [
  | inl q ↦ (rw q refl, apply-NoneNew es)
  | inr q ↦ (rw (q, apply_entry) q, apply-NoneNew es)
]

exists-NoneNew :
    (es : List SpecificationEntryV2)
    → exists (λ e. str_eq e.status (bytes "new")) es ≡ false
    → NoneNew es
exists-NoneNew [] q = tt
exists-NoneNew (e ∷ es) q = (ground arith, exists-NoneNew es (ground arith))

entry_of-NoneNew :
    (es : List SpecificationEntryV2) (id : ℕ) (e : SpecificationEntryV2)
    → NoneNew es
    → entry_of id es ≡ some e
    → str_eq e.status (bytes "new") ≡ false
unfolding entry_of
entry_of-NoneNew [] id e n q = absurd (ground arith)
entry_of-NoneNew (x ∷ xs) id e (n, ns) q = elim (Bool-cases (x.schema_id == id)) [
  | inl same ↦
      let eq : x ≡ e = ground arith in subst (λ y. str_eq y.status (bytes "new") ≡ false) eq n
  | inr other ↦ entry_of-NoneNew xs id e ns (ground arith)
]

after_load-NoneNew : (s : Storage) → NoneNew (after_load true true s).0.raw_specs
unfolding after_load
after_load-NoneNew s = elim (Bool-cases (exists (λ x. str_eq x.status (bytes "new")) s.raw_specs)) [
  | inl q ↦ rw q (apply-NoneNew s.raw_specs)
  | inr q ↦ rw q (exists-NoneNew s.raw_specs q)
]

settle_new-NoneNew :
    (x y : Storage × Bool) (new : Storage)
    → NoneNew y.0.raw_specs
    → settle_new true x y ≡ (new, false)
    → NoneNew new.raw_specs
unfolding settle_new
settle_new-NoneNew (s, failed) (s', failed') new n e = subst NoneNew (ap (λ r. r.0.raw_specs) e) n

new_open_api_db_v2-NoneNew :
    (parses : SpecificationEntryV2 → Bool) (rows : Option (List SpecificationEntryV2))
    (new : Storage)
    → new_open_api_db_v2 parses rows true true true ≡ (new, false)
    → NoneNew new.raw_specs
unfolding new_open_api_db_v2
new_open_api_db_v2-NoneNew parses rows new e =
    let l = load parses rows empty_storage in
    let ready_s = record l.0 { is_ready = l.1 } in
    settle_new-NoneNew (ready_s, l.2) (after_load true true ready_s) new
      (after_load-NoneNew ready_s) e

exists-subset :
    (ids all : List ℕ)
    → ((id : ℕ) → exists (λ i. i == id) ids ≡ true → exists (λ i. i == id) all ≡ true)
    → exists (λ id. not (exists (λ i. i == id) all)) ids ≡ false
exists-subset [] all h = refl
exists-subset (x ∷ xs) all h =
    let here : exists (λ i. i == x) all ≡ true = h x (ground arith) in
    let there = exists-subset xs all (λ id q. h id (ground (arith, q))) in rw (here, there)

version_of :
    (new : Storage) (id : ℕ) (x : SpecificationEntryV2)
    → entry_of id new.raw_specs ≡ some x
    → specification_version new id ≡ x.schema_version
unfolding specification_version specification_raw version_or_empty
version_of new id x q = ap version_or_empty q

unchanged-none :
    (s : Storage) (id : ℕ) (x : Option SpecificationEntryV2)
    → x ≡ none
    → entry_changed s id x ≡ false
unfolding entry_changed
unchanged-none s id none q = refl
unchanged-none s id (some e) q = absurd (ground arith)

unchanged-some :
    (s new : Storage) (id : ℕ) (x : SpecificationEntryV2)
    → NoneNew new.raw_specs
    → entry_of id new.raw_specs ≡ some x
    → specification_version s id ≡ specification_version new id
    → entry_changed s id (entry_of id new.raw_specs) ≡ false
unfolding entry_changed
unchanged-some s new id x n q e =
    let status = entry_of-NoneNew new.raw_specs id x n q in
    let same : str_eq x.schema_version (specification_version s id) ≡ true =
      (str_eq_iff _ _).1 (sym (e ∙ version_of new id x q)) in
    rw (q, entry_changed, status, same)

entry_changed-false :
    (s new : Storage) (id : ℕ)
    → NoneNew new.raw_specs
    → specification_version s id ≡ specification_version new id
    → entry_changed s id (specification_raw new id) ≡ false
unfolding specification_raw
entry_changed-false s new id n e = elim (Option-cases (entry_of id new.raw_specs)) [
  | inl q ↦ unchanged-none s id _ q
  | inr (x, q) ↦ unchanged-some s new id x n q e
]

-- Each of these schemas is in use with its version in the new storage.
abbrev pub SameVersions : Storage → Storage → List ℕ → Type 0
SameVersions s new ids = All (λ id. specification_version s id ≡ specification_version new id) ids

exists-changed :
    (s new : Storage) (ids : List ℕ)
    → NoneNew new.raw_specs
    → SameVersions s new ids
    → exists (λ id. entry_changed s id (specification_raw new id)) ids ≡ false
exists-changed s new [] n h = refl
exists-changed s new (id ∷ ids) n (h, hs) =
    let here = entry_changed-false s new id n h in
    let there = exists-changed s new ids n hs in rw (here, there)

should_update-applied :
    (parses : SpecificationEntryV2 → Bool) (rows : Option (List SpecificationEntryV2))
    (s new : Storage)
    → new_open_api_db_v2 parses rows true true true ≡ (new, false)
    → schema_ids s ≡ schema_ids new
    → SameVersions s new (schema_ids new)
    → should_update s new ≡ false
unfolding should_update
should_update-applied parses rows s new e ids versions =
    let n = new_open_api_db_v2-NoneNew parses rows new e in
    let known = exists-subset (schema_ids new) (schema_ids new) (λ id q. q) in
    let same = exists-changed s new (schema_ids new) n versions in
    let size : (length (schema_ids new) == length (schema_ids new)) ≡ true = ground arith in
    rw (ids, size, known, same)

-- A load that executed `AfterLoad` without an error, whose schemas have the ids and the versions of
-- those in use, is not taken over by `UpdateSpecsStorage`, also if rows of the database are new:
-- nothing is changed and no update is reported.
pub update_specs_storage-applied :
    (Mux : Type 0) (make_router : ℕ → Str → Str → Option Mux) (parses : SpecificationEntryV2 → Bool)
    (rows : Option (List SpecificationEntryV2)) (f : Firewall Mux) (new : Storage)
    → new_open_api_db_v2 parses rows true true true ≡ (new, false)
    → ltb 2 f.version ≡ false
    → schema_ids f.specs_storage ≡ schema_ids new
    → SameVersions f.specs_storage new (schema_ids new)
    → update_from_db Mux make_router true true parses rows f
      ≡ (f, schema_ids f.specs_storage, false, none)
unfolding update_from_db loaded_v2 update_specs_storage
update_specs_storage-applied Mux make_router parses rows f new e version ids versions =
    let s = f.specs_storage in
    let same = should_update-applied parses rows s new e ids versions in
    ap
      (λ x.
        update_specs_storage Mux make_router true true f (loaded_v2 Mux make_router true true x))
      e
    ∙ rw (version, same)
