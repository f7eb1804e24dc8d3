-- ===== src/Storage/Updating.antt =====
-- What an update of the specifications leaves.
use api_firewall.Base.{
  ℕ, ◌≡◌, refl, ap, inl, inr, Bool, true, false, Option, List, [], ◌∷◌, map, bytes, str_eq, exists,
  ltb, arith, Bool-cases, Str, ◌∙◌, none, some, ◌==◌,
}
use api_firewall.Storage.{
  get_routers, routers_of, router_of, content_or_empty, specification_version, specification_raw,
  version_or_empty, entry_of, Updated, SpecificationEntryV2, Storage, schema_ids, sort_ids,
  should_update, apply_entry, after_load, UpdateError, Firewall, Loaded, loaded, not_loaded,
  settle_after_load, replace, update_specs_storage,
}

map-apply_entry :
    (es : List SpecificationEntryV2)
    → map (λ e. e.schema_id) (map apply_entry es) ≡ map (λ e. e.schema_id) es
unfolding apply_entry
map-apply_entry [] = refl
map-apply_entry (e ∷ es) = elim (Bool-cases (str_eq e.status (bytes "new"))) [
  | inl q ↦ rw q (ap (λ t. e.schema_id ∷ t) (map-apply_entry es))
  | inr q ↦ rw q (ap (λ t. e.schema_id ∷ t) (map-apply_entry es))
]

-- An entry and the same one marked as applied have one version and one content.
same_entry :
    (e : SpecificationEntryV2)
    → ((apply_entry e).schema_version ≡ e.schema_version)
      × ((apply_entry e).schema_content ≡ e.schema_content)
      × ((apply_entry e).schema_id ≡ e.schema_id)
unfolding apply_entry
same_entry e = elim (Bool-cases (str_eq e.status (bytes "new"))) [
  | inl q ↦ rw q (refl, refl, refl)
  | inr q ↦ rw q (refl, refl, refl)
]

module _ (Mux : Type 0) (make_router : ℕ → Str → Str → Option Mux) where
  -- The version and the content of a schema are as before the entries were marked.
  abbrev SameEntry : List SpecificationEntryV2 → ℕ → Type 0
  SameEntry es id =
      (version_or_empty (entry_of id (map apply_entry es)) ≡ version_or_empty (entry_of id es))
      × (content_or_empty Mux make_router (entry_of id (map apply_entry es))
          ≡ content_or_empty Mux make_router (entry_of id es))

  entry_of-apply : (es : List SpecificationEntryV2) (id : ℕ) → SameEntry es id
  unfolding entry_of version_or_empty content_or_empty
  entry_of-apply [] id = (refl, refl)
  entry_of-apply (e ∷ es) id =
      let (v, c, i) = same_entry e in
      let ih = entry_of-apply es id in
      elim (Bool-cases (e.schema_id == id)) [ inl q ↦ rw (i, q) (v, c) | inr q ↦ rw (i, q) ih ]

  routers_of-same :
      (s t : Storage) (ids : List ℕ)
      → ((id : ℕ) → router_of Mux make_router s id ≡ router_of Mux make_router t id)
      → routers_of Mux make_router s ids ≡ routers_of Mux make_router t ids
  unfolding routers_of
  routers_of-same s t [] h = refl
  routers_of-same s t (id ∷ ids) h = rw (h id, routers_of-same s t ids h)

  -- Marking the entries of a storage as applied does not change its routers.
  get_routers-apply :
      (s : Storage)
      → get_routers Mux make_router (record s { raw_specs = map apply_entry s.raw_specs })
        ≡ get_routers Mux make_router s
  unfolding get_routers router_of schema_ids specification_version specification_raw
  get_routers-apply s =
      ap (routers_of Mux make_router (record s { raw_specs = map apply_entry s.raw_specs }))
        (ap sort_ids (map-apply_entry s.raw_specs))
      ∙ routers_of-same (record s { raw_specs = map apply_entry s.raw_specs }) s (schema_ids s)
          (λ id. let (v, c) = entry_of-apply s.raw_specs id in rw (v, c))

  get_routers-after_load :
      (opens executes : Bool) (s : Storage)
      → get_routers Mux make_router (after_load opens executes s).0 ≡ get_routers Mux make_router s
  unfolding after_load
  get_routers-after_load opens executes s = elim (Bool-cases opens) [
    | inr a ↦ rw a
    | inl a ↦ elim (Bool-cases (exists (λ e. str_eq e.status (bytes "new")) s.raw_specs)) [
      | inr b ↦ rw (a, b)
      | inl b ↦ elim (Bool-cases executes) [
        | inr c ↦ rw (a, b, c)
        | inl c ↦ rw (a, b, c) (get_routers-apply s)
      ]
    ]
  ]

  -- The routers are those that are made of the storage in use.
  abbrev pub IsConsistent : Firewall Mux → Type 0
  IsConsistent f = get_routers Mux make_router f.specs_storage ≡ some f.routers

  module _ (opens executes : Bool) where
    -- The end of an update: the ids are those of the storage in use, and the routers are those made
    -- of it. If the result says that there was no update, nothing was changed; if it says that there
    -- was, the new storage, after it was marked, is in use with its version, which is not lower.
    pub record IsOutcome (f : Firewall Mux) (l : Loaded) (r : Updated Mux) : Type 0 where
      pub ids : r.1 ≡ schema_ids r.0.specs_storage
      pub consistent : IsConsistent r.0
      pub same : r.2 ≡ false → r.0 ≡ f
      pub updated :
          r.2 ≡ true
          → (new : Storage) × (version : ℕ) × (l ≡ loaded new version)
            × (ltb version f.version ≡ false)
            × (should_update f.specs_storage new ≡ true)
            × (r.0.specs_storage ≡ (after_load opens executes new).0)
            × (r.0.version ≡ version)

    unchanged-IsOutcome :
        (f : Firewall Mux) (l : Loaded) (e : Option UpdateError)
        → IsConsistent f
        → IsOutcome f l (f, schema_ids f.specs_storage, false, e)
    unchanged-IsOutcome f l e c = record {
      ids = refl;
      consistent = c;
      same = λ q. refl;
      updated = λ q. absurd (ground arith);
    }

    settle_after_load-IsOutcome :
        (f g : Firewall Mux) (new : Storage) (version : ℕ) (x : Storage × Bool)
        → ltb version f.version ≡ false
        → should_update f.specs_storage new ≡ true
        → x ≡ after_load opens executes new
        → g.version ≡ version
        → get_routers Mux make_router x.0 ≡ some g.routers
        → IsOutcome f
            (loaded new version)
            (settle_after_load Mux make_router opens executes g version x)
    unfolding settle_after_load
    settle_after_load-IsOutcome f g new version (s, failed) v u e w m = record {
      ids = refl;
      consistent = m;
      same = λ q. absurd (ground arith);
      updated = λ q. (new, version, refl, v, u, ap (λ x. x.0) e, w);
    }

    replace-IsOutcome :
        (f : Firewall Mux) (new : Storage) (version : ℕ) (rs : Option (List (ℕ × Mux)))
        → IsConsistent f
        → ltb version f.version ≡ false
        → should_update f.specs_storage new ≡ true
        → get_routers Mux make_router new ≡ rs
        → IsOutcome f (loaded new version) (replace Mux make_router opens executes f new version rs)
    unfolding replace
    replace-IsOutcome f new version none c v u m = unchanged-IsOutcome f (loaded new version) _ c
    replace-IsOutcome f new version (some rs) c v u m =
        settle_after_load-IsOutcome f
          (record f { specs_storage = new; routers = rs; version = version }) new version
          (after_load opens executes new) v u refl refl
          (get_routers-after_load opens executes new ∙ m)

    -- An update from a state whose routers are those made of its storage, whatever the load gives,
    -- returns the ids of the storage that is then in use, and the routers are those made of that
    -- storage, with its versions and contents. Where no update is reported, as after a load that
    -- fails, for a lower version, unchanged schemas or routers that cannot be made, nothing was
    -- changed. Where one is reported, the storage in use is the new one after its marking, also if
    -- that ended with an error.
    pub update_specs_storage-IsOutcome :
        (f : Firewall Mux) (l : Loaded)
        → IsConsistent f
        → IsOutcome f l (update_specs_storage Mux make_router opens executes f l)
    unfolding update_specs_storage
    update_specs_storage-IsOutcome f not_loaded c = unchanged-IsOutcome f not_loaded _ c
    update_specs_storage-IsOutcome f (loaded new version) c =
        elim (Bool-cases (ltb version f.version)) [
          | inl v ↦ rw v (unchanged-IsOutcome f (loaded new version) _ c)
          | inr v ↦ elim (Bool-cases (should_update f.specs_storage new)) [
            | inl u ↦
                rw (v, u)
                  (replace-IsOutcome f new version (get_routers Mux make_router new) c v u refl)
            | inr u ↦ rw (v, u) (unchanged-IsOutcome f (loaded new version) _ c)
          ]
        ]
