-- ===== src/Storage.antt =====
-- internal/platform/storage/dbv2.go: the specifications loaded from a database, whether they are to
-- be replaced, and what is done after a load; and `UpdateSpecsStorage` of pkg/APIMode/apifw.go. The
-- database is a list of rows, parsing is a parameter, and a Go map is a list of entries with
-- distinct keys in some order. Locks and the time of the last update are left out, and both storages
-- of an update are of version 2.
pub mod Updating
pub mod Applying
use api_firewall.Base.{
  ℕ, ◌+◌, ◌<◌, Bool, true, false, ◌&&◌, ◌||◌, not, Option, none, some, List, [], ◌∷◌, ◌++◌, map,
  Str, bytes, str_eq, exists, length, ltb, leb, ◌==◌, if◌then◌else◌,
}

pub record SpecificationEntryV2 : Type 0 where
  pub schema_id : ℕ
  pub schema_version : Str
  pub schema_format : Str
  pub schema_content : Str
  pub status : Str

pub record Storage : Type 0 where
  pub is_ready : Bool
  pub raw_specs : List SpecificationEntryV2
  pub open_api_spec : List ℕ  -- the schemas whose specification was parsed

-- Of two rows for a schema the later one counts.
without : ℕ → List SpecificationEntryV2 → List SpecificationEntryV2
without id [] = []
without id (e ∷ es) = let rest = without id es in if e.schema_id == id then rest else e ∷ rest

add_row : SpecificationEntryV2 → List SpecificationEntryV2 → List SpecificationEntryV2
unfolding without
add_row e es = without e.schema_id es ++ e ∷ []

add_rows : List SpecificationEntryV2 → List SpecificationEntryV2 → List SpecificationEntryV2
unfolding add_row
add_rows [] es = es
add_rows (r ∷ rows) es = add_rows rows (add_row r es)

-- The entries that can be parsed; the others are deleted.
parsed_only : (SpecificationEntryV2 → Bool) → List SpecificationEntryV2 → List SpecificationEntryV2
parsed_only parses [] = []
parsed_only parses (e ∷ es) =
    let rest = parsed_only parses es in if parses e then e ∷ rest else rest

-- `Load`; `rows` is what the query gives, `none` if it fails, which leaves the storage as it is. The
-- result tells whether it is ready, and whether there is an error.
unfoldable pub load :
    (SpecificationEntryV2 → Bool)
    → Option (List SpecificationEntryV2)
    → Storage
    → Storage × Bool × Bool
unfolding add_rows parsed_only
load parses none s = (s, false, true)
load parses (some rows) s =
    let entries = add_rows rows [] in
    let specs = parsed_only parses entries in
    (
      record s { raw_specs = specs; open_api_spec = map (λ e. e.schema_id) specs },
      true,
      not (length specs == length entries),
    )

-- Insertion by size, as `sort.Ints` orders the ids.
insert_id : ℕ → List ℕ → List ℕ
insert_id n [] = n ∷ []
insert_id n (m ∷ ms) = let rest = insert_id n ms in if leb n m then n ∷ m ∷ ms else m ∷ rest

sort_ids : List ℕ → List ℕ
unfolding insert_id
sort_ids [] = []
sort_ids (n ∷ ns) = insert_id n (sort_ids ns)

-- `SchemaIDs`
unfoldable pub schema_ids : Storage → List ℕ
unfolding sort_ids
schema_ids s = sort_ids (map (λ e. e.schema_id) s.raw_specs)

entry_of : ℕ → List SpecificationEntryV2 → Option SpecificationEntryV2
entry_of id [] = none
entry_of id (e ∷ es) = let rest = entry_of id es in if e.schema_id == id then some e else rest

-- `SpecificationRaw`
unfoldable pub specification_raw : Storage → ℕ → Option SpecificationEntryV2
unfolding entry_of
specification_raw s id = entry_of id s.raw_specs

version_or_empty : Option SpecificationEntryV2 → Str
version_or_empty none = []
version_or_empty (some e) = e.schema_version

-- `SpecificationVersion`
unfoldable pub specification_version : Storage → ℕ → Str
unfolding specification_raw version_or_empty
specification_version s id = version_or_empty (specification_raw s id)

-- `IsLoaded`
unfoldable pub is_loaded : Storage → ℕ → Bool
is_loaded s id = exists (λ i. i == id) s.open_api_spec

-- A schema of the new storage is new or of another version.
entry_changed : Storage → ℕ → Option SpecificationEntryV2 → Bool
entry_changed s id none = false
entry_changed s id (some e) =
    str_eq e.status (bytes "new") || not (str_eq e.schema_version (specification_version s id))

-- `ShouldUpdate`
unfoldable pub should_update : Storage → Storage → Bool
unfolding entry_changed
should_update s new =
    let new_ids = schema_ids new in
    let ids = schema_ids s in
    if not (length ids == length new_ids)
    then true
    else if exists (λ id. not (exists (λ i. i == id) ids)) new_ids
    then true
    else exists (λ id. entry_changed s id (specification_raw new id)) new_ids

apply_entry : SpecificationEntryV2 → SpecificationEntryV2
apply_entry e = if str_eq e.status (bytes "new") then record e { status = bytes "applied" } else e

-- `AfterLoad`; `executes` tells whether the database file is there and can be opened and updated.
-- With nothing new the update is not made. The result tells whether there is an error.
unfoldable pub after_load : Bool → Bool → Storage → Storage × Bool
unfolding apply_entry
after_load opens executes s =
    if not opens
    then (s, true)
    else if not (exists (λ e. str_eq e.status (bytes "new")) s.raw_specs)
    then (s, false)
    else if executes
    then (record s { raw_specs = map apply_entry s.raw_specs }, false)
    else (s, true)

abbrev pub empty_storage : Storage
empty_storage = record { is_ready = true; raw_specs = []; open_api_spec = [] }

settle_new : Bool → Storage × Bool → Storage × Bool → Storage × Bool
settle_new executed (s, failed) (s', failed') =
    if executed
    then (record s' { is_ready = s.is_ready && not failed' }, failed || failed')
    else (s, failed)

-- `NewOpenAPIDBV2`, with `AfterLoad` or without it.
unfoldable pub new_open_api_db_v2 :
    (SpecificationEntryV2 → Bool)
    → Option (List SpecificationEntryV2)
    → Bool
    → Bool
    → Bool
    → Storage × Bool
unfolding load after_load settle_new
new_open_api_db_v2 parses rows opens executes exec_after_load =
    let (s, ready, failed) = load parses rows empty_storage in
    let ready_s = record s { is_ready = ready } in
    settle_new exec_after_load (ready_s, failed) (after_load opens executes ready_s)

pub data UpdateError : Type 0 where
  loading_failed : UpdateError
  lower_version : UpdateError
  handlers_init : UpdateError
  after_load_failed : UpdateError

-- The parts of `APIFWModeAPI` that an update changes; `routers` has the router of each schema.
pub record Firewall (Mux : Type 0) : Type 0 where
  pub specs_storage : Storage
  pub routers : List (ℕ × Mux)
  pub version : ℕ

-- What a new load gives: a storage with its version, or an error.
pub data Loaded : Type 0 where
  loaded : Storage → ℕ → Loaded
  not_loaded : Loaded

-- `make_router` makes the router of a schema, with its version and its specification, if it can.
module _ (Mux : Type 0) (make_router : ℕ → Str → Str → Option Mux) where
  content_or_empty : Option SpecificationEntryV2 → Str
  content_or_empty none = []
  content_or_empty (some e) = e.schema_content

  router_of : Storage → ℕ → Option Mux
  unfolding specification_version specification_raw content_or_empty
  router_of s id =
      make_router id (specification_version s id) (content_or_empty (specification_raw s id))

  add_router : ℕ → Option Mux → Option (List (ℕ × Mux)) → Option (List (ℕ × Mux))
  add_router id none rest = none
  add_router id (some m) none = none
  add_router id (some m) (some rest) = some ((id, m) ∷ rest)

  routers_of : Storage → List ℕ → Option (List (ℕ × Mux))
  unfolding router_of add_router
  routers_of s [] = some []
  routers_of s (id ∷ ids) = add_router id (router_of s id) (routers_of s ids)

  -- `getRouters`; the entries of the map in the order of the ids, or `none` for an error.
  unfoldable pub get_routers : Storage → Option (List (ℕ × Mux))
  unfolding routers_of
  get_routers s = routers_of s (schema_ids s)

-- What `UpdateSpecsStorage` returns, with the state it leaves.
abbrev pub Updated : Type 0 → Type 0
Updated Mux = Firewall Mux × List ℕ × Bool × Option UpdateError

module _ (Mux : Type 0) (make_router : ℕ → Str → Str → Option Mux) (opens executes : Bool) where
  settle_after_load : Firewall Mux → ℕ → Storage × Bool → Updated Mux
  settle_after_load f version (s, failed) =
      let f' = record f { specs_storage = s } in
      (f', schema_ids s, true, if failed then some after_load_failed else none)

  replace : Firewall Mux → Storage → ℕ → Option (List (ℕ × Mux)) → Updated Mux
  unfolding settle_after_load
  replace f new version none = (f, schema_ids f.specs_storage, false, some handlers_init)
  replace f new version (some rs) =
      settle_after_load (record f { specs_storage = new; routers = rs; version = version }) version
        (after_load opens executes new)

  -- `UpdateSpecsStorage`: the ids, whether there was an update, and the error.
  unfoldable pub update_specs_storage : Firewall Mux → Loaded → Updated Mux
  unfolding replace get_routers
  update_specs_storage f not_loaded = (f, schema_ids f.specs_storage, false, some loading_failed)
  update_specs_storage f (loaded new version) =
      if ltb version f.version
      then (f, schema_ids f.specs_storage, false, some lower_version)
      else if should_update f.specs_storage new
      then replace f new version (get_routers Mux make_router new)
      else (f, schema_ids f.specs_storage, false, none)

  loaded_v2 : Storage × Bool → Loaded
  loaded_v2 (s, failed) = if failed then not_loaded else loaded s 2

  -- `UpdateSpecsStorage` with version 2 of the database, which it loads by `NewOpenAPIDB` and so
  -- with `AfterLoad`.
  unfoldable pub update_from_db :
      (SpecificationEntryV2 → Bool)
      → Option (List SpecificationEntryV2)
      → Firewall Mux
      → Updated Mux
  unfolding new_open_api_db_v2 update_specs_storage loaded_v2
  update_from_db parses rows f =
      update_specs_storage f (loaded_v2 (new_open_api_db_v2 parses rows opens executes true))
