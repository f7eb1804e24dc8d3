-- ===== src/Tests/Modes.antt =====
-- Examples of pkg/APIMode.
use api_firewall.Base.{
  ℕ, zero, suc, ◌<◌, ◌≤◌, ◌≡◌, ◌≢◌, refl, ◌↔◌, ◌⊎◌, true, false, Option, none, some, List, [], ◌∷◌,
  map, Str, bytes, str_eq, length, All, arith,
}
use api_firewall.ApiMode.{
  ValidationError, validated, api_mode_handler, RequestConfig, SchemaHandler,
  method_and_path_not_found, process_request, sample_slice, validate_request,
}
use api_firewall.Storage.{
  SpecificationEntryV2, Storage, new_open_api_db_v2, get_routers, specification_raw, schema_ids,
  specification_version, Firewall, loaded, update_specs_storage, update_from_db,
}
use api_firewall.Storage.Applying.{update_specs_storage-applied}
use api_firewall.Storage.Updating.{IsOutcome, update_specs_storage-IsOutcome}
use api_firewall.ApiMode.Answers.{
  IsFailed, IsFine, status_of, validate_request-ids, process_request_iff,
}
use api_firewall.ApiMode.Sampling.{IsIn, sample_slice-limit}

abbrev pub config : RequestConfig
config = record {
  pass_options_requests = false;
  max_errors_in_response = 0;
  method = bytes "GET";
  perm = [];
}

abbrev failure : ValidationError
failure = record method_and_path_not_found { message = bytes "bad" }

-- Schema 1 has the route, and any other none.
abbrev routers : ℕ → Option (Option SchemaHandler)
routers (suc zero) = some (some (api_mode_handler 1 true (bytes "1.0") (validated (failure ∷ []))))
routers _ = none

validate_request-ids_example :
    (map (λ s. s.schema_id) (validate_request config routers (2 ∷ 1 ∷ [])).0.summary ≡ 2 ∷ 1 ∷ [])
    × (((validate_request config routers (2 ∷ 1 ∷ [])).1 ≡ none)
        ↔ All (IsFine config routers) (2 ∷ 1 ∷ []))
validate_request-ids_example = validate_request-ids config routers (2 ∷ 1 ∷ [])

process_request_iff_example :
    let r =
      process_request config 1
        (some (some (api_mode_handler 1 true (bytes "1.0") (validated [])))) in
    ((status_of config r ≡ 200 ∷ []) ↔ ((true ≡ true) × (validated [] ≡ validated [])))
    × ((status_of config r ≡ 403 ∷ []) ↔ (
        (true ≡ false)
        ⊎ ((e : ValidationError) × (es : List ValidationError) × (validated []
              ≡ validated (e ∷ es)))))
    × ((status_of config r ≡ 500 ∷ []) ↔ ((true ≡ true) × IsFailed config (validated [])))
    × ((r.1 ≢ none) ↔ ((true ≡ true) × IsFailed config (validated [])))
process_request_iff_example = process_request_iff config 1 true (bytes "1.0") (validated [])

abbrev failures : List ValidationError
failures = failure ∷ failure ∷ failure ∷ []

abbrev two : ℕ
two = 2

sample_slice-limit_example :
    (((3 ≤ 2) ⊎ (two ≡ 0)) × (sample_slice failures two (2 ∷ 0 ∷ 1 ∷ []) ≡ failures))
    ⊎ ((two < 3)
        × (length (sample_slice failures two (2 ∷ 0 ∷ 1 ∷ [])) ≡ two)
        × All (IsIn failures) (sample_slice failures two (2 ∷ 0 ∷ 1 ∷ [])))
sample_slice-limit_example =
    sample_slice-limit failures two (2 ∷ 0 ∷ 1 ∷ []) (omega arith, (omega arith, (omega arith, tt)))
      refl

abbrev entry : SpecificationEntryV2
entry = record {
  schema_id = 1;
  schema_version = bytes "1.0";
  schema_format = bytes "yaml";
  schema_content = bytes "old";
  status = bytes "applied";
}

abbrev new_entry : SpecificationEntryV2
new_entry = record entry { schema_content = bytes "new content"; status = bytes "new" }

abbrev stored : SpecificationEntryV2 → Storage
stored e = record { is_ready = true; raw_specs = e ∷ []; open_api_spec = 1 ∷ [] }

-- A router is its specification.
abbrev make_router : ℕ → Str → Str → Option Str
make_router id version content = some content

abbrev firewall : Firewall Str
firewall = record { specs_storage = stored entry; routers = (1, bytes "old") ∷ []; version = 2 }

update_specs_storage-applied_example :
    update_from_db Str make_router true true (λ e. true) (some (new_entry ∷ [])) firewall
    ≡ (firewall, schema_ids (stored entry), false, none)
unfolding new_open_api_db_v2 str_eq schema_ids specification_version
update_specs_storage-applied_example =
    update_specs_storage-applied Str make_router (λ e. true) (some (new_entry ∷ [])) firewall
      (stored (record new_entry { status = bytes "applied" })) refl refl refl (refl, tt)

update_specs_storage-IsOutcome_example :
    IsOutcome Str make_router true true firewall
      (loaded (stored new_entry) 2)
      (update_specs_storage Str make_router true true firewall (loaded (stored new_entry) 2))
unfolding get_routers schema_ids specification_version specification_raw
update_specs_storage-IsOutcome_example =
    update_specs_storage-IsOutcome Str make_router true true firewall (loaded (stored new_entry) 2)
      refl
