-- ===== src/ApiMode.antt =====
-- pkg/APIMode: the validation of a request against several specifications at once. A request to one
-- schema has a context of its own, of which the model has the two user values that the handler
-- leaves; metrics are left out. The goroutines append their results under a mutex, one whole result
-- at a time, so what they leave depends on the order in which they finish, which is an argument.
pub mod Answers
pub mod Sampling
use api_firewall.Base.{
  ℕ, ◌+◌, ◌<◌, ◌≤◌, Bool, true, false, ◌&&◌, ◌||◌, not, Option, none, some, List, [], ◌∷◌, ◌++◌,
  map, Str, bytes, str_eq, length, get_elem?, take, leb, ◌==◌, if◌then◌else◌,
}

pub record FieldTypeError : Type 0 where
  pub name : Str
  pub expected_type : Str
  pub pattern : Str
  pub current_value : Str

pub record ValidationError : Type 0 where
  pub message : Str
  pub code : Str
  pub schema_version : Str
  pub schema_id : Option ℕ
  pub fields : List Str
  pub fields_details : List FieldTypeError

pub record Summary : Type 0 where
  pub schema_id : ℕ
  pub status_code : ℕ

pub record ValidationResponse : Type 0 where
  pub summary : List Summary
  pub errors : List ValidationError

pub data ProcessError : Type 0 where
  schema_not_found : ProcessError
  request_parsing : Str → ProcessError
  panicked : Str → ProcessError
  both : ProcessError → ProcessError → ProcessError

-- The user values for a schema: the status code and the validation errors.
pub record Values : Type 0 where
  pub status : Option ℕ
  pub errors : Option (List ValidationError)

-- How a handler ends: an error or nil, or a panic with an error or with any other value.
pub data Ending : Type 0 where
  ended : Option Str → Ending
  panic_error : Str → Ending
  panic_value : Str → Ending

-- What `APIModeValidateRequest` ends with.
pub data Validation : Type 0 where
  validated : List ValidationError → Validation
  not_validated : Str → Validation
  validation_panic : Str → Validation

abbrev pub method_and_path_not_found : ValidationError
method_and_path_not_found = record {
  message = bytes "method and path are not found";
  code = bytes "method_and_path_not_found";
  schema_version = [];
  schema_id = none;
  fields = [];
  fields_details = [];
}

module _ (schema_id : ℕ) where
  unfoldable pub with_id : Str → ValidationError → ValidationError
  with_id version e = record e { schema_id = some schema_id; schema_version = version }

  settle_validation : Str → Values → Validation → Values × Ending
  unfolding with_id
  settle_validation version v (validation_panic e) = (v, ended (some e))
  settle_validation version v (not_validated e) = (v, ended (some e))
  settle_validation version v (validated []) = (record v { status = some 200 }, ended none)
  settle_validation version v (validated (e ∷ es)) =
      (record v { status = some 403; errors = some (map (with_id version) (e ∷ es)) }, ended none)

  -- `APIModeHandler`; a panic is turned into an error.
  unfoldable pub api_mode_handler : Bool → Str → Validation → Values → Values × Ending
  unfolding settle_validation
  api_mode_handler has_route version validation v =
      if has_route then settle_validation version v validation else (
        record {
          status = some 403;
          errors = some (record method_and_path_not_found { schema_id = some schema_id } ∷ []);
        },
        ended none,
      )

  summary_of : ℕ → List Summary
  summary_of code = record { schema_id = schema_id; status_code = code } ∷ []

  -- A response with the status code 500, and the error.
  failure : ProcessError → ValidationResponse × Option ProcessError
  unfolding summary_of
  failure e = (record { summary = summary_of 500; errors = [] }, some e)

-- The elements at some indices, for those that are in range.
pick : List ValidationError → List ℕ → List ValidationError
pick xs [] = []
pick xs (i ∷ is) = elim (get_elem? xs i) [ none ↦ pick xs is | some x ↦ x ∷ pick xs is ]

-- `SampleSlice`, with the permutation of the indices that is drawn; the limit is not negative.
unfoldable pub sample_slice : List ValidationError → ℕ → List ℕ → List ValidationError
unfolding pick
sample_slice xs limit perm =
    if leb (length xs) limit || limit == 0 then xs else pick xs (take limit perm)

-- What a request to a schema needs: the permutation that the sampling draws is among it.
pub record RequestConfig : Type 0 where
  pub pass_options_requests : Bool
  pub max_errors_in_response : ℕ
  pub method : Str
  pub perm : List ℕ

abbrev pub SchemaHandler : Type 0
SchemaHandler = Values → Values × Ending

module _ (cfg : RequestConfig) (schema_id : ℕ) where
  or_none : Option (List ValidationError) → List ValidationError
  or_none none = []
  or_none (some es) = es

  settle_status : Values → Option ℕ → ValidationResponse × Option ProcessError
  unfolding failure summary_of or_none sample_slice
  settle_status v none = failure schema_id (request_parsing (bytes "unknown error"))
  settle_status v (some code) = (
    record {
      summary = summary_of schema_id code;
      errors = sample_slice (or_none v.errors) cfg.max_errors_in_response cfg.perm;
    },
    none,
  )

  settle_handler : Values × Ending → ValidationResponse × Option ProcessError
  unfolding settle_status failure
  settle_handler (v, ended none) = settle_status v v.status
  settle_handler (v, ended (some e)) = failure schema_id (request_parsing e)
  settle_handler (v, panic_error e) = failure schema_id (panicked e)
  settle_handler (v, panic_value e) = failure schema_id (request_parsing e)

  not_routed : ValidationResponse × Option ProcessError
  unfolding summary_of
  not_routed =
      if cfg.pass_options_requests && str_eq cfg.method (bytes "OPTIONS")
      then (record { summary = summary_of schema_id 200; errors = [] }, none)
      else (
        record {
          summary = summary_of schema_id 403;
          errors = record method_and_path_not_found { schema_id = some schema_id } ∷ [];
        },
        none,
      )

  settle_found : Option SchemaHandler → ValidationResponse × Option ProcessError
  unfolding not_routed settle_handler
  settle_found none = not_routed
  settle_found (some handler) = settle_handler (handler (record { status = none; errors = none }))

  -- `ProcessRequest`; `found` is the schema's router, if there is one, with the handler that it
  -- finds, if any.
  unfoldable pub process_request :
      Option (Option SchemaHandler) → ValidationResponse × Option ProcessError
  unfolding settle_found failure
  process_request none = failure schema_id schema_not_found
  process_request (some handler) = settle_found handler

module _ (cfg : RequestConfig) (routers : ℕ → Option (Option SchemaHandler)) where
  join_errors : Option ProcessError → Option ProcessError → Option ProcessError
  join_errors e none = e
  join_errors none (some f) = some f
  join_errors (some e) (some f) = some (both e f)

  -- One goroutine's result joins those that are there.
  append_result :
      ValidationResponse × Option ProcessError
      → ValidationResponse × Option ProcessError
      → ValidationResponse × Option ProcessError
  unfolding join_errors
  append_result (resp, e) (r, f) = (
    record { summary = resp.summary ++ r.summary; errors = resp.errors ++ r.errors },
    join_errors e f,
  )

  finish :
      ValidationResponse × Option ProcessError → List ℕ → ValidationResponse × Option ProcessError
  unfolding append_result process_request
  finish result [] = result
  finish result (id ∷ ids) = finish (append_result result (process_request cfg id (routers id))) ids

  -- `ValidateRequest`, for schemas in the order in which their goroutines finish.
  unfoldable pub validate_request : List ℕ → ValidationResponse × Option ProcessError
  unfolding finish
  validate_request ids = finish (record { summary = []; errors = [] }, none) ids
