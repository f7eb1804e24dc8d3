-- ===== src/ApiServer.antt =====
-- cmd/api-firewall/internal/handlers/api: app.go and handler.go, the server of API mode. A request is
-- checked against each of the schemas that it names. The context has the user values that the
-- handlers leave; the middleware around a handler is a parameter, and so are the handler that each
-- schema's router finds and the permutation by which errors are sampled. Metrics, locks and the
-- change of a HEAD request's method before the response are left out.
pub mod Ids
pub mod Expected
pub mod Visiting
pub mod Answering
use api_firewall.Base.{
  ℕ, ◌+◌, Bool, true, false, ◌&&◌, Option, none, some, List, [], ◌∷◌, ◌++◌, map, Str, bytes, str_eq,
  ◌==◌, if◌then◌else◌,
}
use api_firewall.ApiMode.{
  ValidationError, Values, Ending, ended, panic_error, panic_value, Validation, validated,
  not_validated, validation_panic, method_and_path_not_found, with_id, sample_slice, RequestConfig,
}
use api_firewall.Storage.{Storage}
use Ids.{
  ℤ, pos, SchemaIds, identified, not_ready, header_missing, parsing_failed, get_wallarm_schema_id,
}

pub record Context : Type 0 where
  pub global_status : Option ℕ
  pub values : ℕ → Values  -- of each schema
  pub signals : ℕ  -- shutdown signals

pub record Summary : Type 0 where
  pub schema_id : ℤ
  pub status_code : ℕ

pub data Answer : Type 0 where
  unanswered : Answer  -- after a panic
  internal_error : Answer
  denied : ℕ → Answer  -- a status code without a body
  summarized : List Summary → List ValidationError → Answer

abbrev pub ServerHandler : Type 0
ServerHandler = Context → Context × Ending

unfoldable pub set_values : Context → ℕ → Values → Context
set_values c id v = record c { values = λ i. if i == id then v else c.values i }

unfoldable pub not_found_values : ℕ → Values
not_found_values id = record {
  status = some 403;
  errors = some (record method_and_path_not_found { schema_id = some id } ∷ []);
}

module _ (schema_id : ℕ) where
  -- A panic of the validation is recovered, and the handler returns nil.
  unfoldable pub settle_validation : Str → Validation → Context → Context × Ending
  unfolding with_id set_values
  settle_validation version (validation_panic e) c = (c, ended none)
  settle_validation version (not_validated e) c =
      (set_values c schema_id (record (c.values schema_id) { status = some 500 }), ended none)
  settle_validation version (validated []) c =
      (set_values c schema_id (record (c.values schema_id) { status = some 200 }), ended none)
  settle_validation version (validated (e ∷ es)) c = (
    set_values c schema_id
        (record { status = some 403; errors = some (map (with_id schema_id version) (e ∷ es)) }),
    ended none,
  )

  -- `RequestValidator.Handler`; the Boolean tells whether `CustomRoute` is not nil.
  unfoldable pub handler : Bool → Str → Validation → ServerHandler
  unfolding settle_validation not_found_values
  handler has_route version validation c =
      if has_route
      then settle_validation version validation c
      else (set_values c schema_id (not_found_values schema_id), ended none)

settle_error : Context × Ending → Context × Ending
settle_error (c, ended none) = (c, ended none)
settle_error (c, ended (some e)) = (record c { signals = c.signals + 1 }, ended (some e))
settle_error (c, panic_error e) = (c, panic_error e)
settle_error (c, panic_value e) = (c, panic_value e)

-- What `App.Handle` registers for a handler, with the middleware around it.
unfoldable pub handle : (ServerHandler → ServerHandler) → ServerHandler → ServerHandler
unfolding settle_error
handle middleware h c = settle_error (middleware h c)

-- The summary for a schema that is not loaded.
unfoldable pub missing : ℤ → Summary
missing id = record { schema_id = id; status_code = 500 }

module _ (cfg : RequestConfig) where
  unfoldable pub passes_options : Bool
  passes_options = cfg.pass_options_requests && str_eq cfg.method (bytes "OPTIONS")

  -- The second component tells whether the loop goes on; an error of a handler is only logged.
  logged : Context × Ending → Context × Bool
  logged (c, ended e) = (c, true)
  logged (c, panic_error e) = (c, false)
  logged (c, panic_value e) = (c, false)

  unfoldable pub visit : ℕ → Option ServerHandler → Context → Context × Bool
  unfolding passes_options set_values not_found_values logged
  visit id (some h) c = logged (h c)
  visit id none c =
      if passes_options
      then (set_values c id (record (c.values id) { status = some 200 }), true)
      else (set_values c id (not_found_values id), true)

  or_none : Option (List ValidationError) → List ValidationError
  or_none none = []
  or_none (some es) = es

  -- What is appended for a schema: its summary, and its errors.
  unfoldable pub report :
      ℕ → Option ℕ → Option (List ValidationError) → Summary × List ValidationError
  unfolding passes_options or_none
  report id (some code) errors = (record { schema_id = pos id; status_code = code }, or_none errors)
  report id none errors =
      if passes_options
      then (record { schema_id = pos id; status_code = 200 }, [])
      else (record { schema_id = pos id; status_code = 500 }, or_none errors)

  -- The loop that makes the response; it ends with the sampling of the errors.
  unfoldable pub summarize :
      Option ℕ → (ℕ → Values) → List ℤ → List ℕ → List Summary → List ValidationError → Answer
  unfolding report missing sample_slice
  summarize global values not_found [] summary errors =
      summarized (summary ++ map missing not_found)
        (sample_slice errors cfg.max_errors_in_response cfg.perm)
  summarize global values not_found (id ∷ ids) summary errors = elim global [
    | some code ↦ denied code
    | none ↦
        let (one, more) = report id (values id).status (values id).errors in
        summarize global values not_found ids (summary ++ one ∷ []) (errors ++ more)
  ]

  unfoldable pub settle_visits : List ℕ → List ℤ → Context × Bool → Answer
  unfolding summarize
  settle_visits found not_found (c, true) = summarize c.global_status c.values not_found found [] []
  settle_visits found not_found (c, false) = unanswered

  module _ (find : ℕ → Option ServerHandler) where
    -- The loop that validates the request against the schemas.
    unfoldable pub visits : List ℕ → Context → Context × Bool
    unfolding visit
    visits [] c = (c, true)
    visits (id ∷ ids) c =
        let (c', goes_on) = visit id (find id) c in
        let rest = visits ids c' in if goes_on then rest else (c', false)

    unfoldable pub settle_ids : Context → SchemaIds → Answer
    unfolding visits settle_visits
    settle_ids c (identified found not_found) = settle_visits found not_found (visits found c)
    settle_ids c not_ready = internal_error
    settle_ids c header_missing = internal_error
    settle_ids c parsing_failed = internal_error

    -- `APIModeMainHandler`, on a new context.
    unfoldable pub api_mode_main_handler : Storage → (List ℕ → List ℕ) → Str → Context → Answer
    unfolding settle_ids
    api_mode_main_handler s arrange header c = settle_ids c (get_wallarm_schema_id s arrange header)
