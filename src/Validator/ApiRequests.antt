-- ===== src/Validator/ApiRequests.antt =====
-- internal/platform/validator/api_mode_validate_request.go: the validation of a request in API mode.
-- The two validators run at the same time and write to variables of their own, so their order does
-- not matter; a panic of one is recovered and leaves its variables as they were at the start. What
-- the validators end with are arguments, and metrics are left out.
pub mod Deciding
use api_firewall.Base.{
  Bool, true, false, ◌&&◌, ◌||◌, not, Option, none, some, is_some, List, [], ◌∷◌, ◌++◌, map, Str,
  bytes, str_eq, if◌then◌else◌,
}
use api_firewall.ApiMode.{ValidationError, Validation, validated, not_validated}
use api_firewall.Validator.Security.{Scheme, Credentials, lacks_prefix}
use api_firewall.Validator.Unknown.{UnknownParameters, UnknownError}
use api_firewall.Validator.Refusals.{
  RequestRefusal, SecurityFailure, missing_parameter, empty_error,
}
use api_firewall.Validator.ApiErrors.{
  Report, report, not_supported, report_panic, get_error_response,
}

-- The messages of `SecurityRequirementsParameterIsMissingError`.
missing_authorization : Str → Option SecurityFailure
missing_authorization kind = some (
    missing_parameter (bytes "Authorization")
      ((bytes "missing Authorization header: " ++ kind) ++ bytes " authentication is required"))

missing_key : Str → Str → Option SecurityFailure
missing_key name kind = some (
    missing_parameter name
      (((bytes "missing API keys for authorization: missing " ++ name) ++ bytes " ") ++ kind))

check_api_http : Str → Credentials → Option SecurityFailure
unfolding missing_authorization
check_api_http scheme c =
    let header = c.header (bytes "Authorization") in
    if str_eq scheme (bytes "basic")
    then (if lacks_prefix header (bytes "basic ")
        then missing_authorization (bytes "basic")
        else none)
    else if str_eq scheme (bytes "bearer")
    then (if lacks_prefix header (bytes "bearer ")
        then missing_authorization (bytes "bearer")
        else none)
    else none

check_api_key : Str → Str → Credentials → Option SecurityFailure
unfolding missing_key
check_api_key place name c =
    if str_eq place (bytes "header")
    then (if str_eq (c.header name) [] then missing_key name (bytes "header") else none)
    else if str_eq place (bytes "query")
    then (if str_eq (c.query name) [] then missing_key name (bytes "query parameter") else none)
    else if str_eq place (bytes "cookie")
    then (if is_some (c.cookie name) then none else missing_key name (bytes "cookie"))
    else none

-- The `AuthenticationFunc` of API mode.
unfoldable pub api_mode_authenticate : Credentials → Scheme → Option SecurityFailure
unfolding check_api_http check_api_key
api_mode_authenticate c s =
    if str_eq s.type_of (bytes "http")
    then check_api_http s.scheme c
    else if str_eq s.type_of (bytes "apiKey")
    then check_api_key s.place s.name c
    else none

-- How `ValidateRequest` ends: with nil, one error, several errors, or a panic.
pub data RequestEnding : Type 0 where
  accepted : RequestEnding
  refused : RequestRefusal → RequestEnding
  refused_all : List RequestRefusal → RequestEnding
  request_panic : RequestEnding

-- How `ValidateUnknownRequestParameters` ends.
pub data UnknownEnding : Type 0 where
  detected : List UnknownParameters → Option UnknownError → UnknownEnding
  unknown_panic : UnknownEnding

-- The errors so far, or the error that is returned.
pub data Collected : Type 0 where
  collected : List ValidationError → Collected
  broken : Str → Collected

abbrev pub unsupported_text : Str
unsupported_text = bytes "request body decode error: unsupported content type"

-- A panic is recovered and its error returned.
add_response : Report → Collected → Collected
add_response not_supported rest = broken unsupported_text
add_response (report_panic e) rest = broken e
add_response (report es) (collected fs) = collected (es ++ fs)
add_response (report es) (broken e) = broken e

collect_all : List RequestRefusal → Collected
unfolding add_response
collect_all [] = collected []
collect_all (e ∷ es) = add_response (get_error_response e) (collect_all es)

-- The errors of `ValidateRequest`; a panic leaves none.
request_errors : RequestEnding → Collected
unfolding collect_all add_response
request_errors accepted = collected []
request_errors (refused e) = add_response (get_error_response e) (collected [])
request_errors (refused_all es) = collect_all es
request_errors request_panic = collected []

unknown_parameter : Str → Str → ValidationError
unknown_parameter message name = record empty_error {
  message = message;
  code = bytes "unknown_parameter_found";
  fields = name ∷ [];
}

unknown_parameter_errors : List UnknownParameters → List ValidationError
unfolding unknown_parameter
unknown_parameter_errors [] = []
unknown_parameter_errors (r ∷ rs) =
    map (λ p. unknown_parameter r.message p.name) r.parameters ++ unknown_parameter_errors rs

-- With an error that is none of parsing the request is not validated.
unknown_errors : (UnknownError → Bool) → UnknownEnding → Collected
unfolding unknown_parameter_errors
unknown_errors is_parse_error unknown_panic = collected []
unknown_errors is_parse_error (detected results none) = collected (unknown_parameter_errors results)
unknown_errors is_parse_error (detected results (some e)) =
    if is_parse_error e
    then collected (unknown_parameter_errors results)
    else broken (bytes "unknown parameter detection error")

settle_collected : Collected → Collected → Validation
settle_collected (broken e) unknown = not_validated e
settle_collected (collected es) (broken e) = not_validated e
settle_collected (collected es) (collected fs) = validated (es ++ fs)

-- `APIModeValidateRequest`; `converts` and `decodes` tell whether the request can be converted and its
-- body decompressed. An error's text is that it is wrapped with.
unfoldable pub api_mode_validate_request :
    (UnknownError → Bool) → Bool → Bool → Bool → RequestEnding → UnknownEnding → Validation
unfolding settle_collected request_errors unknown_errors
api_mode_validate_request is_parse_error converts decodes unknown_detection request unknown =
    if not converts
    then not_validated (bytes "request context error")
    else if not decodes
    then not_validated (bytes "request body decompression error")
    else if unknown_detection
    then settle_collected (request_errors request) (unknown_errors is_parse_error unknown)
    else settle_collected (request_errors request) (collected [])
