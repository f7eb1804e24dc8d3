-- ===== src/Tests/Refusals.antt =====
-- Examples of the validation of API mode.
use api_firewall.Base.{
  arith, ◌≡◌, refl, ◌↔◌, true, false, none, some, [], ◌∷◌, bytes, str_eq, has_prefix,
}
use api_firewall.ApiMode.{ValidationError, api_mode_handler, process_request}
use api_firewall.ApiMode.Answers.{status_of}
use api_firewall.Validator.Unknown.{decoding_failed}
use api_firewall.Validator.Refusals.{
  property, SchemaError, multi_error, RequestError, request_error,
}
use api_firewall.Validator.ParameterErrors.{is_required}
use api_firewall.Validator.ApiErrors.{report, get_error_response}
use api_firewall.Validator.ApiErrors.Reporting.{Reports, get_error_response-Reports}
use api_firewall.Validator.ApiErrors.Sharing.{get_error_response-shared}
use api_firewall.Validator.ApiRequests.{refused, detected, api_mode_validate_request}
use api_firewall.Validator.ApiRequests.Deciding.{IsClear, process_request-Clear}
use api_firewall.Tests.Modes.{config}

-- A body with an object that lacks a field.
abbrev lacking : SchemaError
lacking = record {
  schema_field = bytes "required";
  json_pointer = bytes "user" ∷ bytes "name" ∷ [];
  message = bytes "property is missing";
  value_text = [];
  types = [];
  pattern = [];
  max_text = [];
  min_text = [];
  properties = λ f. property (bytes "string" ∷ []);
}

abbrev body_error : RequestError
body_error = record {
  parameter = none;
  request_body = some true;
  cause = multi_error (some lacking ∷ []);
  message = bytes "request body has an error";
  is_missing = false;
  is_required_text = false;
}

get_error_response-Reports_example :
    Reports (request_error body_error) (get_error_response (request_error body_error))
get_error_response-Reports_example = get_error_response-Reports (request_error body_error)

get_error_response-shared_example :
    (v : ValidationError) × (get_error_response (request_error body_error) ≡ report (v ∷ v ∷ []))
    × (v.fields ≡ bytes "name" ∷ [])
unfolding is_required has_prefix str_eq
get_error_response-shared_example =
    get_error_response-shared body_error lacking (bytes "user" ∷ []) (bytes "name") refl refl refl
      refl refl refl refl ((λ q. ground arith), ((λ q. ground arith), tt))

process_request-Clear_example :
    (status_of config (
        process_request config 1 (
          some (
            some (
              api_mode_handler 1 true (bytes "1.0") (
                api_mode_validate_request
                  (λ e. true)
                  true
                  true
                  true
                  (refused (request_error body_error))
                  (detected [] (some decoding_failed)))))))
      ≡ 200 ∷ [])
    ↔ ((true ≡ true)
        × IsClear
            (λ e. true)
            true
            true
            true
            (refused (request_error body_error))
            (detected [] (some decoding_failed)))
process_request-Clear_example =
    process_request-Clear (λ e. true) config 1 true (bytes "1.0") true true true
      (refused (request_error body_error)) (detected [] (some decoding_failed))
