-- ===== src/Tests/Checks.antt =====
-- Examples of internal/platform/validator.
use api_firewall.Base.{
  index_byte, ◌≡◌, refl, ◌↔◌, ◌⊎◌, Bool, true, false, Option, none, some, List, [], ◌∷◌, Str, bytes,
  str_eq, All,
}
use api_firewall.Validator.Security.{
  Scheme, Credentials, Requirement, authenticate, validate_security_requirements, AnyPasses,
  validate_security_requirements_iff,
}
use api_firewall.Validator.MediaType.{parse_media_type}
use api_firewall.Validator.Unknown.{
  Json, object, array, no_more, and_then, field, no_fields, text, RequestBody, Decoded, decoded,
  Input, is_query_known, validate_unknown_request_parameters,
}
use api_firewall.Validator.Unknown.Finding.{IsClean, validate_unknown_request_parameters-json_iff}
use api_firewall.Validator.Requests.{
  Options, valid, Schema, Parameter, parsed, data_read, Library, Operation, validate_request,
}
use api_firewall.Validator.Requests.Accepting.{Accepted, validate_request-Accepted}
use api_firewall.Validator.Responses.{
  visited, body_visited, Response, Responses, ResponseOptions, ResponseInput, response_for,
  validate_response,
}
use api_firewall.Validator.Responses.Fitting.{Fits, validate_response_iff}

abbrev credentials : Credentials
credentials = record {
  header = λ k. bytes "Basic dXNlcjpwYXNz";
  query = λ k. [];
  cookie = λ k. none;
}

abbrev basic : Scheme
basic = record { type_of = bytes "http"; scheme = bytes "basic"; place = []; name = [] }

abbrev schemes : Str → Option Scheme
schemes name = some basic

abbrev requirements : List Requirement
requirements = ((bytes "user", []) ∷ []) ∷ []

validate_security_requirements_iff_example :
    (validate_security_requirements (some (authenticate none credentials)) schemes requirements
      ≡ none)
    ↔ ((requirements ≡ []) ⊎ AnyPasses (authenticate none credentials) schemes requirements)
validate_security_requirements_iff_example =
    validate_security_requirements_iff (authenticate none credentials) schemes requirements

abbrev is_number : Str → Bool
is_number s = str_eq s (bytes "1")

abbrev user : Json
user = array (and_then (object (field (bytes "name") (text (bytes "x")) no_fields)) no_more)

abbrev json_body : RequestBody
json_body = record { has_content = true; properties_of = λ m. some (bytes "name" ∷ []) }

abbrev input : Input
input = record {
  query_args = (bytes "id", bytes "1") ∷ [];
  post_args = [];
  body = bytes "[]";
  content_type = bytes "application/json";
}

abbrev read_user : Str → Decoded
read_user s = decoded (bytes "application/json") user

is_json : parse_media_type (bytes "application/json") ≡ (bytes "application/json", [])
unfolding parse_media_type str_eq index_byte
is_json = refl

validate_unknown_request_parameters-json_iff_example :
    (validate_unknown_request_parameters is_number is_number
        (bytes "idquery" ∷ [])
        (some json_body)
        read_user
        input
      ≡ ([], none))
    ↔ (All
          (λ arg. is_query_known is_number is_number (bytes "idquery" ∷ []) arg.0 ≡ true)
          input.query_args
        × IsClean (bytes "name" ∷ []) user 0)
validate_unknown_request_parameters-json_iff_example =
    validate_unknown_request_parameters-json_iff is_number is_number (bytes "name" ∷ []) json_body
      read_user input (bytes "application/json") user refl refl refl refl is_json
      (bytes "idquery" ∷ [])

abbrev digits : Schema Str Str
digits = record { default = none; all_of = []; is_empty = false; visit = λ multi v. none }

abbrev id_param : Parameter Str Str
id_param = record {
  name = bytes "id";
  place = bytes "query";
  required = true;
  allow_empty_value = false;
  explode = none;
  schema = some digits;
  has_content = false;
}

abbrev library : Library Str Str
library = record {
  decode_content = λ p r. parsed (some r) p.schema true;
  decode_styled = λ p r. parsed (some r) p.schema true;
  is_nil = λ v. false;
  nil_schema_is_empty = false;
  add_query = λ r k v e. v;
  add_header = λ r k v. r;
  add_cookie = λ r k v. r;
  read_body = λ r. data_read [];
  content_type = λ r. [];
}

abbrev options : Options
options = record {
  multi_error = false;
  exclude_request_query_params = false;
  exclude_request_body = false;
  skip_setting_defaults = false;
  exclude_read_only_validations = false;
}

abbrev get_user : Operation Str Str
get_user = record {
  path_item_parameters = id_param ∷ [];
  parameters = id_param ∷ [];
  request_body = none;
  security = λ r. none;
}

accepts : (validate_request Str Str library options get_user (bytes "4")).1 ≡ valid
unfolding validate_request str_eq
accepts = refl

validate_request-Accepted_example : Accepted Str Str library options get_user (bytes "4")
validate_request-Accepted_example =
    validate_request-Accepted Str Str library options get_user (bytes "4") accepts

abbrev typed : Response Str
typed = record {
  headers = (bytes "X-Id", record { required = true; read = λ multi i. visited true }) ∷ [];
  has_content = true;
  media_of = λ m. some (record { has_schema = true; visit = λ multi i. body_visited none });
}

abbrev responses : Responses Str
responses = record { any = true; of_status = λ s. some (some typed); default = none }

abbrev response_options : ResponseOptions Str
response_options = record {
  include_response_status = true;
  exclude_response_body = false;
  multi_error = false;
}

abbrev answer : ResponseInput Str
answer = record {
  method = bytes "GET";
  status = 200;
  content_type = bytes "application/json";
  response = bytes "{}";
}

not_head : str_eq (bytes "GET") (bytes "HEAD") ≡ false
unfolding str_eq
not_head = refl

validate_response_iff_example :
    (validate_response Str response_options answer responses ≡ none)
    ↔ Fits Str response_options answer (response_for Str response_options answer responses)
validate_response_iff_example =
    validate_response_iff Str response_options answer responses not_head refl
