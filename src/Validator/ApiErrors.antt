-- ===== src/Validator/ApiErrors.antt =====
-- internal/platform/validator/api_mode_errors.go: the errors of a validator as those that API mode
-- answers with.
pub mod Reporting
pub mod Sharing
use api_firewall.Base.{
  ℕ, Bool, true, false, ◌&&◌, ◌||◌, not, Option, none, some, List, [], ◌∷◌, ◌++◌, map, Str, bytes,
  str_eq, has_prefix, has_suffix, length, replicate, if◌then◌else◌,
}
use api_firewall.ApiMode.{FieldTypeError, ValidationError}
use api_firewall.Validator.Refusals.{
  no_property, property, referenced, ParseError, SchemaError, Cause, ErrorParameter, RequestError,
  SecurityFailure, RequestRefusal, empty_error, type_details, parse_error, schema_error,
  multi_error, other_cause, missing_parameter, other_failure, request_error, security_error,
  other_error,
}
use api_firewall.Validator.ParameterErrors.{value_details, is_required, parameter_errors}

-- The lookup's result is asserted to be a schema: for a `$ref` that is a panic, which is `none`.
property_details : SchemaError → Str → Option (List FieldTypeError)
unfolding type_details
property_details e field = elim (e.properties field) [
  | no_property ↦ some []
  | property types ↦ some (type_details field types)
  | referenced ↦ none
]

missing_body_code : Str
missing_body_code = bytes "required_body_parameter_missed"

-- A missing field of the body, with the details so far.
pub missing_field : SchemaError → List FieldTypeError → Str → Option ValidationError
unfolding missing_body_code property_details
missing_field e details field = elim (property_details e field) [
  | none ↦ none
  | some more ↦ some (record empty_error {
    code = missing_body_code;
    fields = field ∷ [];
    message = e.message;
    fields_details = details ++ more;
  })
]

-- In a MultiError, one record for all fields of a schema error: the loop overwrites its field, adds
-- to its details, and appends a pointer to it for each field. `last` is the record at the end.
pub last_missing : SchemaError → ValidationError → List Str → Option ValidationError
unfolding missing_field
last_missing e last [] = some last
last_missing e last (field ∷ fields) = elim (missing_field e last.fields_details field) [
  | none ↦ none
  | some next ↦ last_missing e next fields
]

shared_missing : SchemaError → Option (List ValidationError)
unfolding last_missing
shared_missing e = elim (last_missing e empty_error e.json_pointer) [
  | none ↦ none
  | some last ↦ some (replicate (length e.json_pointer) last)
]

join : Option (List ValidationError) → Option (List ValidationError) → Option (List ValidationError)
join none rest = none
join (some errors) none = none
join (some errors) (some rest) = some (errors ++ rest)

body_value_details : Cause → Str → SchemaError → List FieldTypeError
unfolding value_details
body_value_details (parse_error q) field e =
    record {
      name = field;
      expected_type = q.expected_type;
      pattern = [];
      current_value = q.value_str;
    }
    ∷ []
body_value_details (schema_error q) field e = value_details field e
body_value_details (multi_error es) field e = value_details field e
body_value_details other_cause field e = value_details field e

invalid_fields : Cause → SchemaError → List ValidationError
unfolding body_value_details
invalid_fields cause e =
    map
      (λ field. record empty_error {
        code = bytes "required_body_parameter_invalid_value";
        message = e.message;
        fields = field ∷ [];
        fields_details = body_value_details cause field e;
      })
      e.json_pointer

-- One of the schema errors of a MultiError.
one_of_many : Cause → SchemaError → Option (List ValidationError)
unfolding is_required shared_missing invalid_fields
one_of_many cause e = if is_required e then shared_missing e else some (invalid_fields cause e)

one : Option ValidationError → Option (List ValidationError)
one none = none
one (some error) = some (error ∷ [])

missing_fields : SchemaError → List Str → Option (List ValidationError)
unfolding one missing_field join
missing_fields e [] = some []
missing_fields e (field ∷ fields) = join (one (missing_field e [] field)) (missing_fields e fields)

-- A schema error by itself.
single : Cause → SchemaError → Option (List ValidationError)
unfolding is_required missing_fields invalid_fields
single cause e =
    if is_required e then missing_fields e e.json_pointer else some (invalid_fields cause e)

many_errors : Cause → List (Option SchemaError) → Option (List ValidationError)
unfolding join one_of_many
many_errors cause [] = some []
many_errors cause (none ∷ es) = many_errors cause es
many_errors cause (some e ∷ es) = join (one_of_many cause e) (many_errors cause es)

-- The errors of the body's schema; `none` is a panic.
body_errors : Cause → Option (List ValidationError)
unfolding many_errors single
body_errors (multi_error es) = many_errors (multi_error es) es
body_errors (schema_error e) = single (schema_error e) e
body_errors (parse_error e) = some []
body_errors other_cause = some []

is_parse_error : Cause → Bool
is_parse_error (parse_error e) = true
is_parse_error (schema_error e) = false
is_parse_error (multi_error es) = false
is_parse_error other_cause = false

abbrev pub unsupported_prefix : Str
unsupported_prefix =
    bytes "request body has an error: failed to decode request body: unsupported content type"

abbrev pub content_type_prefix : Str
content_type_prefix = bytes "request body has an error: header Content-Type has unexpected value"

missing_body : RequestError → Bool → List ValidationError
missing_body r required =
    if required && r.is_required_text
    then record empty_error {
      code = bytes "required_body_missed";
      message = bytes "required body is missing";
    }
      ∷ []
    else []

unparsed_body : RequestError → List ValidationError
unfolding is_parse_error
unparsed_body r =
    if is_parse_error r.cause || has_prefix r.message content_type_prefix
    then record empty_error { code = bytes "required_body_parse_error"; message = r.message } ∷ []
    else []

-- How `GetErrorResponse` ends: with errors, with the error it was given, for a body whose content
-- type is not supported, or with a panic.
pub data Report : Type 0 where
  report : List ValidationError → Report
  not_supported : Report
  report_panic : Str → Report

-- What is added for the body.
settle_request_body : RequestError → List ValidationError → Option Bool → Report
unfolding missing_body unparsed_body
settle_request_body r errors none = report errors
settle_request_body r errors (some required) =
    if has_prefix r.message unsupported_prefix
    then not_supported
    else report ((errors ++ missing_body r required) ++ unparsed_body r)

settle_body_errors : RequestError → Option (List ValidationError) → Report
unfolding settle_request_body
settle_body_errors r none =
    report_panic (bytes "interface conversion: interface {} is *openapi3.Ref, not *openapi3.Schema")
settle_body_errors r (some errors) = settle_request_body r errors r.request_body

unknown_error : Str → ValidationError
unknown_error text = record empty_error { code = bytes "unknown_validation_error"; message = text }

or_unknown : Str → Report → Report
unfolding unknown_error
or_unknown text (report []) = report (unknown_error text ∷ [])
or_unknown text (report (e ∷ es)) = report (e ∷ es)
or_unknown text not_supported = not_supported
or_unknown text (report_panic e) = report_panic e

settle_parameter : RequestError → Option (List ValidationError) → Report
unfolding settle_body_errors body_errors
settle_parameter r none =
    report_panic (bytes "runtime error: invalid memory address or nil pointer dereference")
settle_parameter r (some (e ∷ es)) = report (e ∷ es)
settle_parameter r (some []) = settle_body_errors r (body_errors r.cause)

security_failed : SecurityFailure → ValidationError
security_failed (missing_parameter field message) = record empty_error {
  code = bytes "required_security_requirements_failed";
  message = message;
  fields = field ∷ [];
}
security_failed (other_failure text) = record empty_error {
  code = bytes "required_security_requirements_failed";
  message = text;
}

-- `GetErrorResponse`
unfoldable pub get_error_response : RequestRefusal → Report
unfolding settle_parameter parameter_errors or_unknown security_failed
get_error_response (request_error r) =
    or_unknown r.message (settle_parameter r (parameter_errors r r.parameter))
get_error_response (security_error text es) = or_unknown text (report (map security_failed es))
get_error_response (other_error text) = or_unknown text (report [])
