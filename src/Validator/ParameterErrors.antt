-- ===== src/Validator/ParameterErrors.antt =====
-- internal/platform/validator/api_mode_errors.go: the errors for a parameter.
use api_firewall.Base.{
  Bool, Option, none, some, List, [], ◌∷◌, ◌++◌, map, Str, bytes, str_eq, has_suffix, if◌then◌else◌,
}
use api_firewall.ApiMode.{FieldTypeError, ValidationError}
use api_firewall.Validator.Refusals.{
  SchemaError, Cause, ErrorParameter, RequestError, empty_error, type_details, parse_error,
  schema_error, multi_error, other_cause,
}

missing_code : Str → Str
missing_code place =
    if str_eq place (bytes "query")
    then bytes "required_query_parameter_missed"
    else if str_eq place (bytes "cookie")
    then bytes "required_cookie_parameter_missed"
    else if str_eq place (bytes "path")
    then bytes "required_path_parameter_missed"
    else if str_eq place (bytes "header")
    then bytes "required_header_missed"
    else []

invalid_code : Str → Str
invalid_code place =
    if str_eq place (bytes "query")
    then bytes "required_query_parameter_invalid_value"
    else if str_eq place (bytes "cookie")
    then bytes "required_cookie_parameter_invalid_value"
    else if str_eq place (bytes "path")
    then bytes "required_path_parameter_invalid_value"
    else if str_eq place (bytes "header")
    then bytes "required_header_invalid_value"
    else []

-- `checkParseErr`
check_parse_err : ErrorParameter → Cause → List FieldTypeError
check_parse_err p (parse_error e) =
    record {
      name = p.name;
      expected_type = e.expected_type;
      pattern = [];
      current_value = e.value_str;
    }
    ∷ []
check_parse_err p (schema_error e) = []
check_parse_err p (multi_error es) = []
check_parse_err p other_cause = []

bound_text : SchemaError → Str
bound_text e =
    if str_eq e.schema_field (bytes "maximum")
    then bytes "<=" ++ e.max_text
    else if str_eq e.schema_field (bytes "minimum")
    then bytes ">=" ++ e.min_text
    else if str_eq e.schema_field (bytes "pattern")
    then e.pattern
    else []

unfoldable pub value_details : Str → SchemaError → List FieldTypeError
unfolding bound_text
value_details name e =
    map
      (λ t. record {
        name = name;
        expected_type = t;
        pattern = bound_text e;
        current_value = e.value_text;
      })
      e.types

unfoldable pub is_required : SchemaError → Bool
is_required e = str_eq e.schema_field (bytes "required")

settle_parse_err : ErrorParameter → SchemaError → List FieldTypeError → List ValidationError
unfolding invalid_code value_details
settle_parse_err p e [] =
    record empty_error {
      code = invalid_code p.place;
      fields = p.name ∷ [];
      message = e.message;
      fields_details = value_details p.name e;
    }
    ∷ []
settle_parse_err p e (d ∷ ds) = []

-- `checkRequiredFields`
check_required_fields : ErrorParameter → Cause → SchemaError → List ValidationError
unfolding is_required missing_code type_details settle_parse_err check_parse_err
check_required_fields p cause e =
    if is_required e
    then map
        (λ field. record empty_error {
          code = missing_code p.place;
          fields = field ∷ [];
          message = bytes "required parameters missed";
          fields_details = type_details p.name e.types;
        })
        e.json_pointer
    else settle_parse_err p e (check_parse_err p cause)

-- The types are read from the parameter's schema: with none, that is a panic, which is `none`.
unfoldable pub missing_part : RequestError → ErrorParameter → Option (List ValidationError)
unfolding missing_code type_details
missing_part r p =
    if r.is_missing
    then elim (p.types) [
      | none ↦ none
      | some types ↦ some (
          record empty_error {
            code = missing_code p.place;
            message = r.message;
            fields = p.name ∷ [];
            fields_details = type_details p.name types;
          }
          ∷ [])
    ]
    else some []

pattern_details : ErrorParameter → Cause → List FieldTypeError
unfolding value_details
pattern_details p (schema_error e) =
    if str_eq e.schema_field (bytes "pattern") then value_details p.name e else []
pattern_details p (parse_error e) = []
pattern_details p (multi_error es) = []
pattern_details p other_cause = []

syntax_part : RequestError → ErrorParameter → List ValidationError
unfolding invalid_code check_parse_err pattern_details
syntax_part r p =
    if has_suffix r.message (bytes "invalid syntax")
    then record empty_error {
      code = invalid_code p.place;
      message = r.message;
      fields = p.name ∷ [];
      fields_details = check_parse_err p r.cause ++ pattern_details p r.cause;
    }
      ∷ []
    else []

each_schema :
    (SchemaError → List ValidationError) → List (Option SchemaError) → List ValidationError
each_schema f [] = []
each_schema f (none ∷ es) = each_schema f es
each_schema f (some e ∷ es) = f e ++ each_schema f es

schema_part : (SchemaError → List ValidationError) → Cause → List ValidationError
unfolding each_schema
schema_part f (multi_error es) = each_schema f es
schema_part f (schema_error e) = f e
schema_part f (parse_error e) = []
schema_part f other_cause = []

unfoldable pub append_to :
    Option (List ValidationError) → List ValidationError → Option (List ValidationError)
append_to none more = none
append_to (some errors) more = some (errors ++ more)

-- The errors of a parameter; `none` is a panic.
unfoldable pub parameter_errors :
    RequestError → Option ErrorParameter → Option (List ValidationError)
unfolding missing_part append_to syntax_part schema_part check_required_fields
parameter_errors r none = some []
parameter_errors r (some p) =
    append_to (missing_part r p)
      (syntax_part r p ++ schema_part (check_required_fields p r.cause) r.cause)
