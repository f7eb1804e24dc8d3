-- ===== src/Validator/Refusals.antt =====
-- What a validator of internal/platform/validator refuses a request with. What kin-openapi tells of
-- an error is data; texts that fmt makes of a value or of a bound are fields, and so is what errors.Is
-- finds. Of a refusal, api_mode_errors.go makes errors that API mode answers with.
use api_firewall.Base.{Bool, Option, none, List, [], map, Str}
use api_firewall.ApiMode.{FieldTypeError, ValidationError}

pub record ParseError : Type 0 where
  pub expected_type : Str
  pub value_str : Str

-- What `Properties.JSONLookup` gives for a name: nothing, the types of a schema, or a `$ref`, of
-- which it gives the reference and not the schema.
pub data Property : Type 0 where
  no_property : Property
  property : List Str → Property
  referenced : Property

pub record SchemaError : Type 0 where
  pub schema_field : Str
  pub json_pointer : List Str
  pub message : Str
  pub value_text : Str
  pub types : List Str
  pub pattern : Str
  pub max_text : Str
  pub min_text : Str
  pub properties : Str → Property

-- `err.Err`; of several errors, those that are no schema errors are `none`.
pub data Cause : Type 0 where
  parse_error : ParseError → Cause
  schema_error : SchemaError → Cause
  multi_error : List (Option SchemaError) → Cause
  other_cause : Cause

pub record ErrorParameter : Type 0 where
  pub name : Str
  pub place : Str
  pub types : Option (List Str)  -- none for a parameter with `content`, which has no schema

pub record RequestError : Type 0 where
  pub parameter : Option ErrorParameter
  pub request_body : Option Bool  -- whether it is required
  pub cause : Cause
  pub message : Str
  pub is_missing : Bool  -- `errors.Is` of a missing or an empty value
  pub is_required_text : Bool  -- whether the cause's text is that of a missing value

pub data SecurityFailure : Type 0 where
  missing_parameter : Str → Str → SecurityFailure  -- the field and the message
  other_failure : Str → SecurityFailure

pub data RequestRefusal : Type 0 where
  request_error : RequestError → RequestRefusal
  security_error : Str → List SecurityFailure → RequestRefusal  -- with its text
  other_error : Str → RequestRefusal

abbrev pub empty_error : ValidationError
empty_error = record {
  message = [];
  code = [];
  schema_version = [];
  schema_id = none;
  fields = [];
  fields_details = [];
}

unfoldable pub type_details : Str → List Str → List FieldTypeError
type_details name types =
    map (λ t. record { name = name; expected_type = t; pattern = []; current_value = [] }) types
