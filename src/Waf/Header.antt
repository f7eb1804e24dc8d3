-- ===== src/Waf/Header.antt =====
-- `getValidationHeader` and the validation errors that it reads. The errors are those of
-- kin-openapi's openapi3filter, with the fields that the firewall uses.
pub mod Digits
use api_firewall.Base.{
  ℕ, zero, suc, ◌+◌, ◌/◌, ◌%◌, Bool, true, false, Option, none, some, List, [], ◌∷◌, ◌++◌, Str,
  bytes, split_first, ◌==◌, if◌then◌else◌,
}

pub data ValidationError : Type 0 where
  response_error : Str → ValidationError
  -- reason; the parameter's name; the reason of a schema error behind it; whether it is about the
  -- body; the whole text
  request_error : Str → Option Str → Option Str → Bool → Str → ValidationError
  -- the names of the schemes of each requirement, and the texts of the errors
  security_error : List (List Str) → List Str → ValidationError
  other_error : Str → ValidationError

-- Decimal digits; a number has fewer digits than its fuel, which is above it.
digits_fuel : ℕ → ℕ → Str → Str
digits_fuel zero n acc = acc
digits_fuel (suc f) n acc =
    let rest = digits_fuel f (n / 10) ((b'0' + n % 10) ∷ acc) in
    if n / 10 == 0 then (b'0' + n % 10) ∷ acc else rest

-- `%d`
unfoldable pub itoa : ℕ → Str
unfolding digits_fuel
itoa n = digits_fuel (suc n) n []

or_unknown : Str → Str
or_unknown [] = bytes "unknown"
or_unknown (b ∷ reason) = b ∷ reason

with_commas : List Str → Str
with_commas [] = []
with_commas (s ∷ ss) = s ++ (bytes "," ++ with_commas ss)

all_with_commas : List (List Str) → Str
unfolding with_commas
all_with_commas [] = []
all_with_commas (ss ∷ rest) = with_commas ss ++ all_with_commas rest

-- `strings.TrimSuffix(s, ",")`
trim_comma : Str → Str
trim_comma [] = []
trim_comma (a ∷ []) = if a == b',' then [] else a ∷ []
trim_comma (a ∷ b ∷ s) = a ∷ trim_comma (b ∷ s)

-- With no reason of its own a parameter error takes that of the schema error behind it, if any,
-- and the parameter's name.
parameter_header : Str → Str → Option Str → Str
unfolding or_unknown
parameter_header [] name none =
    bytes "request-parameter:" ++ (bytes "unknown" ++ (bytes ":" ++ name))
parameter_header [] name (some cause) =
    bytes "request-parameter:" ++ (or_unknown cause ++ (bytes ":" ++ name))
parameter_header (b ∷ reason) name cause =
    bytes "request-parameter:" ++ ((b ∷ reason) ++ bytes ":request-parameter")

body_header : Str → Bool → Str → Option Str
unfolding or_unknown
body_header reason false content_type = none
body_header reason true content_type = some (
    bytes "request-body-"
    ++ (split_first content_type b';'
        ++ (bytes ":" ++ (or_unknown reason ++ bytes ":request-body"))))

-- The status code and content type are the response's, the other content type the request's.
unfoldable pub get_validation_header : ℕ → Str → Str → ValidationError → Option Str
unfolding itoa or_unknown all_with_commas with_commas trim_comma parameter_header body_header
get_validation_header status resp_type req_type (response_error reason) = some (
    bytes "response-"
    ++ (itoa status
        ++ (bytes "-"
            ++ (split_first resp_type b';'
                ++ (bytes ":" ++ (or_unknown reason ++ bytes ":response"))))))
get_validation_header status resp_type req_type
      (request_error reason (some name) cause has_body text) =
    some (parameter_header reason name cause)
get_validation_header status resp_type req_type (request_error reason none cause has_body text) =
    body_header reason has_body req_type
get_validation_header status resp_type req_type (security_error schemes errors) =
    let name = trim_comma (all_with_commas schemes) in
    some (
      bytes "security-requirements-"
      ++ (name ++ (bytes ":" ++ (trim_comma (with_commas errors) ++ (bytes ":" ++ name)))))
get_validation_header status resp_type req_type (other_error text) = none
