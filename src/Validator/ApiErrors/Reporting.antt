-- ===== src/Validator/ApiErrors/Reporting.antt =====
-- What a refusal is reported as.
use api_firewall.Base.{
  ◌≡◌, refl, ◌⊎◌, inl, inr, Bool, true, Option, none, some, List, [], ◌∷◌, Str, has_prefix,
  Bool-cases, Option-cases, arith,
}
use api_firewall.ApiMode.{FieldTypeError, ValidationError}
use api_firewall.Validator.Refusals.{
  referenced, SchemaError, Cause, parse_error, schema_error, multi_error, other_cause,
  ErrorParameter, RequestError, RequestRefusal, request_error, security_error, other_error,
  empty_error,
}
use api_firewall.Validator.ParameterErrors.{parameter_errors, missing_part, append_to, is_required}
use api_firewall.Validator.ApiErrors.{
  property_details, missing_field, last_missing, shared_missing, join, one_of_many, one,
  missing_fields, single, many_errors, body_errors, unsupported_prefix, Report, report,
  not_supported, report_panic, settle_request_body, settle_body_errors, or_unknown,
  settle_parameter, get_error_response,
}

-- A request with a body whose content type has no decoder, and with no error of a parameter.
pub record IsUnsupported (e : RequestRefusal) : Type 0 where
  pub error : RequestError
  pub same : e ≡ request_error error
  pub required : Bool
  pub body : error.request_body ≡ some required
  pub no_parameter : parameter_errors error error.parameter ≡ some []
  pub decoder : has_prefix error.message unsupported_prefix ≡ true

-- One of the fields is declared by a `$ref`.
abbrev pub SomeReferenced : SchemaError → List Str → Type 0
SomeReferenced e [] = ⊥
SomeReferenced e (f ∷ fs) = (e.properties f ≡ referenced) ⊎ SomeReferenced e fs

-- A required field is missing that is declared by a `$ref`.
abbrev pub LacksReferenced : SchemaError → Type 0
LacksReferenced e = (is_required e ≡ true) × SomeReferenced e e.json_pointer

abbrev pub OneLacksReferenced : List (Option SchemaError) → Type 0
OneLacksReferenced [] = ⊥
OneLacksReferenced (none ∷ es) = OneLacksReferenced es
OneLacksReferenced (some e ∷ es) = LacksReferenced e ⊎ OneLacksReferenced es

abbrev pub CauseLacksReferenced : Cause → Type 0
CauseLacksReferenced (multi_error es) = OneLacksReferenced es
CauseLacksReferenced (schema_error e) = LacksReferenced e
CauseLacksReferenced (parse_error e) = ⊥
CauseLacksReferenced other_cause = ⊥

-- A parameter with no schema is missing or empty.
abbrev pub LacksSchema : RequestError → Type 0
LacksSchema r =
    (p : ErrorParameter) × (r.parameter ≡ some p) × (r.is_missing ≡ true) × (p.types ≡ none)

-- What makes the report panic.
abbrev pub IsCrash : RequestRefusal → Type 0
IsCrash e =
    (r : RequestError) × (e ≡ request_error r) × (LacksSchema r ⊎ CauseLacksReferenced r.cause)

-- At least one error, or none with a reason.
abbrev pub Reports : RequestRefusal → Report → Type 0
Reports e x =
    ((first : ValidationError) × (rest : List ValidationError) × (x ≡ report (first ∷ rest)))
    ⊎ ((x ≡ not_supported) × IsUnsupported e)
    ⊎ ((text : Str) × (x ≡ report_panic text) × IsCrash e)

pub missing_field-none :
    (e : SchemaError) (ds : List FieldTypeError) (f : Str)
    → missing_field e ds f ≡ none
    → e.properties f ≡ referenced
unfolding missing_field property_details
missing_field-none e ds f q = ground arith

last_missing-none :
    (e : SchemaError) (v : ValidationError) (fs : List Str)
    → last_missing e v fs ≡ none
    → SomeReferenced e fs
unfolding last_missing
last_missing-none e v [] q = absurd (ground arith)
last_missing-none e v (f ∷ fs) q = elim (Option-cases (missing_field e v.fields_details f)) [
  | inl n ↦ inl (missing_field-none e v.fields_details f n)
  | inr (w, n) ↦ inr (last_missing-none e w fs (rw (n, last_missing) at q))
]

shared_missing-none : (e : SchemaError) → shared_missing e ≡ none → SomeReferenced e e.json_pointer
unfolding shared_missing
shared_missing-none e q = elim (Option-cases (last_missing e empty_error e.json_pointer)) [
  | inl n ↦ last_missing-none e empty_error e.json_pointer n
  | inr (v, n) ↦ absurd (ground (arith, rw (n, shared_missing) at q))
]

join-none : (a b : Option (List ValidationError)) → join a b ≡ none → (a ≡ none) ⊎ (b ≡ none)
unfolding join
join-none none b q = inl refl
join-none (some x) none q = inr refl
join-none (some x) (some y) q = absurd (ground arith)

one-none : (x : Option ValidationError) → one x ≡ none → x ≡ none
unfolding one
one-none none q = refl
one-none (some v) q = absurd (ground arith)

missing_fields-none :
    (e : SchemaError) (fs : List Str) → missing_fields e fs ≡ none → SomeReferenced e fs
unfolding missing_fields
missing_fields-none e [] q = absurd (ground arith)
missing_fields-none e (f ∷ fs) q = elim (join-none (one (missing_field e [] f)) _ q) [
  | inl n ↦ inl (missing_field-none e [] f (one-none _ n))
  | inr n ↦ inr (missing_fields-none e fs n)
]

one_of_many-none : (c : Cause) (e : SchemaError) → one_of_many c e ≡ none → LacksReferenced e
unfolding one_of_many
one_of_many-none c e q = elim (Bool-cases (is_required e)) [
  | inl t ↦ (t, shared_missing-none e (rw t at q))
  | inr t ↦ absurd (ground (arith, rw t at q))
]

single-none : (c : Cause) (e : SchemaError) → single c e ≡ none → LacksReferenced e
unfolding single
single-none c e q = elim (Bool-cases (is_required e)) [
  | inl t ↦ (t, missing_fields-none e e.json_pointer (rw t at q))
  | inr t ↦ absurd (ground (arith, rw t at q))
]

many_errors-none :
    (c : Cause) (es : List (Option SchemaError)) → many_errors c es ≡ none → OneLacksReferenced es
unfolding many_errors
many_errors-none c [] q = absurd (ground arith)
many_errors-none c (none ∷ es) q = many_errors-none c es q
many_errors-none c (some e ∷ es) q = elim (join-none (one_of_many c e) _ q) [
  | inl n ↦ inl (one_of_many-none c e n)
  | inr n ↦ inr (many_errors-none c es n)
]

body_errors-none : (c : Cause) → body_errors c ≡ none → CauseLacksReferenced c
unfolding body_errors
body_errors-none (multi_error es) q = many_errors-none (multi_error es) es q
body_errors-none (schema_error e) q = single-none (schema_error e) e q
body_errors-none (parse_error e) q = absurd (ground arith)
body_errors-none other_cause q = absurd (ground arith)

append_to-none :
    (a : Option (List ValidationError)) (es : List ValidationError)
    → append_to a es ≡ none
    → a ≡ none
unfolding append_to
append_to-none none es q = refl
append_to-none (some x) es q = absurd (ground arith)

missing_part-none :
    (r : RequestError) (p : ErrorParameter)
    → missing_part r p ≡ none
    → (r.is_missing ≡ true) × (p.types ≡ none)
unfolding missing_part
missing_part-none r p q = elim (Bool-cases r.is_missing) [
  | inl t ↦ elim (Option-cases p.types) [
    | inl n ↦ (t, n)
    | inr (ts, n) ↦ absurd (ground (arith, rw (t, n) at q))
  ]
  | inr t ↦ absurd (ground (arith, rw t at q))
]

parameter_errors-none :
    (r : RequestError) (p : Option ErrorParameter)
    → r.parameter ≡ p
    → parameter_errors r p ≡ none
    → LacksSchema r
unfolding parameter_errors
parameter_errors-none r none e q = absurd (ground arith)
parameter_errors-none r (some p) e q =
    let (t, n) = missing_part-none r p (append_to-none (missing_part r p) _ q) in (p, e, t, n)

or_unknown-report :
    (text : Str) (es : List ValidationError)
    → (first : ValidationError) × (rest : List ValidationError) × (or_unknown text (report es)
        ≡ report (first ∷ rest))
unfolding or_unknown
or_unknown-report text [] = (_, _, refl)
or_unknown-report text (e ∷ es) = (e, es, refl)

settle_request_body-Reports :
    (r : RequestError) (es : List ValidationError) (body : Option Bool)
    → r.request_body ≡ body
    → parameter_errors r r.parameter ≡ some []
    → Reports (request_error r) (or_unknown r.message (settle_request_body r es body))
unfolding settle_request_body or_unknown
settle_request_body-Reports r es none b p = inl (or_unknown-report r.message es)
settle_request_body-Reports r es (some required) b p =
    elim (Bool-cases (has_prefix r.message unsupported_prefix)) [
      | inl e ↦ rw e (
          inr (
            inl (
              refl,
              record {
                error = r;
                same = refl;
                required = required;
                body = b;
                no_parameter = p;
                decoder = e;
              },
            )))
      | inr e ↦ rw e (inl (or_unknown-report r.message _))
    ]

settle_body_errors-Reports :
    (r : RequestError) (es : Option (List ValidationError))
    → body_errors r.cause ≡ es
    → parameter_errors r r.parameter ≡ some []
    → Reports (request_error r) (or_unknown r.message (settle_body_errors r es))
unfolding settle_body_errors or_unknown
settle_body_errors-Reports r none e p =
    inr (inr (_, refl, (r, refl, inr (body_errors-none r.cause e))))
settle_body_errors-Reports r (some es) e p = settle_request_body-Reports r es r.request_body refl p

settle_parameter-Reports :
    (r : RequestError) (es : Option (List ValidationError))
    → parameter_errors r r.parameter ≡ es
    → Reports (request_error r) (or_unknown r.message (settle_parameter r es))
unfolding settle_parameter or_unknown
settle_parameter-Reports r none p =
    inr (inr (_, refl, (r, refl, inl (parameter_errors-none r r.parameter refl p))))
settle_parameter-Reports r (some []) p = settle_body_errors-Reports r (body_errors r.cause) refl p
settle_parameter-Reports r (some (e ∷ es)) p = inl (or_unknown-report r.message (e ∷ es))

-- A refusal of a validator is answered with at least one error, but for two cases. For a body whose
-- content type has no decoder, in a request with no error of a parameter, the answer is no report but
-- an error. And the report ends in a panic only if a parameter that has no schema is missing or empty,
-- or if a schema error is about required fields of which one is declared by a reference.
pub get_error_response-Reports : (e : RequestRefusal) → Reports e (get_error_response e)
unfolding get_error_response
get_error_response-Reports (request_error r) =
    settle_parameter-Reports r (parameter_errors r r.parameter) refl
get_error_response-Reports (security_error text es) = inl (or_unknown-report text _)
get_error_response-Reports (other_error text) = inl (or_unknown-report text [])
