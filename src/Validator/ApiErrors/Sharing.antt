-- ===== src/Validator/ApiErrors/Sharing.antt =====
-- The error for the missing fields of a body, where it is one of a MultiError.
use api_firewall.Base.{
  inl, inr, arith, Option-cases, append_nil, ◌≡◌, ◌≢◌, refl, ap, ◌∙◌, Bool, true, false, Option,
  none, some, List, [], ◌∷◌, ◌++◌, Str, All, has_prefix, length, replicate,
}
use api_firewall.ApiMode.{FieldTypeError, ValidationError}
use api_firewall.Validator.Refusals.{
  referenced, SchemaError, multi_error, RequestError, request_error, empty_error,
}
use api_firewall.Validator.ParameterErrors.{parameter_errors, is_required}
use api_firewall.Validator.ApiErrors.Reporting.{missing_field-none}
use api_firewall.Validator.ApiErrors.{
  property_details, property_details, missing_field, last_missing, shared_missing, join,
  one_of_many, many_errors, body_errors, is_parse_error, unsupported_prefix, content_type_prefix,
  missing_body, unparsed_body, report, settle_request_body, settle_body_errors, or_unknown,
  settle_parameter, get_error_response,
}

fields-missing_field :
    (e : SchemaError) (ds : List FieldTypeError) (f : Str) (v : ValidationError)
    → missing_field e ds f ≡ some v
    → v.fields ≡ f ∷ []
unfolding missing_field property_details
fields-missing_field e ds f v q = ground (arith, q)

missing_field-some :
    (e : SchemaError) (ds : List FieldTypeError) (f : Str)
    → e.properties f ≢ referenced
    → (v : ValidationError) × (missing_field e ds f ≡ some v) × (v.fields ≡ f ∷ [])
missing_field-some e ds f n = elim (Option-cases (missing_field e ds f)) [
  | inl q ↦ absurd (n (missing_field-none e ds f q))
  | inr (v, q) ↦ (v, q, fields-missing_field e ds f v q)
]

-- The record at the end of the loop names the last field.
last_missing-some :
    (e : SchemaError) (v : ValidationError) (fields : List Str) (last : Str)
    → All (λ f. e.properties f ≢ referenced) (fields ++ last ∷ [])
    → (w : ValidationError) × (last_missing e v (fields ++ last ∷ []) ≡ some w)
      × (w.fields ≡ last ∷ [])
unfolding last_missing
last_missing-some e v [] last (n, ns) =
    let (w, q, s) = missing_field-some e v.fields_details last n in (w, rw (q, last_missing), s)
last_missing-some e v (f ∷ fields) last (n, ns) =
    let (w, q, s) = missing_field-some e v.fields_details f n in
    let (x, r, t) = last_missing-some e w fields last ns in (x, rw (q, last_missing, r), t)

or_unknown-replicate :
    (text : Str) (v : ValidationError) (fields : List Str) (last : Str)
    → or_unknown text (report (replicate (length (fields ++ last ∷ [])) v))
      ≡ report (replicate (length (fields ++ last ∷ [])) v)
unfolding or_unknown
or_unknown-replicate text v [] last = refl
or_unknown-replicate text v (f ∷ fields) last = refl

settle_request_body-plain :
    (r : RequestError) (es : List ValidationError) (body : Option Bool)
    → has_prefix r.message unsupported_prefix ≡ false
    → has_prefix r.message content_type_prefix ≡ false
    → r.is_required_text ≡ false
    → is_parse_error r.cause ≡ false
    → settle_request_body r es body ≡ report es
unfolding settle_request_body missing_body unparsed_body
settle_request_body-plain r es none u c t p = refl
settle_request_body-plain r es (some false) u c t p =
    rw (u, p, c) (ap report (append_nil (es ++ []) ∙ append_nil es))
settle_request_body-plain r es (some true) u c t p =
    rw (u, t, p, c) (ap report (append_nil (es ++ []) ∙ append_nil es))

shared_missing-some :
    (e : SchemaError) (fs : List Str) (v : ValidationError)
    → e.json_pointer ≡ fs
    → last_missing e empty_error fs ≡ some v
    → shared_missing e ≡ some (replicate (length fs) v)
unfolding shared_missing
shared_missing-some e fs v p q =
    let all : last_missing e empty_error e.json_pointer ≡ some v =
      ap (last_missing e empty_error) p ∙ q in
    rw (all, shared_missing) (ap (λ t. some (replicate (length t) v)) p)

body_errors-shared :
    (e : SchemaError) (vs : List ValidationError)
    → is_required e ≡ true
    → shared_missing e ≡ some vs
    → body_errors (multi_error (some e ∷ [])) ≡ some vs
unfolding body_errors many_errors one_of_many join
body_errors-shared e vs required q = rw (required, q) (ap some (append_nil vs))

-- The schema error of a body that lacks the fields of a path, as the only one of a MultiError.
module _ (r : RequestError) (e : SchemaError) (fields : List Str) (last : Str) where
  -- A MultiError with one schema error, of a body that lacks required fields, none of them declared by
  -- a reference: the answer has an error for each field of the schema error's path, but all are the
  -- same and name the last field only.
  pub get_error_response-shared :
      r.parameter ≡ none
      → r.cause ≡ multi_error (some e ∷ [])
      → r.is_required_text ≡ false
      → has_prefix r.message unsupported_prefix ≡ false
      → has_prefix r.message content_type_prefix ≡ false
      → is_required e ≡ true
      → e.json_pointer ≡ fields ++ last ∷ []
      → All (λ f. e.properties f ≢ referenced) (fields ++ last ∷ [])
      → (v : ValidationError) × (get_error_response (request_error r)
          ≡ report (replicate (length (fields ++ last ∷ [])) v))
        × (v.fields ≡ last ∷ [])
  unfolding get_error_response parameter_errors settle_parameter settle_body_errors is_parse_error
  get_error_response-shared no_parameter cause text u c required pointer typed =
      let (v, q, named) = last_missing-some e empty_error fields last typed in
      let vs = replicate (length (fields ++ last ∷ [])) v in
      let shared =
        ap body_errors cause
        ∙ body_errors-shared e vs required
            (shared_missing-some e (fields ++ last ∷ []) v pointer q) in
      let bare = settle_request_body-plain r vs r.request_body u c text (ap is_parse_error cause) in
      (
        v,
        ap (λ p. or_unknown r.message (settle_parameter r (parameter_errors r p))) no_parameter
            ∙ ap (λ x. or_unknown r.message (settle_body_errors r x)) shared
            ∙ ap (or_unknown r.message) bare
            ∙ or_unknown-replicate r.message v fields last,
        named,
      )
