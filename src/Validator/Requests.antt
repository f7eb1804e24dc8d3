-- ===== src/Validator/Requests.antt =====
-- `ValidateRequest`, `ValidateParameter` and `ValidateRequestBody` of
-- internal/platform/validator/validate_request.go. `R` is the type of requests, which the checks
-- change where a default value is filled in, and `V` that of decoded values. The decoders, the
-- schemas and the changes of a request are parameters.
pub mod Fitting
pub mod Bodies
pub mod Accepting
use api_firewall.Base.{
  ℕ, Bool, true, false, ◌&&◌, ◌||◌, not, Option, none, some, is_some, List, [], ◌∷◌, ◌++◌, Str,
  bytes, str_eq, exists, length, ◌==◌, if◌then◌else◌,
}

pub record Options : Type 0 where
  pub multi_error : Bool
  pub exclude_request_query_params : Bool
  pub exclude_request_body : Bool
  pub skip_setting_defaults : Bool
  pub exclude_read_only_validations : Bool

-- Why a request is refused.
pub data Refusal : Type 0 where
  security_refusal : List Str → Refusal
  parameter_undecoded : Str → Str → Refusal
  parameter_required : Str → Refusal
  parameter_empty : Str → Refusal
  parameter_schema : Str → Str → Refusal
  body_unread : Str → Refusal
  body_required : Refusal
  body_content_type : Str → Refusal
  body_undecoded : Str → Refusal
  body_schema : Str → Refusal
  body_not_rewritten : Str → Refusal

pub data Verdict : Type 0 where
  valid : Verdict
  refused : Refusal → Verdict
  refused_for : List Refusal → Verdict

module _ (R V : Type 0) where
  -- `visit multi value` is `VisitJSON`, with the error that it returns.
  pub record Schema : Type 0 where
    pub default : Option V
    pub all_of : List (Option V)  -- the defaults of the schemas of `allOf`
    pub is_empty : Bool
    pub visit : Bool → V → Option Str

  pub record Parameter : Type 0 where
    pub name : Str
    pub place : Str
    pub required : Bool
    pub allow_empty_value : Bool
    pub explode : Option Bool
    pub schema : Option Schema
    pub has_content : Bool

  -- What the decoder of a parameter gives: value, schema and whether the parameter was found.
  pub data Decoding : Type 0 where
    parsed : Option V → Option Schema → Bool → Decoding
    unparsed : Str → Decoding

  -- A body that was visited: whether defaults were set, and with them the rewriting of the body.
  pub data Visited : Type 0 where
    unfit : Str → Visited
    fit : Bool → Option Str → (R → R) → Visited

  pub data BodyDecoding : Type 0 where
    body_parsed : Visited → BodyDecoding
    body_unparsed : Str → BodyDecoding

  pub record Media : Type 0 where
    pub has_schema : Bool
    pub decode : Options → R → Str → BodyDecoding

  pub record RequestBody : Type 0 where
    pub required : Bool
    pub has_content : Bool
    pub media_of : Str → Option Media

  -- What the body of a request gives when it is read.
  pub data BodyRead : Type 0 where
    data_read : Str → BodyRead
    reading_failed : Str → BodyRead

  pub record Library : Type 0 where
    pub decode_content : Parameter → R → Decoding
    pub decode_styled : Parameter → R → Decoding
    pub is_nil : V → Bool
    pub nil_schema_is_empty : Bool
    pub add_query : R → Str → V → Bool → R
    pub add_header : R → Str → V → R
    pub add_cookie : R → Str → V → R
    pub read_body : R → BodyRead
    pub content_type : R → Str

  pub record Operation : Type 0 where
    pub path_item_parameters : List Parameter
    pub parameters : List Parameter
    pub request_body : Option RequestBody
    -- the errors of the security requirements of the operation, or else of the specification
    pub security : R → Option (List Str)

  -- The first default of `allOf`, if there is one, takes the place of the schema's own.
  default_of : Option V → List (Option V) → Option V
  default_of d [] = d
  default_of d (none ∷ ds) = default_of d ds
  default_of d (some v ∷ ds) = some v

  module _ (lib : Library) (o : Options) where
    set_default : Parameter → V → R → R
    set_default p v r =
        if str_eq p.place (bytes "query")
        then lib.add_query r p.name v (elim p.explode [ none ↦ false | some e ↦ e ])
        else if str_eq p.place (bytes "header")
        then lib.add_header r p.name v
        else if str_eq p.place (bytes "cookie")
        then lib.add_cookie r p.name v
        else r

    -- The value to check, and the request with the default filled in.
    pub fill : Parameter → Option V → Option Schema → R → R × Option V
    unfolding default_of set_default
    fill p (some v) schema r = (r, some v)
    fill p none none r = (r, none)
    fill p none (some s) r =
        if o.skip_setting_defaults then (r, none) else elim (default_of s.default s.all_of) [
          | none ↦ (r, none)
          | some v ↦ (set_default p v r, some v)
        ]

    schema_is_empty : Option Schema → Bool
    schema_is_empty none = lib.nil_schema_is_empty
    schema_is_empty (some s) = s.is_empty

    check_nil : Parameter → Option Schema → Bool → Option Refusal
    unfolding schema_is_empty
    check_nil p schema found =
        if schema_is_empty schema && found
        then none
        else if not p.allow_empty_value && found
        then some (parameter_empty p.name)
        else none

    check_schema : Parameter → Option Schema → V → Option Refusal
    check_schema p none v = none
    check_schema p (some s) v = elim (s.visit o.multi_error v) [
      | none ↦ none
      | some e ↦ some (parameter_schema p.name e)
    ]

    check_value : Parameter → Option Schema → Bool → Option V → Option Refusal
    unfolding check_nil check_schema
    check_value p schema found none = check_nil p schema found
    check_value p schema found (some v) =
        if lib.is_nil v then check_nil p schema found else check_schema p schema v

    settle_value : Parameter → Option Schema → Bool → R × Option V → R × Option Refusal
    unfolding check_value
    settle_value p schema found (r, v) = (
      r,
      if p.required && not found
          then some (parameter_required p.name)
          else check_value p schema found v,
    )

    settle_decoding : Parameter → R → Decoding → R × Option Refusal
    unfolding settle_value fill
    settle_decoding p r (unparsed e) = (r, some (parameter_undecoded p.name e))
    settle_decoding p r (parsed v schema found) = settle_value p schema found (fill p v schema r)

    unfoldable pub decoding_of : Parameter → R → Decoding
    decoding_of p r = if p.has_content then lib.decode_content p r else lib.decode_styled p r

    unfoldable pub is_unchecked : Parameter → Bool
    is_unchecked p = not (is_some p.schema) && not p.has_content

    -- `ValidateParameter`
    unfoldable pub validate_parameter : Parameter → R → R × Option Refusal
    unfolding settle_decoding decoding_of is_unchecked
    validate_parameter p r =
        if is_unchecked p then (r, none) else settle_decoding p r (decoding_of p r)

    settle_visited : R → Visited → R × Option Refusal
    settle_visited r (unfit e) = (r, some (body_schema e))
    settle_visited r (fit false e rewrite) = (r, none)
    settle_visited r (fit true none rewrite) = (rewrite r, none)
    settle_visited r (fit true (some e) rewrite) = (r, some (body_not_rewritten e))

    settle_body : R → BodyDecoding → R × Option Refusal
    unfolding settle_visited
    settle_body r (body_unparsed e) = (r, some (body_undecoded e))
    settle_body r (body_parsed v) = settle_visited r v

    check_media : R → Str → Option Media → R × Option Refusal
    unfolding settle_body
    check_media r body none = (r, some (body_content_type (lib.content_type r)))
    check_media r body (some m) =
        if m.has_schema then settle_body r (m.decode o r body) else (r, none)

    check_body : RequestBody → R → BodyRead → R × Option Refusal
    unfolding check_media
    check_body b r (reading_failed e) = (r, some (body_unread e))
    check_body b r (data_read []) = (r, if b.required then some body_required else none)
    check_body b r (data_read (c ∷ cs)) =
        if b.has_content
        then check_media r (c ∷ cs) (b.media_of (lib.content_type r))
        else (r, none)

    -- `ValidateRequestBody`
    unfoldable pub validate_request_body : RequestBody → R → R × Option Refusal
    unfolding check_body
    validate_request_body b r = check_body b r (lib.read_body r)

    abbrev pub Check : Type 0
    Check = R → R × Option Refusal

    settle_security : R → Option (List Str) → R × Option Refusal
    settle_security r none = (r, none)
    settle_security r (some errs) = (r, some (security_refusal errs))

    -- `GetByInAndName`
    unfoldable pub is_overridden : List Parameter → Parameter → Bool
    is_overridden ps p = exists (λ q. str_eq q.place p.place && str_eq q.name p.name) ps

    -- The checks of the loop over the parameters of the path item, and of the operation.
    path_checks : List Parameter → List Parameter → List Check
    unfolding validate_parameter is_overridden
    path_checks operation [] = []
    path_checks operation (p ∷ ps) =
        let rest = path_checks operation ps in
        if is_overridden operation p then rest else validate_parameter p ∷ rest

    operation_checks : List Parameter → List Check
    unfolding validate_parameter
    operation_checks [] = []
    operation_checks (p ∷ ps) =
        let rest = operation_checks ps in
        if o.exclude_request_query_params && str_eq p.place (bytes "query")
        then rest
        else validate_parameter p ∷ rest

    body_checks : Option RequestBody → List Check
    unfolding validate_request_body
    body_checks none = []
    body_checks (some b) = if o.exclude_request_body then [] else validate_request_body b ∷ []

    -- All checks in their order.
    unfoldable pub checks_of : Operation → List Check
    unfolding settle_security path_checks operation_checks body_checks
    checks_of op =
        (λ r. settle_security r (op.security r))
        ∷ (path_checks op.parameters op.path_item_parameters
            ++ (operation_checks op.parameters ++ body_checks op.request_body))

    conclude : List Refusal → Verdict
    conclude [] = valid
    conclude (e ∷ es) = refused_for (e ∷ es)

    -- What follows a check: a refusal ends them, or joins the others where all are asked for.
    after_check : R × Option Refusal → (R → R × Verdict) → (Refusal → R → R × Verdict) → R × Verdict
    after_check (r, none) go_on add = go_on r
    after_check (r, some e) go_on add = if o.multi_error then add e r else (r, refused e)

    run_checks : List Check → List Refusal → R → R × Verdict
    unfolding conclude after_check
    run_checks [] me r = (r, conclude me)
    run_checks (c ∷ cs) me r =
        after_check (c r) (λ r'. run_checks cs me r') (λ e r'. run_checks cs (me ++ e ∷ []) r')

    -- `ValidateRequest`
    unfoldable pub validate_request : Operation → R → R × Verdict
    unfolding run_checks checks_of
    validate_request op r = run_checks (checks_of op) [] r
