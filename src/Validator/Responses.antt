-- ===== src/Validator/Responses.antt =====
-- `ValidateResponse` and its headers, of internal/platform/validator/validate_response.go. `I` is the
-- type of responses to check; the decoders, the schemas and the lookup of a status among the
-- responses of an operation are parameters. A Go map of headers is the list of its entries in the
-- order of the names, which the source sorts.
pub mod Fitting
use api_firewall.Base.{
  ℕ, ◌≡◌, ◌≢◌, refl, sym, ap, subst, ◌∙◌, ◌↔◌, ◌⊎◌, inl, inr, Bool, true, false, ◌&&◌, ◌||◌, not,
  Option, none, some, is_some, List, [], ◌∷◌, ◌++◌, Str, bytes, str_eq, length, ◌==◌, if◌then◌else◌,
  arith, All, Bool-cases, Option-cases,
}

pub data ResponseRefusal : Type 0 where
  status_not_supported : ResponseRefusal
  not_resolved : ResponseRefusal
  no_serialization : Str → ResponseRefusal
  header_undecoded : Str → ResponseRefusal
  header_schema : Str → ResponseRefusal
  header_missing : Str → ResponseRefusal
  content_type_unexpected : Str → ResponseRefusal
  body_unread : Str → ResponseRefusal
  body_undecoded : Str → ResponseRefusal
  body_schema : Str → ResponseRefusal

module _ (I : Type 0) where
  -- What decoding and visiting a value gives; `absent` is a header that was not found.
  pub data HeaderRead : Type 0 where
    no_method : HeaderRead
    undecoded : HeaderRead
    absent : HeaderRead
    visited : Bool → HeaderRead

  pub record Header : Type 0 where
    pub required : Bool
    pub read : Bool → I → HeaderRead  -- with multi-error mode

  pub data BodyVisit : Type 0 where
    unread : Str → BodyVisit
    undecodable : Str → BodyVisit
    body_visited : Option Str → BodyVisit

  pub record ResponseMedia : Type 0 where
    pub has_schema : Bool
    pub visit : Bool → I → BodyVisit

  pub record Response : Type 0 where
    pub headers : List (Str × Header)
    pub has_content : Bool
    pub media_of : Str → Option ResponseMedia

  pub record ResponseOptions : Type 0 where
    pub include_response_status : Bool
    pub exclude_response_body : Bool
    pub multi_error : Bool

  -- The responses of an operation: whether there are any, that of a status, and the default; a
  -- reference that was not resolved is `some none`.
  pub record Responses : Type 0 where
    pub any : Bool
    pub of_status : ℕ → Option (Option Response)
    pub default : Option (Option Response)

  pub record ResponseInput : Type 0 where
    pub method : Str
    pub status : ℕ
    pub content_type : Str
    pub response : I

  module _ (o : ResponseOptions) (input : ResponseInput) where
    settle_read : Str → Bool → HeaderRead → Option ResponseRefusal
    settle_read name required no_method = some (no_serialization name)
    settle_read name required undecoded = some (header_undecoded name)
    settle_read name required absent = if required then some (header_missing name) else none
    settle_read name required (visited true) = none
    settle_read name required (visited false) = some (header_schema name)

    -- `validateResponseHeader`
    unfoldable pub validate_response_header : Str → Header → Option ResponseRefusal
    unfolding settle_read
    validate_response_header name h =
        settle_read name h.required (h.read o.multi_error input.response)

    -- `Content-Type` is left out.
    headers_loop : List (Str × Header) → Option ResponseRefusal
    unfolding validate_response_header
    headers_loop [] = none
    headers_loop ((name, h) ∷ hs) =
        let rest = headers_loop hs in
        if str_eq name (bytes "Content-Type")
        then rest
        else elim (validate_response_header name h) [ none ↦ rest | some e ↦ some e ]

    settle_visit : BodyVisit → Option ResponseRefusal
    settle_visit (unread e) = some (body_unread e)
    settle_visit (undecodable e) = some (body_undecoded e)
    settle_visit (body_visited none) = none
    settle_visit (body_visited (some e)) = some (body_schema e)

    check_response_media : Option ResponseMedia → Option ResponseRefusal
    unfolding settle_visit
    check_response_media none = some (content_type_unexpected input.content_type)
    check_response_media (some m) =
        if m.has_schema then settle_visit (m.visit o.multi_error input.response) else none

    check_response_body : Response → Option ResponseRefusal
    unfolding check_response_media
    check_response_body r =
        if o.exclude_response_body
        then none
        else if not r.has_content
        then none
        else check_response_media (r.media_of input.content_type)

    after_headers : Response → Option ResponseRefusal → Option ResponseRefusal
    unfolding check_response_body
    after_headers r (some e) = some e
    after_headers r none = check_response_body r

    check_response : Option (Option Response) → Option ResponseRefusal
    unfolding after_headers headers_loop
    check_response none = if o.include_response_status then some status_not_supported else none
    check_response (some none) = some not_resolved
    check_response (some (some r)) = after_headers r (headers_loop r.headers)

    unfoldable pub response_for : Responses → Option (Option Response)
    response_for rs = elim (rs.of_status input.status) [ none ↦ rs.default | some r ↦ some r ]

    -- `ValidateResponse`
    unfoldable pub validate_response : Responses → Option ResponseRefusal
    unfolding check_response response_for
    validate_response rs =
        if str_eq input.method (bytes "HEAD")
        then none
        else if not rs.any
        then none
        else check_response (response_for rs)
