-- ===== src/Waf.antt =====
-- cmd/api-firewall/internal/handlers/proxy/openapi.go: the handler of proxy mode. The conversion of
-- the request, the decompressors and the three validators are parameters, with results in the
-- shape of the errors that the handler tells apart; logging is left out. The validators are total
-- functions: a panic of one, in block mode or in log mode, goes up through the handler to the panics
-- middleware (Mid.antt), and is no case of the handler here.
pub mod Header
pub mod Blocking
pub mod Responses
pub mod Passing
use api_firewall.Base.{
  ℕ, ◌<◌, Bool, true, false, ◌&&◌, ◌||◌, not, Option, none, some, List, [], ◌∷◌, Str, bytes, str_eq,
  to_lower, equal_fold, has_prefix, ltb, ◌==◌, if◌then◌else◌,
}
use api_firewall.Web.{
  Http, Error, Actions, UserValues, Outcome, returned, panicked, Ctx, Handler, respond_error,
  validation_disable, validation_block, validation_log, validation_status,
}
use api_firewall.Web.Bodies.{Body, readable, unreadable, Codec, get_decompressed}
use api_firewall.Pool.{PoolV2, Client, perform}
use Header.{ValidationError, request_error, response_error, get_validation_header}

abbrev pub bad_request : ℕ
bad_request = 400

abbrev pub unsupported_content_type : Str
unsupported_content_type =
    bytes "request body has an error: failed to decode request body: unsupported content type"

abbrev pub no_route_header : Str
no_route_header = bytes "request: customRoute not found"

abbrev pub status_not_supported : Str
status_not_supported = bytes "status is not supported"

pub record Config : Type 0 where
  pub request_validation : Str
  pub response_validation : Str
  pub custom_block_status_code : ℕ
  pub add_validation_status_header : Bool
  pub unknown_parameters_detection : Bool
  pub request_host_header : Str

-- What `ValidateUnknownRequestParameters` found: how many results; its error is only logged.
abbrev pub UnknownCount : Type 0
UnknownCount = ℕ

module _ (h : Http) where
  -- What the handler calls. A validator gets the request or the response with its decoded body.
  pub record Services : Type 0 where
    pub pool : PoolV2
    pub client : Client h
    pub codec : Codec
    pub converts : h.Request → Bool
    pub validate_request : h.Request → Str → Option ValidationError
    pub unknown_parameters : h.Request → UnknownCount
    pub validate_response : h.Request → h.Response → Str → Option ValidationError

  -- Whether the request phase ended the request.
  pub data Phase : Type 0 where
    stopped : Ctx h → Phase
    passed : Ctx h → Phase

  module _ (cfg : Config) (s : Services) where
    -- The endpoint's actions override the validation modes of the configuration.
    unfoldable pub modes : Ctx h → Str × Str
    modes c = elim (c.values.endpoint_actions) [
      | none ↦ (cfg.request_validation, cfg.response_validation)
      | some a ↦ (a.request, a.response)
    ]

    is_options : Option Bool → Bool
    is_options none = false
    is_options (some b) = b

    -- Proxying whose error is only logged.
    pass : Ctx h → Ctx h × Outcome
    pass c = ((perform h s.pool s.client cfg.request_host_header c).0, returned none)

    block_code : ℕ
    block_code = cfg.custom_block_status_code

    unknown_route : Str → Str → Ctx h → Ctx h × Outcome
    unfolding pass block_code
    unknown_route request_mode response_mode c =
        let marked : Ctx h = record c {
          values = record (c.values) { request_proxy_no_route = some true };
        } in
        if equal_fold request_mode validation_block || equal_fold response_mode validation_block
        then (
          respond_error h marked block_code
              (if cfg.add_validation_status_header then no_route_header else []),
          returned none,
        )
        else pass marked

    header_of : Option Str → Str
    header_of none = []
    header_of (some vh) = vh

    -- The request is blocked: with the validation header on the request and the response, if the
    -- option is set and the error has one.
    block_request : Ctx h → ValidationError → Ctx h
    unfolding get_validation_header block_code
    block_request c e =
        let blocked : Ctx h = record c {
          values = record (c.values) { request_blocked = some true };
        } in
        elim (if cfg.add_validation_status_header
          then get_validation_header (h.status_code c.response) (h.resp_content_type c.response)
              (h.content_type c.request) e
          else none) [
            | none ↦ respond_error h blocked block_code []
            | some vh ↦
                respond_error h
                  (record blocked { request = h.add_header c.request validation_status vh })
                  block_code vh
          ]

    detect_unknown : Ctx h → Phase
    unfolding block_code
    detect_unknown c =
        if cfg.unknown_parameters_detection && ltb 0 (s.unknown_parameters c.request)
        then stopped (
            respond_error h
              (record c { values = record (c.values) { request_blocked = some true } }) block_code
              [])
        else passed c

    -- A request error that says that there is no decoder for the content type.
    unfoldable pub is_unsupported : ValidationError → Bool
    is_unsupported (request_error reason param cause has_body text) =
        has_prefix text unsupported_content_type
    is_unsupported _ = false

    block_phase : Ctx h → Option ValidationError → Phase
    unfolding detect_unknown is_unsupported block_request
    block_phase c none = detect_unknown c
    block_phase c (some e) =
        if is_unsupported e then detect_unknown c else stopped (block_request c e)

    -- In log mode unknown parameters that are found are logged, and the request passes.
    log_unknown : Ctx h → Phase
    log_unknown c =
        if cfg.unknown_parameters_detection && ltb 0 (s.unknown_parameters c.request)
        then passed c
        else passed c

    -- In log mode an error of the validator is logged, and the detection follows.
    log_phase : Ctx h → Option ValidationError → Phase
    unfolding log_unknown
    log_phase c none = log_unknown c
    log_phase c (some e) = log_unknown c

    -- The switch on the request mode.
    unfoldable pub request_phase : Str → Str → Ctx h → Phase
    unfolding block_phase log_phase
    request_phase request_mode body c =
        if str_eq (to_lower request_mode) validation_block
        then block_phase c (s.validate_request c.request body)
        else if str_eq (to_lower request_mode) validation_log
        then log_phase c (s.validate_request c.request body)
        else passed c

    block_response : Ctx h → ValidationError → Ctx h
    unfolding get_validation_header block_code
    block_response c e =
        let blocked : Ctx h = record c {
          values = record (c.values) { response_blocked = some true };
        } in
        elim (if cfg.add_validation_status_header
          then get_validation_header (h.status_code c.response) (h.resp_content_type c.response)
              (h.content_type c.request) e
          else none) [
            | none ↦ respond_error h blocked block_code []
            | some vh ↦
                respond_error h
                  (record blocked { response = h.add_resp_header c.response validation_status vh })
                  block_code vh
          ]

    -- In log mode a response with a status that the specification lacks is marked.
    log_response : Ctx h → ValidationError → Ctx h
    log_response c (response_error reason) =
        if str_eq reason status_not_supported
        then record c { values = record (c.values) { response_status_not_found = some true } }
        else c
    log_response c _ = c

    -- The switch on the response mode.
    unfoldable pub response_phase : Str → Str → Ctx h → Ctx h
    unfolding block_response log_response
    response_phase response_mode body c =
        if str_eq (to_lower response_mode) validation_block
        then elim (s.validate_response c.request c.response body) [
          | none ↦ c
          | some e ↦ block_response c e
        ]
        else if str_eq (to_lower response_mode) validation_log
        then elim (s.validate_response c.request c.response body) [
          | none ↦ c
          | some e ↦ log_response c e
        ]
        else c

    unfoldable pub settle_body : Str → Ctx h → Body → Ctx h × Outcome
    unfolding response_phase
    settle_body response_mode c (unreadable e) = (c, returned (some e))
    settle_body response_mode c (readable b) = (response_phase response_mode b c, returned none)

    -- From the answer of the backend on; a proxy error is only logged.
    unfoldable pub settle_answer : Str → Ctx h × Option Error → Ctx h × Outcome
    unfolding settle_body get_decompressed
    settle_answer response_mode (c, some e) = (c, returned none)
    settle_answer response_mode (c, none) =
        settle_body response_mode c
          (get_decompressed s.codec (h.resp_body c.response) (h.resp_content_encoding c.response))

    unfoldable pub settle_phase : Str → Phase → Ctx h × Outcome
    unfolding settle_answer
    settle_phase response_mode (stopped c) = (c, returned none)
    settle_phase response_mode (passed c) =
        settle_answer response_mode (perform h s.pool s.client cfg.request_host_header c)

    validated : Str → Str → Ctx h → Body → Ctx h × Outcome
    unfolding request_phase settle_phase
    validated request_mode response_mode c (unreadable e) = (c, returned (some e))
    validated request_mode response_mode c (readable b) =
        settle_phase response_mode (request_phase request_mode b c)

    with_route : Str → Str → Ctx h → Ctx h × Outcome
    unfolding validated get_decompressed
    with_route request_mode response_mode c =
        if s.converts c.request
        then validated request_mode response_mode c
            (get_decompressed s.codec (h.body c.request) (h.content_encoding c.request))
        else (respond_error h c bad_request [], returned none)

    -- An OPTIONS request to pass, or both validations disabled: no validation at all.
    unfoldable pub skips : Option Bool → Str × Str → Bool
    unfolding is_options
    skips options (request_mode, response_mode) =
        is_options options
        || equal_fold request_mode validation_disable && equal_fold response_mode validation_disable

    dispatch : Bool → Str × Str → Ctx h → Ctx h × Outcome
    unfolding pass unknown_route with_route skips
    dispatch has_route m c =
        if skips c.values.pass_request_options m
        then pass c
        else if has_route
        then with_route m.0 m.1 c
        else unknown_route m.0 m.1 c

    -- `openapiWafHandler`; `has_route` says whether `customRoute` is not nil.
    unfoldable pub openapi_waf_handler : Bool → Handler h
    unfolding dispatch modes
    openapi_waf_handler has_route c = dispatch has_route (modes c) c
