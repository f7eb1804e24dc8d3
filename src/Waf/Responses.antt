-- ===== src/Waf/Responses.antt =====
-- What stops a response in block mode.
use api_firewall.Base.{
  ◌≡◌, refl, sym, subst, ap, ◌∙◌, true, false, ◌&&◌, inl, inr, none, some, [], Str, str_eq,
  to_lower, arith, Option-cases, ◌⊎◌, Option, if◌then◌else◌,
}
use api_firewall.Web.{
  Http, returned, Ctx, add_status_header, respond_error, status_code-respond_error,
  respond_error_frame, validation_block,
}
use api_firewall.Web.Bodies.{readable, get_decompressed}
use api_firewall.Pool.{perform}
use api_firewall.Waf.{
  Config, Services, Phase, passed, modes, skips, settle_phase, settle_answer, settle_body,
  response_phase, block_response, openapi_waf_handler,
}
use api_firewall.Waf.Header.{ValidationError, get_validation_header}
use api_firewall.Waf.Blocking.{is_objected, request_body, handler-validated, request_phase-passed}

module _ (h : Http) (cfg : Config) (s : Services h) where
  response_phase-block :
      (mode body : Str) (c : Ctx h) (v : ValidationError)
      → str_eq (to_lower mode) validation_block ≡ true
      → s.validate_response c.request c.response body ≡ some v
      → response_phase h cfg s mode body c ≡ block_response h cfg s c v
  unfolding response_phase
  response_phase-block mode body c v m e = rw (m, e)

  response_phase-valid :
      (mode body : Str) (c : Ctx h)
      → s.validate_response c.request c.response body ≡ none
      → response_phase h cfg s mode body c ≡ c
  unfolding response_phase
  response_phase-valid mode body c e = ground arith

  -- The value of the validation header for an error, if the option is set and the error has one.
  abbrev pub validation_header : Ctx h → ValidationError → Option Str
  validation_header c e =
      if cfg.add_validation_status_header
      then get_validation_header (h.status_code c.response) (h.resp_content_type c.response)
          (h.content_type c.request) e
      else none

  -- A response that was blocked for an error: it is replaced by the block code, with no body and no
  -- header but the validation header. It is the same whatever the backend's response was.
  pub record Replaced (c : Ctx h) (e : ValidationError) (result : Ctx h) : Type 0 where
    pub sent : result.upstream ≡ c.upstream
    pub header : Str
    pub explains :
        ((validation_header c e ≡ none) × (header ≡ [])) ⊎ (validation_header c e ≡ some header)
    pub response :
        (other : h.Response)
        → result.response
          ≡ (respond_error h
              (record c { response = other })
              cfg.custom_block_status_code
              header).response
    pub status : h.status_code result.response ≡ cfg.custom_block_status_code
    pub marked : result.values.response_blocked ≡ some true

  respond_error-Replaced :
      (c c' : Ctx h) (e : ValidationError) (vh : Str)
      → ((validation_header c e ≡ none) × (vh ≡ [])) ⊎ (validation_header c e ≡ some vh)
      → c'.upstream ≡ c.upstream
      → c'.values.response_blocked ≡ some true
      → Replaced c e (respond_error h c' cfg.custom_block_status_code vh)
  unfolding respond_error
  respond_error-Replaced c c' e vh x u b =
      let (sent, values, same) = respond_error_frame h c' cfg.custom_block_status_code vh in
      record {
        sent = sent ∙ u;
        header = vh;
        explains = x;
        response = λ other.
            ap (λ r. add_status_header h r vh)
              (h.error-resets c'.response other [] cfg.custom_block_status_code);
        status = status_code-respond_error h c' cfg.custom_block_status_code vh;
        marked = ap (λ v. v.response_blocked) values ∙ b;
      }

  block_response-Replaced :
      (c : Ctx h) (e : ValidationError) → Replaced c e (block_response h cfg s c e)
  unfolding block_response
  block_response-Replaced c e = elim (Option-cases (validation_header c e)) [
    | inl q ↦ rw (q, block_response) (respond_error-Replaced c _ e [] (inl (q, refl)) refl refl)
    | inr (vh, q) ↦ rw (q, block_response) (respond_error-Replaced c _ e vh (inr q) refl refl)
  ]

  settle_answer-readable :
      (mode body : Str) (c : Ctx h)
      → get_decompressed s.codec (h.resp_body c.response) (h.resp_content_encoding c.response)
        ≡ readable body
      → settle_answer h cfg s mode (c, none) ≡ (response_phase h cfg s mode body c, returned none)
  unfolding settle_answer settle_body
  settle_answer-readable mode body c e = ap (settle_body h cfg s mode c) e

  settle_phase-answer :
      (mode body : Str) (c c' : Ctx h) (p : Phase h)
      → p ≡ passed c
      → perform h s.pool s.client cfg.request_host_header c ≡ (c', none)
      → get_decompressed s.codec (h.resp_body c'.response) (h.resp_content_encoding c'.response)
        ≡ readable body
      → settle_phase h cfg s mode p ≡ (response_phase h cfg s mode body c', returned none)
  unfolding settle_phase
  settle_phase-answer mode body c c' p e q a =
      ap (settle_phase h cfg s mode) e
      ∙ ap (settle_answer h cfg s mode) q
      ∙ settle_answer-readable mode body c' a

  -- A backend's answer that can be read, in response block mode, after a request that was not
  -- checked in block mode or passed its checks: of an answer that does not fit the specification
  -- nothing reaches the client, neither headers nor body. The client gets the block code with no body,
  -- and the validation header if it is to be added and the error has one. An answer that fits is
  -- passed on as it is.
  pub block_mode-Replaced :
      (c c' : Ctx h) (body answer : Str)
      → skips h cfg s c.values.pass_request_options (modes h cfg s c) ≡ false
      → s.converts c.request ≡ true
      → request_body h cfg s c ≡ readable body
      → (str_eq (to_lower (modes h cfg s c).0) validation_block && is_objected h cfg s c body)
        ≡ false
      → perform h s.pool s.client cfg.request_host_header c ≡ (c', none)
      → get_decompressed s.codec (h.resp_body c'.response) (h.resp_content_encoding c'.response)
        ≡ readable answer
      → str_eq (to_lower (modes h cfg s c).1) validation_block ≡ true
      → ((v : ValidationError)
          → s.validate_response c'.request c'.response answer ≡ some v
          → Replaced c' v (openapi_waf_handler h cfg s true c).0)
        × (s.validate_response c'.request c'.response answer ≡ none
            → (openapi_waf_handler h cfg s true c).0 ≡ c')
  block_mode-Replaced c c' body answer k conv b fine p a m =
      let e =
        handler-validated h cfg s c body k conv b
        ∙ settle_phase-answer (modes h cfg s c).1 answer c c' _
            (request_phase-passed h cfg s (modes h cfg s c).0 body c fine) p a in
      (
        λ v q.
            subst (λ x. Replaced c' v x.0) (sym e)
              (subst (Replaced c' v)
                (sym (response_phase-block (modes h cfg s c).1 answer c' v m q))
                (block_response-Replaced c' v)),
        λ q. ap (λ x. x.0) e ∙ response_phase-valid (modes h cfg s c).1 answer c' q,
      )
