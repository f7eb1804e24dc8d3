-- ===== src/Waf/Blocking.antt =====
-- What stops a request in block mode.
use api_firewall.Base.{
  ◌≡◌, refl, sym, subst, ap, ◌∙◌, Bool, true, false, ◌&&◌, ◌||◌, not, inl, inr, Option, none, some,
  [], Str, str_eq, to_lower, arith, Bool-cases, Option-cases, if◌then◌else◌, ltb,
}
use api_firewall.Web.{
  validation_log, Http, Outcome, returned, Ctx, respond_error, status_code-respond_error,
  validation_block,
}
use api_firewall.Web.Bodies.{Body, readable, get_decompressed}
use api_firewall.Pool.{perform}
use api_firewall.Waf.{
  Config, Services, Phase, stopped, passed, modes, skips, with_route, dispatch, validated,
  log_phase, log_unknown, settle_phase, request_phase, block_phase, detect_unknown, block_request,
  is_unsupported, openapi_waf_handler,
}
use api_firewall.Waf.Passing.{settle_answer-upstream}
use api_firewall.Waf.Header.{ValidationError, get_validation_header}

module _ (h : Http) (cfg : Config) (s : Services h) where
  -- A request that was stopped on the way: nothing was sent and the answer is the block code.
  pub record Blocked (c : Ctx h) (result : Ctx h × Outcome) : Type 0 where
    pub unsent : result.0.upstream ≡ c.upstream
    pub status : h.status_code result.0.response ≡ cfg.custom_block_status_code
    pub marked : result.0.values.request_blocked ≡ some true
    pub outcome : result.1 ≡ returned none

  -- The body of the request as the validators read it.
  abbrev pub request_body : Ctx h → Body
  request_body c = get_decompressed s.codec (h.body c.request) (h.content_encoding c.request)

  -- What the validators object to in a request with a decoded body: an error, unless it only says
  -- that no decoder knows the content type, or parameters that the specification lacks.
  abbrev pub is_objected : Ctx h → Str → Bool
  is_objected c body =
      let unknown = cfg.unknown_parameters_detection && ltb 0 (s.unknown_parameters c.request) in
      elim (s.validate_request c.request body) [
        | none ↦ unknown
        | some e ↦ not (is_unsupported h cfg s e) || unknown
      ]

  respond_error-Blocked :
      (c c' : Ctx h) (vh : Str)
      → c'.upstream ≡ c.upstream
      → c'.values.request_blocked ≡ some true
      → Blocked c (respond_error h c' cfg.custom_block_status_code vh, returned none)
  unfolding respond_error
  respond_error-Blocked c c' vh u b = record {
    unsent = u;
    status = status_code-respond_error h c' cfg.custom_block_status_code vh;
    marked = b;
    outcome = refl;
  }

  block_request-Blocked :
      (c : Ctx h) (e : ValidationError) → Blocked c (block_request h cfg s c e, returned none)
  unfolding block_request
  block_request-Blocked c e =
      elim (Option-cases (
        if cfg.add_validation_status_header
        then get_validation_header (h.status_code c.response) (h.resp_content_type c.response)
            (h.content_type c.request) e
        else none)) [
          | inl q ↦ rw (q, block_request) (respond_error-Blocked c _ [] refl refl)
          | inr (vh, q) ↦ rw (q, block_request) (respond_error-Blocked c _ vh refl refl)
        ]

  -- The phase stopped the request.
  abbrev Stops : Ctx h → Phase h → Type 0
  Stops c (stopped c') = Blocked c (c', returned none)
  Stops c (passed c') = ⊥

  abbrev has_unknown : Ctx h → Bool
  has_unknown c = cfg.unknown_parameters_detection && ltb 0 (s.unknown_parameters c.request)

  detect_unknown-Stops : (c : Ctx h) → has_unknown c ≡ true → Stops c (detect_unknown h cfg s c)
  unfolding detect_unknown
  detect_unknown-Stops c e = rw e (respond_error-Blocked c _ [] refl refl)

  detect_unknown-passed : (c : Ctx h) → has_unknown c ≡ false → detect_unknown h cfg s c ≡ passed c
  unfolding detect_unknown
  detect_unknown-passed c e = rw e

  objected : Ctx h → Option ValidationError → Bool
  objected c none = has_unknown c
  objected c (some e) = not (is_unsupported h cfg s e) || has_unknown c

  block_phase-Stops :
      (c : Ctx h) (o : Option ValidationError)
      → objected c o ≡ true
      → Stops c (block_phase h cfg s c o)
  unfolding block_phase objected
  block_phase-Stops c none e = detect_unknown-Stops c e
  block_phase-Stops c (some v) e = elim (Bool-cases (is_unsupported h cfg s v)) [
    | inl u ↦ rw u (detect_unknown-Stops c (rw u at e))
    | inr u ↦ rw u (block_request-Blocked c v)
  ]

  block_phase-passed :
      (c : Ctx h) (o : Option ValidationError)
      → objected c o ≡ false
      → block_phase h cfg s c o ≡ passed c
  unfolding block_phase objected
  block_phase-passed c none e = detect_unknown-passed c e
  block_phase-passed c (some v) e =
      let u : is_unsupported h cfg s v ≡ true = ground arith in
      rw u (detect_unknown-passed c (ground arith))

  is_objected_lem :
      (c : Ctx h) (body : Str) → is_objected c body ≡ objected c (s.validate_request c.request body)
  unfolding objected
  is_objected_lem c body = ground arith

  settle_phase-Blocked :
      (mode : Str) (c : Ctx h) (p : Phase h) → Stops c p → Blocked c (settle_phase h cfg s mode p)
  unfolding settle_phase
  settle_phase-Blocked mode c (stopped c') b = b
  settle_phase-Blocked mode c (passed c') b = absurd b

  with_route-validated :
      (request_mode response_mode : Str) (c : Ctx h) (b : Body)
      → s.converts c.request ≡ true
      → request_body c ≡ b
      → with_route h cfg s request_mode response_mode c
        ≡ validated h cfg s request_mode response_mode c b
  unfolding with_route
  with_route-validated request_mode response_mode c b v e =
      rw v (ap (validated h cfg s request_mode response_mode c) e)

  dispatch-route :
      (m : Str × Str) (c : Ctx h)
      → skips h cfg s c.values.pass_request_options m ≡ false
      → dispatch h cfg s true m c ≡ with_route h cfg s m.0 m.1 c
  unfolding dispatch
  dispatch-route m c k = rw k

  -- The handler as far as the body: a route, a request that converts, and validation in force.
  pub handler-validated :
      (c : Ctx h) (body : Str)
      → skips h cfg s c.values.pass_request_options (modes h cfg s c) ≡ false
      → s.converts c.request ≡ true
      → request_body c ≡ readable body
      → openapi_waf_handler h cfg s true c
        ≡ settle_phase h cfg s
            (modes h cfg s c).1
            (request_phase h cfg s (modes h cfg s c).0 body c)
  unfolding openapi_waf_handler
  handler-validated c body k v b =
      dispatch-route (modes h cfg s c) c k
      ∙ with_route-validated (modes h cfg s c).0 (modes h cfg s c).1 c (readable body) v b

  request_phase-block :
      (mode body : Str) (c : Ctx h)
      → str_eq (to_lower mode) validation_block ≡ true
      → request_phase h cfg s mode body c
        ≡ block_phase h cfg s c (s.validate_request c.request body)
  unfolding request_phase
  request_phase-block mode body c m = rw m

  -- In log mode every request passes the phase.
  log_phase-passed : (c : Ctx h) (o : Option ValidationError) → log_phase h cfg s c o ≡ passed c
  unfolding log_phase log_unknown
  log_phase-passed c none = ground arith
  log_phase-passed c (some e) = ground arith

  pub request_phase-passed :
      (mode body : Str) (c : Ctx h)
      → (str_eq (to_lower mode) validation_block && is_objected c body) ≡ false
      → request_phase h cfg s mode body c ≡ passed c
  unfolding request_phase
  request_phase-passed mode body c e = elim (Bool-cases (str_eq (to_lower mode) validation_block)) [
    | inl m ↦ rw m (
        block_phase-passed c (s.validate_request c.request body)
          (sym (is_objected_lem c body) ∙ rw m at e))
    | inr m ↦ elim (Bool-cases (str_eq (to_lower mode) validation_log)) [
      | inl l ↦ rw (m, l) (log_phase-passed c (s.validate_request c.request body))
      | inr l ↦ rw (m, l)
    ]
  ]

  settle_phase-passed :
      (mode : Str) (c : Ctx h) (p : Phase h)
      → p ≡ passed c
      → (settle_phase h cfg s mode p).0.upstream
        ≡ (perform h s.pool s.client cfg.request_host_header c).0.upstream
  unfolding settle_phase
  settle_phase-passed mode c p e = rw e (settle_answer-upstream h cfg s mode _)

  -- With a route and validation in force, in block mode: a request that the validators object to is
  -- answered by the block code and nothing of it is sent, and any other is sent as it came.
  pub block_mode-Blocked :
      (c : Ctx h) (body : Str)
      → skips h cfg s c.values.pass_request_options (modes h cfg s c) ≡ false
      → s.converts c.request ≡ true
      → request_body c ≡ readable body
      → str_eq (to_lower (modes h cfg s c).0) validation_block ≡ true
      → (is_objected c body ≡ true → Blocked c (openapi_waf_handler h cfg s true c))
        × (is_objected c body ≡ false
            → (openapi_waf_handler h cfg s true c).0.upstream
              ≡ (perform h s.pool s.client cfg.request_host_header c).0.upstream)
  block_mode-Blocked c body k v b m =
      let e = handler-validated c body k v b in
      let step = request_phase-block (modes h cfg s c).0 body c m in
      let o' = is_objected_lem c body in
      (
        λ o. subst (Blocked c) (sym e) (
            settle_phase-Blocked (modes h cfg s c).1 c _ (
              subst (Stops c) (sym step)
                (block_phase-Stops c (s.validate_request c.request body) (sym o' ∙ o)))),
        λ o.
            ap (λ x. x.0.upstream) e
            ∙ settle_phase-passed (modes h cfg s c).1 c _
                (step ∙ block_phase-passed c (s.validate_request c.request body) (sym o' ∙ o)),
      )
