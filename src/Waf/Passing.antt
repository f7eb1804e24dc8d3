-- ===== src/Waf/Passing.antt =====
-- What reaches the backend, whatever the validators say.
use api_firewall.Base.{
  ◌≡◌, refl, sym, ap, ◌∙◌, Bool, true, ◌||◌, ◌⊎◌, inl, inr, Option, none, some, List, ◌∷◌, Str,
  equal_fold, arith, Bool-cases,
}
use api_firewall.Web.{Http, Error, Ctx, respond_error, validation_block}
use api_firewall.Web.Bodies.{Body, readable, unreadable}
use api_firewall.Pool.{perform}
use api_firewall.Pool.Sending.{perform-Sent}
use api_firewall.Waf.{
  Config, Services, Phase, stopped, passed, modes, skips, pass, unknown_route, with_route, dispatch,
  validated, settle_phase, settle_answer, settle_body, request_phase, response_phase, block_phase,
  detect_unknown, block_request, block_response, log_response, openapi_waf_handler,
}

module _ (h : Http) where
  -- At most one request was sent between two moments.
  abbrev pub SentOnce : List h.Request → List h.Request → Type 0
  SentOnce before after = (after ≡ before) ⊎ ((r : h.Request) × (after ≡ r ∷ before))

  module _ (cfg : Config) (s : Services h) where
    perform-SentOnce :
        (c : Ctx h)
        → SentOnce c.upstream (perform h s.pool s.client cfg.request_host_header c).0.upstream
    perform-SentOnce c = elim (perform-Sent h s.pool s.client cfg.request_host_header c) [
      | inl (e, same) ↦ inl (ap (λ x. x.0.upstream) same)
      | inr (e, sent) ↦ inr (_, sent.upstream)
    ]

    response_phase-upstream :
        (mode body : Str) (c : Ctx h) → (response_phase h cfg s mode body c).upstream ≡ c.upstream
    unfolding response_phase block_response log_response respond_error
    response_phase-upstream mode body c = ground arith

    settle_body-upstream :
        (mode : Str) (c : Ctx h) (b : Body) → (settle_body h cfg s mode c b).0.upstream ≡ c.upstream
    unfolding settle_body
    settle_body-upstream mode c (readable b) = response_phase-upstream mode b c
    settle_body-upstream mode c (unreadable e) = refl

    pub settle_answer-upstream :
        (mode : Str) (x : Ctx h × Option Error)
        → (settle_answer h cfg s mode x).0.upstream ≡ x.0.upstream
    unfolding settle_answer
    settle_answer-upstream mode (c, some e) = refl
    settle_answer-upstream mode (c, none) = settle_body-upstream mode c _

    -- The context of a phase has sent nothing.
    abbrev pub phase_upstream : Phase h → List h.Request
    phase_upstream (stopped c) = c.upstream
    phase_upstream (passed c) = c.upstream

    request_phase-upstream :
        (mode body : Str) (c : Ctx h)
        → phase_upstream (request_phase h cfg s mode body c) ≡ c.upstream
    unfolding request_phase block_phase detect_unknown block_request respond_error
    request_phase-upstream mode body c = ground arith

    SentOnce-before : (a b c : List h.Request) → a ≡ b → SentOnce b c → SentOnce a c
    SentOnce-before a b c e (inl p) = inl (p ∙ sym e)
    SentOnce-before a b c e (inr (r, p)) = inr (r, p ∙ ap (λ t. r ∷ t) (sym e))

    SentOnce-after : (a b c : List h.Request) → c ≡ b → SentOnce a b → SentOnce a c
    SentOnce-after a b c e (inl p) = inl (e ∙ p)
    SentOnce-after a b c e (inr (r, p)) = inr (r, e ∙ p)

    settle_phase-SentOnce :
        (mode : Str) (c : Ctx h) (p : Phase h)
        → phase_upstream p ≡ c.upstream
        → SentOnce c.upstream (settle_phase h cfg s mode p).0.upstream
    unfolding settle_phase
    settle_phase-SentOnce mode c (stopped c') e = inl e
    settle_phase-SentOnce mode c (passed c') e =
        SentOnce-after c.upstream _ _ (settle_answer-upstream mode _)
          (SentOnce-before c.upstream c'.upstream _ (sym e) (perform-SentOnce c'))

    validated-SentOnce :
        (request_mode response_mode : Str) (c : Ctx h) (b : Body)
        → SentOnce c.upstream (validated h cfg s request_mode response_mode c b).0.upstream
    unfolding validated
    validated-SentOnce request_mode response_mode c (unreadable e) = inl refl
    validated-SentOnce request_mode response_mode c (readable b) =
        settle_phase-SentOnce response_mode c (request_phase h cfg s request_mode b c)
          (request_phase-upstream request_mode b c)

    with_route-SentOnce :
        (request_mode response_mode : Str) (c : Ctx h)
        → SentOnce c.upstream (with_route h cfg s request_mode response_mode c).0.upstream
    unfolding with_route respond_error
    with_route-SentOnce request_mode response_mode c = elim (Bool-cases (s.converts c.request)) [
      | inl e ↦ rw e (validated-SentOnce request_mode response_mode c _)
      | inr e ↦ rw e (inl refl)
    ]

    unknown_route-SentOnce :
        (request_mode response_mode : Str) (c : Ctx h)
        → SentOnce c.upstream (unknown_route h cfg s request_mode response_mode c).0.upstream
    unfolding unknown_route pass respond_error
    unknown_route-SentOnce request_mode response_mode c =
        elim (Bool-cases
          (equal_fold request_mode validation_block || equal_fold response_mode validation_block)) [
            | inl e ↦ rw e (inl refl)
            | inr e ↦ rw e (
                perform-SentOnce
                  (record c { values = record (c.values) { request_proxy_no_route = some true } }))
          ]

    dispatch-SentOnce :
        (has_route : Bool) (m : Str × Str) (c : Ctx h)
        → SentOnce c.upstream (dispatch h cfg s has_route m c).0.upstream
    unfolding dispatch pass
    dispatch-SentOnce has_route m c =
        elim (Bool-cases (skips h cfg s c.values.pass_request_options m)) [
          | inl e ↦ rw e (perform-SentOnce c)
          | inr e ↦ elim (Bool-cases has_route) [
            | inl r ↦ rw (e, r) (with_route-SentOnce m.0 m.1 c)
            | inr r ↦ rw (e, r) (unknown_route-SentOnce m.0 m.1 c)
          ]
        ]

    -- Whatever the configuration and the validators, the handler sends one request to the backend
    -- at most.
    pub openapi_waf_handler-SentOnce :
        (has_route : Bool) (c : Ctx h)
        → SentOnce c.upstream (openapi_waf_handler h cfg s has_route c).0.upstream
    unfolding openapi_waf_handler
    openapi_waf_handler-SentOnce has_route c = dispatch-SentOnce has_route (modes h cfg s c) c
