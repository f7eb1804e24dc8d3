-- ===== src/Mid/Recovery.antt =====
-- Errors and panics of a handler that is registered with the middleware of the routes.
use api_firewall.Base.{
  ◌+◌, ◌≡◌, refl, ap, ◌≢◌, Bool, true, false, Option, none, some, List, [], ◌∷◌, arith,
  if◌then◌else◌,
}
use api_firewall.Web.{
  Http, shutdown_error, is_shutdown, Outcome, returned, panicked, Ctx, Handler, Middleware,
  respond_error, status_code-respond_error, wrap_middleware,
}
use api_firewall.Web.App.{handle, signal, wrap_middleware-outermost}
use api_firewall.Mid.{errors, panics, settle_errors, settle_panics, internal_server_error}

abbrev pub wants_shutdown : Outcome → Bool
wants_shutdown (returned (some (shutdown_error s))) = true
wants_shutdown (returned (some e)) = false
wants_shutdown (returned none) = false
wants_shutdown panicked = false

module _ (h : Http) where
  -- What the routes make of what the inner chain ended with.
  recovered : Ctx h × Outcome → Ctx h × Outcome
  recovered r = signal h (settle_errors h (settle_panics h r))

  -- What the end of a request shows: when it fails it is answered by 500, and nothing but a
  -- shutdown error gets past the recovery and raises the signal.
  pub record Contained (inner result : Ctx h × Outcome) : Type 0 where
    pub signals : result.0.signals ≡ inner.0.signals + (if wants_shutdown inner.1 then 1 else 0)
    pub outcome : wants_shutdown inner.1 ≡ false → result.1 ≡ returned none
    pub answer : inner.1 ≢ returned none → h.status_code result.0.response ≡ internal_server_error
    pub upstream : result.0.upstream ≡ inner.0.upstream

  recovered-Contained : (r : Ctx h × Outcome) → Contained r (recovered r)
  unfolding recovered settle_errors settle_panics signal is_shutdown respond_error
  recovered-Contained (c, returned none) = record {
    signals = omega arith;
    outcome = λ e. refl;
    answer = λ e. absurd (e refl);
    upstream = refl;
  }
  recovered-Contained (c, panicked) = record {
    signals = omega arith;
    outcome = λ e. refl;
    answer = λ e. status_code-respond_error h c internal_server_error [];
    upstream = refl;
  }
  recovered-Contained (c, returned (some (shutdown_error s))) = record {
    signals = refl;
    outcome = λ e. cc;
    answer = λ e. status_code-respond_error h c internal_server_error [];
    upstream = refl;
  }
  recovered-Contained (c, returned (some e)) = record {
    signals = omega arith;
    outcome = λ e. refl;
    answer = λ e. status_code-respond_error h c internal_server_error [];
    upstream = refl;
  }

  handle-recovered :
      (mw : List (Option (Middleware h))) (f : Handler h) (c : Ctx h)
      → handle h (some (errors h) ∷ some (panics h) ∷ []) mw f c
        ≡ recovered (wrap_middleware h mw f c)
  unfolding handle recovered errors panics
  handle-recovered mw f c =
      ap (λ g. signal h (g c))
        (wrap_middleware-outermost h (some (errors h) ∷ some (panics h) ∷ [])
          (wrap_middleware h mw f))

  -- A handler registered behind the error and the panic middleware: if what is inside ends with an
  -- error or a panic, the answer is 500, no error is passed on, and no signal is raised unless the
  -- error is the shutdown error; the backend is contacted by the inside alone.
  pub handle-Contained :
      (mw : List (Option (Middleware h))) (f : Handler h) (c : Ctx h)
      → Contained
          (wrap_middleware h mw f c)
          (handle h (some (errors h) ∷ some (panics h) ∷ []) mw f c)
  handle-Contained mw f c =
      rw (handle-recovered mw f c) (recovered-Contained (wrap_middleware h mw f c))
