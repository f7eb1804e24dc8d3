-- ===== src/Web/App.antt =====
-- internal/platform/web/web.go and middleware.go: the application that routes a request to its
-- handler, and the chain of middleware. The read lock of a registered handler is left out, and the
-- router is the lookup `find`.
use api_firewall.Base.{
  ℕ, suc, ◌+◌, ◌≡◌, refl, ap, Bool, true, ◌&&◌, Option, none, some, List, [], ◌∷◌, Str, bytes,
  str_eq, if◌then◌else◌, get_or, length, zero, ◌∙◌,
}
use api_firewall.Web.{
  Http, Actions, UserValues, Outcome, returned, panicked, Ctx, Handler, Middleware, respond_error,
  wrap_middleware, wrap_down, apply,
}

abbrev pub method_options : Str
method_options = bytes "OPTIONS"

abbrev pub graphql_mode : Str
graphql_mode = bytes "graphql"

abbrev pub header_allow : Str
header_allow = bytes "Allow"

abbrev pub forbidden : ℕ
forbidden = 403

module _ (h : Http) where
  -- `SignalShutdown` on an error, else the outcome as it is: the end of a registered handler.
  unfoldable pub signal : Ctx h × Outcome → Ctx h × Outcome
  signal (c, returned none) = (c, returned none)
  signal (c, returned (some e)) = (record c { signals = c.signals + 1 }, returned (some e))
  signal (c, panicked) = (c, panicked)

  -- The handler that `Handle` registers: its own middleware, the application's around it.
  unfoldable pub handle :
      List (Option (Middleware h)) → List (Option (Middleware h)) → Handler h → Handler h
  unfolding signal
  handle app_mw mw handler c = signal (wrap_middleware h app_mw (wrap_middleware h mw handler) c)

  -- What `FindWithActions` gives for a method and a path: handler, actions and URL parameters.
  pub record Found : Type 0 where
    pub handler : Option (Handler h)
    pub actions : Option Actions
    pub params : List (Str × Str)

  pub record App : Type 0 where
    pub mode : Str
    pub pass_options : Bool
    pub default_handler : Handler h
    pub find : Str → Str → Found

  set_actions : Option Actions → UserValues → UserValues
  set_actions none v = v
  set_actions (some a) v = record v { endpoint_actions = some a }

  -- The error of a handler is logged, a panic is recovered from.
  settle_default : Ctx h × Outcome → Ctx h
  settle_default (c, o) = c

  -- The deletion of the Allow header is not reached on a panic.
  settle_found : Ctx h × Outcome → Ctx h
  settle_found (c, returned e) = record c { response = h.del_resp_header c.response header_allow }
  settle_found (c, panicked) = c

  not_found : App → Ctx h → Ctx h
  unfolding settle_default
  not_found app c =
      if app.pass_options && str_eq (h.method c.request) method_options
      then settle_default (
          app.default_handler
            (record c { values = record (c.values) { pass_request_options = some true } }))
      else if str_eq app.mode graphql_mode
      then respond_error h c forbidden []
      else settle_default (app.default_handler c)

  route : App → Found → Ctx h → Ctx h
  unfolding not_found settle_found
  route app found c = elim found.handler [
    | none ↦ not_found app c
    | some f ↦
        settle_found
          (f (record c { values = record (c.values) { route_params = some found.params } }))
  ]

  -- `MainHandler`; `uuid` is the new request id.
  unfoldable pub main_handler : App → Str → Ctx h → Ctx h
  unfolding route set_actions
  main_handler app uuid c =
      let found = app.find (h.method c.request) (h.path c.request) in
      let v = record (c.values) { request_id = some uuid } in
      route app found (record c { values = set_actions found.actions v })

  -- The first middleware of a list is the outermost.
  abbrev pub outermost : List (Option (Middleware h)) → Handler h → Handler h
  outermost [] handler = handler
  outermost (none ∷ mw) handler = outermost mw handler
  outermost (some m ∷ mw) handler = m (outermost mw handler)

  wrap_down-suc :
      (i : ℕ) (m : Option (Middleware h)) (mw : List (Option (Middleware h))) (handler : Handler h)
      → wrap_down h (suc i) (m ∷ mw) handler ≡ apply h m (wrap_down h i mw handler)
  unfolding wrap_down
  wrap_down-suc zero m mw handler = refl
  wrap_down-suc (suc i) m mw handler = wrap_down-suc i m mw (apply h (get_or mw i none) handler)

  -- Requests meet the middleware of a list in the order given, around the handler, and a nil entry
  -- changes nothing.
  pub wrap_middleware-outermost :
      (mw : List (Option (Middleware h))) (handler : Handler h)
      → wrap_middleware h mw handler ≡ outermost mw handler
  unfolding wrap_middleware
  wrap_middleware-outermost [] handler = refl
  wrap_middleware-outermost (none ∷ mw) handler =
      wrap_down-suc (length mw) none mw handler ∙ wrap_middleware-outermost mw handler
  wrap_middleware-outermost (some m ∷ mw) handler =
      wrap_down-suc (length mw) (some m) mw handler ∙ ap m (wrap_middleware-outermost mw handler)
