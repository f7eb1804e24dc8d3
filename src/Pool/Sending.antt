-- ===== src/Pool/Sending.antt =====
-- What `Perform` does to the context of a request.
use api_firewall.Base.{
  ◌≡◌, refl, true, false, ◌⊎◌, inl, inr, Option, none, some, [], ◌∷◌, Str, arith, Bool-cases, subst,
  sym, ◌≢◌, ◌∙◌,
}
use api_firewall.Web.{
  Http, Error, dial_timeout, no_free_conns, pool_closed, Ctx, respond_error,
  status_code-respond_error,
}
use api_firewall.Pool.{PoolV2, Client, perform, send, settle_do, set_host, error_status}

module _ (h : Http) where
  -- What is left when the client answered a request sent as `r`.
  pub record Sent (c : Ctx h) (r : h.Request) (answer : h.Response × Option Error)
      (result : Ctx h × Option Error) : Type 0 where
    pub upstream : result.0.upstream ≡ r ∷ c.upstream
    pub error : result.1 ≡ answer.1
    pub replied : answer.1 ≡ none → result.0.response ≡ answer.0
    pub not_failed :
        answer.1 ≡ none → result.0.values.request_proxy_failed ≡ c.values.request_proxy_failed
    pub failed : answer.1 ≢ none → result.0.values.request_proxy_failed ≡ some true
    pub timeout : answer.1 ≡ some dial_timeout → h.status_code result.0.response ≡ 504
    pub no_conns : answer.1 ≡ some no_free_conns → h.status_code result.0.response ≡ 503
    pub gateway :
        answer.1 ≢ none
        → answer.1 ≢ some dial_timeout
        → answer.1 ≢ some no_free_conns
        → h.status_code result.0.response ≡ 502
    pub blocked : result.0.values.request_blocked ≡ c.values.request_blocked
    pub response_blocked : result.0.values.response_blocked ≡ c.values.response_blocked

  error_status-timeout : (e : Error) → some e ≡ some dial_timeout → error_status h e ≡ 504
  unfolding error_status
  error_status-timeout e q = ground arith

  error_status-no_conns : (e : Error) → some e ≡ some no_free_conns → error_status h e ≡ 503
  unfolding error_status
  error_status-no_conns e q = ground arith

  error_status-gateway :
      (e : Error)
      → some e ≢ some dial_timeout
      → some e ≢ some no_free_conns
      → error_status h e ≡ 502
  unfolding error_status
  error_status-gateway e p q = ground arith

  settle_do-Sent :
      (c : Ctx h) (r : h.Request) (answer : h.Response × Option Error)
      → Sent c r answer (settle_do h (record c { request = r; upstream = r ∷ c.upstream }) answer)
  unfolding settle_do respond_error
  settle_do-Sent c r (resp, none) = record {
    upstream = refl;
    error = refl;
    replied = λ e. refl;
    not_failed = λ e. refl;
    failed = λ e. absurd (e refl);
    timeout = λ e. cc;
    no_conns = λ e. cc;
    gateway = λ e. absurd (e refl);
    blocked = refl;
    response_blocked = refl;
  }
  settle_do-Sent c r (resp, some e) =
      let failing : Ctx h = record c {
        request = r;
        response = resp;
        values = record (c.values) { request_proxy_failed = some true };
        upstream = r ∷ c.upstream;
      } in
      let status = status_code-respond_error h failing (error_status h e) [] in
      record {
        upstream = refl;
        error = refl;
        replied = λ q. cc;
        not_failed = λ q. cc;
        failed = λ q. refl;
        timeout = λ q. status ∙ error_status-timeout e q;
        no_conns = λ q. status ∙ error_status-no_conns e q;
        gateway = λ n p q. status ∙ error_status-gateway e p q;
        blocked = refl;
        response_blocked = refl;
      }

  perform-closed :
      (pool : PoolV2) (client : Client h) (host : Str) (c : Ctx h)
      → pool.closed ≡ true
      → perform h pool client host c ≡ (c, some pool_closed)
  unfolding perform
  perform-closed pool client host c e = rw e

  perform-open :
      (pool : PoolV2) (client : Client h) (host : Str) (c : Ctx h)
      → pool.closed ≡ false
      → perform h pool client host c ≡ send h client host c
  unfolding perform
  perform-open pool client host c e = rw e

  send-Sent :
      (client : Client h) (host : Str) (c : Ctx h)
      → let r = set_host h host c.request in
        Sent c r (client.do_request r c.response) (send h client host c)
  unfolding send
  send-Sent client host c =
      let r = set_host h host c.request in settle_do-Sent c r (client.do_request r c.response)

  -- `Perform` on a closed pool sends nothing and leaves the context as it was. On an open pool it
  -- sends one request, with the custom host in place if there is one; the client's answer is the
  -- response, and on the client's error the proxy-failed mark is set and the status code is 504 for
  -- a dial timeout, 503 with no free connection and 502 else.
  pub perform-Sent :
      (pool : PoolV2) (client : Client h) (host : Str) (c : Ctx h)
      → ((pool.closed ≡ true) × (perform h pool client host c ≡ (c, some pool_closed)))
        ⊎ ((pool.closed ≡ false)
            × Sent c
                (set_host h host c.request)
                (client.do_request (set_host h host c.request) c.response)
                (perform h pool client host c))
  unfolding perform
  perform-Sent pool client host c = elim (Bool-cases (pool.closed)) [
    | inl e ↦ inl (e, perform-closed pool client host c e)
    | inr e ↦
        inr (
          e,
          subst (Sent c _ _) (sym (perform-open pool client host c e)) (send-Sent client host c),
        )
  ]
