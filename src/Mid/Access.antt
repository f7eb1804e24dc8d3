-- ===== src/Mid/Access.antt =====
-- Which requests the IP allowlist, the token denylist and the shadow API monitor let through.
use api_firewall.Base.{
  ℕ, ◌+◌, ◌≡◌, refl, ◌∙◌, Bool, true, false, not, ◌&&◌, inl, inr, some, List, [], arith,
  if◌then◌else◌, ltb, str_eq, equal_fold, exists, ◌==◌, Bool-cases,
}
use api_firewall.Web.{
  Http, Outcome, returned, panicked, Ctx, Handler, respond_error, status_code-respond_error,
}
use api_firewall.Mid.{
  IpAllowListOptions, DenylistOptions, ip_allowlist, denylist, shadow_api_monitor, ip_to_check,
  allowed, deny_ip, deny_token, cookie_denied, header_denied, api_mode, graphql_mode, monitor,
  settle_shadow, is_set, respond_graphql_errors,
}

module _ (h : Http) where
  -- The allowlist is in force and does not hold the address of the request.
  abbrev pub is_ip_refused : IpAllowListOptions → Ctx h → Bool
  is_ip_refused o c =
      (o.loaded && ltb 0 o.elements_num) && not (allowed o (o.parse_ip (ip_to_check h o c)))

  -- The denylist is in force and holds the cookie's or the header's token.
  abbrev pub is_token_refused : DenylistOptions → Ctx h → Bool
  is_token_refused o c =
      (o.loaded && ltb 0 o.elements_num)
      && (if cookie_denied h o c then true else header_denied h o c)

  ip_allowlist_lem :
      (o : IpAllowListOptions) (f : Handler h) (c : Ctx h)
      → ip_allowlist h o f c ≡ (if is_ip_refused o c then deny_ip h o c else f c)
  unfolding ip_allowlist
  ip_allowlist_lem o f c = ground arith

  denylist_lem :
      (o : DenylistOptions) (f : Handler h) (c : Ctx h)
      → denylist h o f c ≡ (if is_token_refused o c then deny_token h o c else f c)
  unfolding denylist
  denylist_lem o f c = ground arith

  status_code-graphql :
      (r : h.Response) (code : ℕ) (text : List ℕ)
      → h.status_code (respond_graphql_errors h (h.set_status r code) text) ≡ code
  unfolding respond_graphql_errors
  status_code-graphql r code text =
      h.status_code-write _ text ∙ h.status_code-put _ _ _ ∙ h.status_code-set r code

  deny_ip-upstream : (o : IpAllowListOptions) (c : Ctx h) → (deny_ip h o c).0.upstream ≡ c.upstream
  unfolding deny_ip respond_error
  deny_ip-upstream o c = ground arith

  deny_token-upstream :
      (o : DenylistOptions) (c : Ctx h) → (deny_token h o c).0.upstream ≡ c.upstream
  unfolding deny_token respond_error
  deny_token-upstream o c = ground arith

  deny_ip-status :
      (o : IpAllowListOptions) (c : Ctx h)
      → str_eq o.mode api_mode ≡ false
      → h.status_code (deny_ip h o c).0.response ≡ o.custom_block_status_code
  unfolding deny_ip
  deny_ip-status o c e = rw e (elim (Bool-cases (str_eq o.mode graphql_mode)) [
    | inl g ↦ rw g (status_code-graphql c.response o.custom_block_status_code o.denied_text)
    | inr g ↦ rw g (status_code-respond_error h c o.custom_block_status_code [])
  ])

  deny_token-status :
      (o : DenylistOptions) (c : Ctx h)
      → h.status_code (deny_token h o c).0.response ≡ o.custom_block_status_code
  unfolding deny_token
  deny_token-status o c = elim (Bool-cases (equal_fold o.mode graphql_mode)) [
    | inl g ↦ rw g (status_code-graphql c.response o.custom_block_status_code o.denied_text)
    | inr g ↦ rw g (status_code-respond_error h c o.custom_block_status_code [])
  ]

  -- What becomes of a request behind both lists.
  pub data Admission (o : IpAllowListOptions) (d : DenylistOptions) (f : Handler h) (c : Ctx h)
      (r : Ctx h × Outcome) : Type 0 where
    by_ip :
        is_ip_refused o c ≡ true
        → r.0.upstream ≡ c.upstream
        → (str_eq o.mode api_mode ≡ false → h.status_code r.0.response ≡ o.custom_block_status_code)
        → (str_eq o.mode api_mode ≡ true
            → r.0.values.global_response_status_code ≡ some o.custom_block_status_code)
        → Admission o d f c r
    by_token :
        is_ip_refused o c ≡ false
        → is_token_refused d c ≡ true
        → r.0.upstream ≡ c.upstream
        → h.status_code r.0.response ≡ d.custom_block_status_code
        → Admission o d f c r
    passed :
        is_ip_refused o c ≡ false → is_token_refused d c ≡ false → r ≡ f c → Admission o d f c r

  deny_ip-global :
      (o : IpAllowListOptions) (c : Ctx h)
      → str_eq o.mode api_mode ≡ true
      → (deny_ip h o c).0.values.global_response_status_code ≡ some o.custom_block_status_code
  unfolding deny_ip
  deny_ip-global o c e = rw e

  -- Behind the IP allowlist and the token denylist a request runs the handler, on the context as it
  -- came, exactly if neither refuses it. Else nothing is sent to the backend and the answer is the
  -- configured status code, which the allowlist leaves in the user values in API mode.
  pub access-Admission :
      (o : IpAllowListOptions) (d : DenylistOptions) (f : Handler h) (c : Ctx h)
      → Admission o d f c (ip_allowlist h o (denylist h d f) c)
  access-Admission o d f c = elim (Bool-cases (is_ip_refused o c)) [
    | inl r ↦
        rw (ip_allowlist_lem o (denylist h d f) c, r)
          (by_ip r (deny_ip-upstream o c) (deny_ip-status o c) (deny_ip-global o c))
    | inr p ↦ elim (Bool-cases (is_token_refused d c)) [
      | inl r ↦
          rw (ip_allowlist_lem o (denylist h d f) c, p, denylist_lem d f c, r)
            (by_token p r (deny_token-upstream d c) (deny_token-status d c))
      | inr q ↦
          rw (ip_allowlist_lem o (denylist h d f) c, p, denylist_lem d f c, q) (passed p q refl)
    ]
  ]

  -- What the monitor reports: the backend answered, nothing was blocked, and the status code is
  -- neither in the specification nor excluded.
  abbrev pub is_violation : List ℕ → Ctx h → Bool
  is_violation exclude c =
      not (is_set c.values.request_proxy_failed)
      && not (is_set c.values.request_blocked)
      && is_set c.values.response_status_not_found
      && not (exists (λ code. code == h.status_code c.response) exclude)

  abbrev pub has_returned : Outcome → Bool
  has_returned (returned e) = true
  has_returned panicked = false

  settle_shadow_lem :
      (exclude : List ℕ) (r : Ctx h × Outcome)
      → settle_shadow h exclude r ≡ (
        record (r.0) {
          shadow = r.0.shadow + (if has_returned r.1 && is_violation exclude r.0 then 1 else 0);
        },
        r.1,
      )
  unfolding settle_shadow monitor
  settle_shadow_lem exclude (c, returned e) = ground arith
  settle_shadow_lem exclude (c, panicked) = ground arith

  -- The monitor looks at the answer of the handler and counts one violation exactly if the handler
  -- returned and left a violation; answer, outcome and backend requests stay those of the handler.
  pub shadow_api_monitor_lem :
      (exclude : List ℕ) (f : Handler h) (c : Ctx h)
      → shadow_api_monitor h exclude f c ≡ (
        record ((f c).0) {
          shadow =
              (f c).0.shadow
              + (if has_returned (f c).1 && is_violation exclude (f c).0 then 1 else 0);
        },
        (f c).1,
      )
  unfolding shadow_api_monitor
  shadow_api_monitor_lem exclude f c = settle_shadow_lem exclude (f c)
