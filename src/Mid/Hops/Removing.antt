-- ===== src/Mid/Hops/Removing.antt =====
-- Which headers are left in the request that the next handler is given.
use api_firewall.Base.{
  ◌≡◌, refl, subst, ap, ◌∙◌, sym, true, false, none, some, List, [], ◌∷◌, ◌++◌, Str, bytes, str_eq,
  str_eq_refl, to_lower, equal_fold, Option-cases, ◌⊎◌, All, Bool-cases, inl, inr, arith,
}
use api_firewall.Web.{Http, Outcome, returned, panicked, Ctx, Handler, validation_block}
use api_firewall.Mid.{graphql_mode}
use api_firewall.Mid.Hops.{
  apifw_header_name, hop_headers, ac_header, xff_header, ProxyOptions, delete_hops, update_uri,
  remote_ip, forward, accept, rewrite, settle_hops, go_on, identify, proxy,
}

module _ (h : Http) where
  -- No header of the list is in the request.
  abbrev pub NoHeaders : List Str → h.Request → Type 0
  NoHeaders ks r = All (λ k. h.peek r k ≡ none) ks

  peek-del_none :
      (r : h.Request) (k j : Str) → h.peek r j ≡ none → h.peek (h.del_header r k) j ≡ none
  peek-del_none r k j e =
      h.peek-del r k j ∙ (elim (Bool-cases (equal_fold k j)) [ inl t ↦ rw t | inr t ↦ rw t e ])

  delete_hops-cons :
      (mode : Str) (k : Str) (ks : List Str) (r : h.Request)
      → str_eq mode graphql_mode ≡ false
      → delete_hops h mode (k ∷ ks) r ≡ delete_hops h mode ks (h.del_header r k)
  unfolding delete_hops
  delete_hops-cons mode k ks r m = rw m

  peek-delete_hops :
      (mode : Str) (ks : List Str) (r : h.Request) (j : Str)
      → str_eq mode graphql_mode ≡ false
      → h.peek r j ≡ none
      → h.peek (delete_hops h mode ks r) j ≡ none
  unfolding delete_hops
  peek-delete_hops mode [] r j m e = e
  peek-delete_hops mode (k ∷ ks) r j m e =
      ap (λ q. h.peek q j) (delete_hops-cons mode k ks r m)
      ∙ peek-delete_hops mode ks (h.del_header r k) j m (peek-del_none r k j e)

  equal_fold_refl : (k : Str) → equal_fold k k ≡ true
  unfolding equal_fold
  equal_fold_refl k = str_eq_refl (to_lower k)

  delete_hops-NoHeaders :
      (mode : Str) (ks : List Str) (r : h.Request)
      → str_eq mode graphql_mode ≡ false
      → NoHeaders ks (delete_hops h mode ks r)
  delete_hops-NoHeaders mode [] r m = tt
  delete_hops-NoHeaders mode (k ∷ ks) r m =
      subst (λ q. NoHeaders (k ∷ ks) q) (sym (delete_hops-cons mode k ks r m))
        (
          peek-delete_hops mode ks (h.del_header r k) k m
              (h.peek-del r k k ∙ rw (equal_fold_refl k)),
          delete_hops-NoHeaders mode ks (h.del_header r k) m,
        )

  -- A header that the rewriting does not name.
  abbrev IsOther : Str → Type 0
  IsOther k =
      (equal_fold apifw_header_name k ≡ false)
      × (equal_fold xff_header k ≡ false)
      × (equal_fold (bytes "Host") k ≡ false)

  peek-update_uri :
      (o : ProxyOptions) (r : h.Request) (k : Str)
      → IsOther k
      → h.peek (update_uri h o r) k ≡ h.peek r k
  unfolding update_uri
  peek-update_uri o r k x = ground (
    arith,
    h.peek-scheme r o.server_scheme k,
    h.peek-host r o.server_host k x.2,
    h.peek-host (h.set_scheme r o.server_scheme) o.server_host k x.2,
  )

  peek-forward :
      (ip : Str) (r : h.Request) (k : Str) → IsOther k → h.peek (forward h ip r) k ≡ h.peek r k
  unfolding forward
  peek-forward ip r k x = elim (Option-cases (h.peek r xff_header)) [
    | inl e ↦ rw (e, forward, h.peek-set r xff_header ip k, x.1)
    | inr (value, e) ↦ rw (e, forward, h.peek-set r xff_header (value ++ (bytes ", " ++ ip)) k, x.1)
  ]

  rewrite-none :
      (o : ProxyOptions) (ip : Str) (r : h.Request) (k : Str)
      → IsOther k
      → h.peek r k ≡ none
      → h.peek (rewrite h o ip r) k ≡ none
  unfolding rewrite accept
  rewrite-none o ip r k x e =
      let r' = forward h ip (update_uri h o r) in
      let e' : h.peek r' k ≡ none =
        peek-forward ip (update_uri h o r) k x ∙ peek-update_uri o r k x ∙ e in
      ground (arith, peek-del_none r' ac_header k e')

  rewrite-NoHeaders :
      (o : ProxyOptions) (ip : Str) (ks : List Str) (r : h.Request)
      → All IsOther ks
      → NoHeaders ks r
      → NoHeaders ks (rewrite h o ip r)
  rewrite-NoHeaders o ip [] r x e = tt
  rewrite-NoHeaders o ip (k ∷ ks) r x e =
      (rewrite-none o ip r k x.0 e.0, rewrite-NoHeaders o ip ks r x.1 e.1)

  add-NoHeaders :
      (v : Str) (ks : List Str) (r : h.Request)
      → All IsOther ks
      → NoHeaders ks r
      → NoHeaders ks (h.add_header r apifw_header_name v)
  add-NoHeaders v [] r x e = tt
  add-NoHeaders v (k ∷ ks) r x e =
      (h.peek-add r apifw_header_name v k x.0.0 ∙ e.0, add-NoHeaders v ks r x.1 e.1)

  hops-IsOther : All IsOther hop_headers
  unfolding equal_fold
  hops-IsOther = (
    (refl, refl, refl),
    (
      (refl, refl, refl),
      (
        (refl, refl, refl),
        (
          (refl, refl, refl),
          (
            (refl, refl, refl),
            (
              (refl, refl, refl),
              ((refl, refl, refl), ((refl, refl, refl), ((refl, refl, refl), tt))),
            ),
          ),
        ),
      ),
    ),
  )

  -- The request that the next handler is given.
  next_request : ProxyOptions → Ctx h → h.Request → h.Request
  unfolding rewrite
  next_request o c r = rewrite h o (remote_ip h c) r

  settle_hops_same :
      (mode : Str) (x : Ctx h × Outcome)
      → ((settle_hops h mode x).1 ≡ x.1) × ((settle_hops h mode x).0.upstream ≡ x.0.upstream)
  unfolding settle_hops
  settle_hops_same mode (c, returned e) = (refl, refl)
  settle_hops_same mode (c, panicked) = (refl, refl)

  -- The middleware ran the next handler with this request.
  abbrev pub Ran : ProxyOptions → Handler h → Ctx h → h.Request → Type 0
  Ran o before c r =
      ((proxy h o before c).1 ≡ (before (record c { request = r })).1)
      × ((proxy h o before c).0.upstream ≡ (before (record c { request = r })).0.upstream)

  go_on-Ran :
      (o : ProxyOptions) (before : Handler h) (c : Ctx h) (r : h.Request)
      → proxy h o before c ≡ go_on h o before c r
      → Ran o before c (next_request o c r)
  unfolding go_on next_request
  go_on-Ran o before c r e =
      let (same, sent) =
        settle_hops_same o.mode (before (record c { request = rewrite h o (remote_ip h c) r })) in
      (ap (λ x. x.1) e ∙ same, ap (λ x. x.0.upstream) e ∙ sent)

  proxy-plain :
      (o : ProxyOptions) (before : Handler h) (c : Ctx h)
      → equal_fold o.request_validation validation_block ≡ false
      → proxy h o before c ≡ go_on h o before c (delete_hops h o.mode hop_headers c.request)
  unfolding proxy
  proxy-plain o before c e = rw e

  proxy-id :
      (o : ProxyOptions) (before : Handler h) (c : Ctx h) (id : Str)
      → equal_fold o.request_validation validation_block ≡ true
      → c.values.request_id ≡ some id
      → proxy h o before c
        ≡ go_on h o before c
            (h.add_header (delete_hops h o.mode hop_headers c.request) apifw_header_name id)
  unfolding proxy
  proxy-id o before c id e i =
      rw e (ap (identify h o before c (delete_hops h o.mode hop_headers c.request)) i)

  proxy-no_id :
      (o : ProxyOptions) (before : Handler h) (c : Ctx h)
      → equal_fold o.request_validation validation_block ≡ true
      → c.values.request_id ≡ none
      → (proxy h o before c).1 ≡ panicked
  unfolding proxy
  proxy-no_id o before c e i =
      rw e (ap (λ v. (identify h o before c (delete_hops h o.mode hop_headers c.request) v).1) i)

  next_request-NoHeaders :
      (o : ProxyOptions) (c : Ctx h) (r : h.Request)
      → NoHeaders hop_headers r
      → NoHeaders hop_headers (next_request o c r)
  unfolding next_request
  next_request-NoHeaders o c r e = rewrite-NoHeaders o (remote_ip h c) hop_headers r hops-IsOther e

  -- Outside GraphQL mode the next handler is given a request with no hop-by-hop header left and
  -- the rest of the context unchanged, and its outcome is passed on; only in block mode with no
  -- request id in the context it is not run, and the middleware panics.
  pub proxy-NoHeaders :
      (o : ProxyOptions) (before : Handler h) (c : Ctx h)
      → str_eq o.mode graphql_mode ≡ false
      → ((r : h.Request) × NoHeaders hop_headers r × Ran o before c r)
        ⊎ ((equal_fold o.request_validation validation_block ≡ true)
            × (c.values.request_id ≡ none)
            × ((proxy h o before c).1 ≡ panicked))
  proxy-NoHeaders o before c m =
      let r : h.Request = delete_hops h o.mode hop_headers c.request in
      let bare : NoHeaders hop_headers r = delete_hops-NoHeaders o.mode hop_headers c.request m in
      elim (Bool-cases (equal_fold o.request_validation validation_block)) [
        | inr e ↦ inl (
          next_request o c r,
          next_request-NoHeaders o c r bare,
          go_on-Ran o before c r (proxy-plain o before c e),
        )
        | inl e ↦ elim (Option-cases (c.values.request_id)) [
          | inl i ↦ inr (e, i, proxy-no_id o before c e i)
          | inr (id, i) ↦
              let r' : h.Request = h.add_header r apifw_header_name id in
              inl (
                next_request o c r',
                next_request-NoHeaders o c r' (add-NoHeaders id hop_headers r hops-IsOther bare),
                go_on-Ran o before c r' (proxy-id o before c id e i),
              )
        ]
      ]
