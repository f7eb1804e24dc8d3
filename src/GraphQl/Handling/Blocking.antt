-- ===== src/GraphQl/Handling/Blocking.antt =====
-- Which requests the handler of GraphQL mode sends on in block mode.
use api_firewall.Base.{
  ◌≡◌, ◌≤◌, refl, ap, subst, ◌∙◌, ◌↔◌, ◌⊎◌, inl, inr, Bool, true, false, ◌||◌, Option, none, some,
  List, [], ◌∷◌, equal_fold, exists, length, arith, All, Bool-cases,
}
use api_firewall.Web.{Http, Outcome, Ctx, respond_error_frame, validation_disable}
use api_firewall.GraphQl.{Query, Stop, invalid, failed, crashed, validate_graphql_request}
use api_firewall.GraphQl.Handling.{
  GraphQlMode, GraphQlServices, is_block, proxied, respond_invalid, is_objection, is_crash,
  check_queries, is_over_limit, check_batch, settle_parse, lacks_json, lacks_query, serve_http,
  at_server_path, graphql_handle,
}

module _ (h : Http) (cfg : GraphQlMode) (s : GraphQlServices h) where
  -- A query is valid, or it is not but without errors.
  abbrev pub IsHarmless : Query → Type 0
  IsHarmless q =
      (validate_graphql_request cfg.graphql q ≡ none)
      ⊎ (validate_graphql_request cfg.graphql q ≡ some (invalid none))

  objection-false :
      (x : Option Stop)
      → is_objection h cfg s x ≡ false
      → is_crash h cfg s x ≡ false
      → (x ≡ none) ⊎ (x ≡ some (invalid none))
  unfolding is_objection is_crash
  objection-false none a b = inl refl
  objection-false (some (invalid none)) a b = inr refl
  objection-false (some (invalid (some rs))) a b = absurd (ground arith)
  objection-false (some failed) a b = absurd (ground arith)
  objection-false (some crashed) a b = absurd (ground arith)

  harmless-false :
      (x : Option Stop)
      → (x ≡ none) ⊎ (x ≡ some (invalid none))
      → (is_objection h cfg s x ≡ false) × (is_crash h cfg s x ≡ false)
  unfolding is_objection is_crash
  harmless-false x (inl e) = (rw e, rw e)
  harmless-false x (inr e) = (rw e, rw e)

  abbrev objects : Query → Bool
  objects q = is_objection h cfg s (validate_graphql_request cfg.graphql q)

  abbrev crashes : Query → Bool
  crashes q = is_crash h cfg s (validate_graphql_request cfg.graphql q)

  All-IsHarmless_iff :
      (qs : List Query)
      → ((exists objects qs ≡ false) × (exists crashes qs ≡ false)) ↔ All IsHarmless qs
  All-IsHarmless_iff [] = (λ p. tt, λ a. (refl, refl))
  All-IsHarmless_iff (q ∷ qs) =
      let ih = All-IsHarmless_iff qs in
      (
        λ (a, b). (
          objection-false (validate_graphql_request cfg.graphql q) (ground arith) (ground arith),
          ih.0 (ground arith, ground arith),
        ),
        λ (p, ps).
            let (a, b) = harmless-false (validate_graphql_request cfg.graphql q) p in
            let (a', b') = ih.1 ps in (rw (a, a'), rw (b, b')),
      )

  -- The batch has no more queries than its limit, if there is one.
  abbrev pub IsBatch : List Query → Type 0
  IsBatch qs = (cfg.batch_query_limit ≡ 0) ⊎ (length qs ≤ cfg.batch_query_limit)

  -- A request that is to be sent on: its content type or query argument is there, it can be parsed,
  -- its batch is within the limit, and its queries are harmless.
  abbrev pub Admits : Ctx h → Type 0
  Admits c =
      (lacks_json h cfg s c.request ≡ false)
      × (lacks_query h cfg s c.request ≡ false)
      × (qs : List Query) × (s.parse_graphql_request c.request ≡ some qs)
      × IsBatch qs
      × All IsHarmless qs

  -- An admitted request is proxied, and another is not sent.
  abbrev pub Decided : Type 0 → Ctx h → Ctx h × Outcome → Type 0
  Decided admitted c r =
      (admitted × (r ≡ proxied h cfg s c)) ⊎ ((¬ admitted) × (r.0.upstream ≡ c.upstream))

  check_queries-Decided :
      (c : Ctx h) (qs : List Query)
      → is_block h cfg s ≡ true
      → Decided (All IsHarmless qs) c (check_queries h cfg s c qs)
  unfolding check_queries respond_invalid
  check_queries-Decided c qs block =
      let a = All-IsHarmless_iff qs in
      elim (Bool-cases (exists crashes qs)) [
        | inl e ↦
            rw e (inr (λ all. let good = (a.1 all).1 in absurd (ground (arith, good, e)), refl))
        | inr e ↦ elim (Bool-cases (exists objects qs)) [
          | inl o ↦
              rw (e, o, block)
                (inr (λ all. let good = (a.1 all).0 in absurd (ground (arith, good, o)), refl))
          | inr o ↦ rw (e, o) (inl (a.0 (o, e), refl))
        ]
      ]

  check_batch-over :
      (c : Ctx h) (qs : List Query)
      → is_block h cfg s ≡ true
      → is_over_limit h cfg s qs ≡ true
      → check_batch h cfg s c qs ≡ respond_invalid h cfg s c
  unfolding check_batch
  check_batch-over c qs block e = rw (e, block)

  check_batch-within :
      (c : Ctx h) (qs : List Query)
      → is_over_limit h cfg s qs ≡ false
      → check_batch h cfg s c qs ≡ check_queries h cfg s c qs
  unfolding check_batch
  check_batch-within c qs e = rw e

  is_over_limit_iff : (qs : List Query) → (is_over_limit h cfg s qs ≡ false) ↔ IsBatch qs
  unfolding is_over_limit
  is_over_limit_iff qs = (λ e. ground arith, λ p. ground arith)

  respond_invalid-unsent : (c : Ctx h) → (respond_invalid h cfg s c).0.upstream ≡ c.upstream
  unfolding respond_invalid
  respond_invalid-unsent c = refl

  check_batch-Decided :
      (c : Ctx h) (qs : List Query)
      → is_block h cfg s ≡ true
      → Decided (IsBatch qs × All IsHarmless qs) c (check_batch h cfg s c qs)
  check_batch-Decided c qs block =
      let b = is_over_limit_iff qs in
      elim (Bool-cases (is_over_limit h cfg s qs)) [
        | inl e ↦ inr (
          λ (p, all). let fits = b.1 p in absurd (ground (arith, fits, e)),
          ap (λ r. r.0.upstream) (check_batch-over c qs block e) ∙ respond_invalid-unsent c,
        )
        | inr e ↦
            let same = check_batch-within c qs e in
            elim (check_queries-Decided c qs block) [
              | inl (all, sent) ↦ inl ((b.0 e, all), same ∙ sent)
              | inr (none_sent, kept) ↦
                  inr (λ (p, all). none_sent all, ap (λ r. r.0.upstream) same ∙ kept)
            ]
      ]

  abbrev IsParsed : Option (List Query) → Type 0
  IsParsed x = (qs : List Query) × (x ≡ some qs) × IsBatch qs × All IsHarmless qs

  settle_parse-Decided :
      (c : Ctx h) (x : Option (List Query))
      → is_block h cfg s ≡ true
      → Decided (IsParsed x) c (settle_parse h cfg s c x)
  unfolding settle_parse
  settle_parse-Decided c none block =
      rw block (inr (λ (qs, e, b, all). absurd (ground (arith, e)), respond_invalid-unsent c))
  settle_parse-Decided c (some qs) block = elim (check_batch-Decided c qs block) [
    | inl ((b, all), same) ↦ inl ((qs, refl, b, all), same)
    | inr (unsent, same) ↦ inr (
      λ (k, e, b, all).
          let eq : k ≡ qs = ground arith in
          unsent (subst IsBatch eq b, subst (All IsHarmless) eq all),
      same,
    )
  ]

  serve_http-early :
      (c : Ctx h)
      → (lacks_json h cfg s c.request || lacks_query h cfg s c.request) ≡ true
      → (serve_http h cfg s c).0.upstream ≡ c.upstream
  unfolding serve_http
  serve_http-early c e = elim (Bool-cases (lacks_json h cfg s c.request)) [
    | inl j ↦ rw j ((respond_error_frame h c 403 []).0)
    | inr j ↦ let k : lacks_query h cfg s c.request ≡ true = ground arith in rw (j, k)
  ]

  serve_http-parsing :
      (c : Ctx h)
      → (lacks_json h cfg s c.request || lacks_query h cfg s c.request) ≡ false
      → equal_fold cfg.request_validation validation_disable ≡ false
      → serve_http h cfg s c ≡ settle_parse h cfg s c (s.parse_graphql_request c.request)
  unfolding serve_http
  serve_http-parsing c e not_disabled =
      let j : lacks_json h cfg s c.request ≡ false = ground arith in
      let k : lacks_query h cfg s c.request ≡ false = ground arith in rw (j, k, not_disabled)

  serve_http-Decided :
      (c : Ctx h)
      → is_block h cfg s ≡ true
      → equal_fold cfg.request_validation validation_disable ≡ false
      → Decided (Admits c) c (serve_http h cfg s c)
  serve_http-Decided c block not_disabled =
      elim (Bool-cases (lacks_json h cfg s c.request || lacks_query h cfg s c.request)) [
        | inl e ↦
            inr (λ (j, k, qs, p, b, all). absurd (ground (arith, j, k, e)), serve_http-early c e)
        | inr e ↦
            let same = serve_http-parsing c e not_disabled in
            elim (settle_parse-Decided c (s.parse_graphql_request c.request) block) [
              | inl ((qs, p, b, all), sent) ↦
                  inl ((ground arith, ground arith, qs, p, b, all), same ∙ sent)
              | inr (unsent, kept) ↦ inr (
                λ (j, k, qs, p, b, all). unsent (qs, p, b, all),
                ap (λ r. r.0.upstream) same ∙ kept,
              )
            ]
      ]

  -- In block mode a request that is no WebSocket upgrade is proxied, with the server's path, exactly
  -- if it is a POST request of JSON, a GET request with a query or of another method, it can be
  -- parsed, its batch is within the limit, and each of its queries is valid, or not valid but
  -- without an error; no other request is sent to the backend.
  pub graphql_handle-Decided :
      (c : Ctx h)
      → is_block h cfg s ≡ true
      → equal_fold cfg.request_validation validation_disable ≡ false
      → s.is_websocket_upgrade (at_server_path h cfg s c).request ≡ false
      → Decided
          (Admits (at_server_path h cfg s c))
          (at_server_path h cfg s c)
          (graphql_handle h cfg s c)
  unfolding graphql_handle
  graphql_handle-Decided c block not_disabled http =
      rw http (serve_http-Decided (at_server_path h cfg s c) block not_disabled)
