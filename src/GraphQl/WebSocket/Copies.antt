-- ===== src/GraphQl/WebSocket/Copies.antt =====
-- How often a message of a client reaches the backend, by the mode and its validation.
use api_firewall.Base.{
  ℕ, ◌≡◌, ◌≢◌, refl, sym, ap, ◌∙◌, ◌⊎◌, inl, inr, true, false, Option, none, some, List, [], ◌∷◌,
  ◌++◌, Str, equal_fold, if◌then◌else◌, replicate, arith, All, Bool-cases,
}
use api_firewall.Web.{validation_block, validation_log}
use api_firewall.GraphQl.{Stop, invalid, failed, crashed, validate_graphql_request}
use api_firewall.GraphQl.Handling.{GraphQlMode}
use api_firewall.GraphQl.WebSocket.{Frame, GqlMessage, is_passed_over, has_no_payload}

module _ (cfg : GraphQlMode) (parse : Str → Option GqlMessage) where
  -- How often a message is written, by the mode and the result of the validation.
  unfoldable pub copies_of : Option Stop → ℕ
  copies_of none = 1
  copies_of (some (invalid errors)) =
      if equal_fold cfg.request_validation validation_block then 0 else 1
  copies_of (some failed) = if equal_fold cfg.request_validation validation_block then 0 else 2
  copies_of (some crashed) = 0

  abbrev pub validated : GqlMessage → Option Stop
  validated msg = validate_graphql_request cfg.graphql msg.request

  unfoldable pub copies_parsed : Option GqlMessage → ℕ
  unfolding copies_of
  copies_parsed none = if equal_fold cfg.request_validation validation_log then 1 else 0
  copies_parsed (some msg) = if has_no_payload msg then 1 else copies_of (validated msg)

  unfoldable pub copies : Frame → ℕ
  unfolding copies_parsed
  copies m = if is_passed_over cfg m then 1 else copies_parsed (parse m.payload)

  -- A message that can be parsed and has nothing to validate, or that is valid.
  abbrev pub PassesParsed : Option GqlMessage → Type 0
  PassesParsed x =
      (msg : GqlMessage) × (x ≡ some msg) × ((has_no_payload msg ≡ true) ⊎ (validated msg ≡ none))

  -- A message that is not validated, or that passes.
  abbrev pub Passes : Frame → Type 0
  Passes m = (is_passed_over cfg m ≡ true) ⊎ PassesParsed (parse m.payload)

  -- The messages that pass, each once and in order.
  abbrev pub Forwarded : List Frame → List Frame → Type 0
  Forwarded [] out = out ≡ []
  Forwarded (m ∷ ms) out =
      (Passes m × ((rest : List Frame) × (out ≡ m ∷ rest) × Forwarded ms rest))
      ⊎ ((¬ Passes m) × Forwarded ms out)

  copies_of-block :
      (x : Option Stop)
      → equal_fold cfg.request_validation validation_block ≡ true
      → ((x ≡ none) × (copies_of x ≡ 1)) ⊎ ((x ≢ none) × (copies_of x ≡ 0))
  unfolding copies_of
  copies_of-block none b = inl (refl, refl)
  copies_of-block (some (invalid errors)) b = inr (λ e. absurd (ground arith), rw b)
  copies_of-block (some failed) b = inr (λ e. absurd (ground arith), rw b)
  copies_of-block (some crashed) b = inr (λ e. absurd (ground arith), refl)

  copies_parsed-block :
      (x : Option GqlMessage)
      → equal_fold cfg.request_validation validation_block ≡ true
      → equal_fold cfg.request_validation validation_log ≡ false
      → (PassesParsed x × (copies_parsed x ≡ 1)) ⊎ ((¬ PassesParsed x) × (copies_parsed x ≡ 0))
  unfolding copies_parsed
  copies_parsed-block none b l = inr (λ (msg, e, p). absurd (ground (arith, e)), rw l)
  copies_parsed-block (some msg) b l = elim (Bool-cases (has_no_payload msg)) [
    | inl h ↦ inl ((msg, refl, inl h), rw h)
    | inr h ↦ elim (copies_of-block (validated msg) b) [
      | inl (v, e) ↦ inl ((msg, refl, inr v), rw h e)
      | inr (v, e) ↦ inr (
        λ (k, same, p).
            let eq : k ≡ msg = ground arith in
            elim p [
              | inl q ↦
                  let q' : has_no_payload msg ≡ true = ap has_no_payload (sym eq) ∙ q in
                  absurd (ground (arith, q', h))
              | inr q ↦ v (ap validated (sym eq) ∙ q)
            ],
        rw h e,
      )
    ]
  ]

  copies-block :
      (m : Frame)
      → equal_fold cfg.request_validation validation_block ≡ true
      → equal_fold cfg.request_validation validation_log ≡ false
      → (Passes m × (copies m ≡ 1)) ⊎ ((¬ Passes m) × (copies m ≡ 0))
  unfolding copies
  copies-block m b l = elim (Bool-cases (is_passed_over cfg m)) [
    | inl p ↦ inl (inl p, rw p)
    | inr p ↦ elim (copies_parsed-block (parse m.payload) b l) [
      | inl (q, e) ↦ inl (inr q, rw p e)
      | inr (q, e) ↦
          inr (λ x. elim x [ inl y ↦ absurd (ground (arith, y, p)) | inr y ↦ q y ], rw p e)
    ]
  ]

  -- A message that is validated, and whose validation returns an error.
  abbrev pub FailsParsed : Option GqlMessage → Type 0
  FailsParsed x =
      (msg : GqlMessage) × (x ≡ some msg)
      × (has_no_payload msg ≡ false)
      × (validated msg ≡ some failed)

  abbrev pub Fails : Frame → Type 0
  Fails m = (is_passed_over cfg m ≡ false) × FailsParsed (parse m.payload)

  -- All messages in order, those that fail twice and the others once.
  abbrev pub Logged : List Frame → List Frame → Type 0
  Logged [] out = out ≡ []
  Logged (m ∷ ms) out =
      (Fails m × ((rest : List Frame) × (out ≡ m ∷ m ∷ rest) × Logged ms rest))
      ⊎ ((¬ Fails m) × ((rest : List Frame) × (out ≡ m ∷ rest) × Logged ms rest))

  copies_of-log :
      (x : Option Stop)
      → equal_fold cfg.request_validation validation_block ≡ false
      → x ≢ some crashed
      → ((x ≡ some failed) × (copies_of x ≡ 2)) ⊎ ((x ≢ some failed) × (copies_of x ≡ 1))
  unfolding copies_of
  copies_of-log none b c = inr (λ e. absurd (ground arith), refl)
  copies_of-log (some (invalid errors)) b c = inr (λ e. absurd (ground arith), rw b)
  copies_of-log (some failed) b c = inl (refl, rw b)
  copies_of-log (some crashed) b c = absurd (c refl)

  -- Validating a message does not panic.
  abbrev pub IsCalm : Option GqlMessage → Type 0
  IsCalm x = (msg : GqlMessage) → x ≡ some msg → validated msg ≢ some crashed

  copies_parsed-log :
      (x : Option GqlMessage)
      → equal_fold cfg.request_validation validation_block ≡ false
      → equal_fold cfg.request_validation validation_log ≡ true
      → IsCalm x
      → (FailsParsed x × (copies_parsed x ≡ 2)) ⊎ ((¬ FailsParsed x) × (copies_parsed x ≡ 1))
  unfolding copies_parsed
  copies_parsed-log none b l c = inr (λ (msg, e, p, q). absurd (ground (arith, e)), rw l)
  copies_parsed-log (some msg) b l c = elim (Bool-cases (has_no_payload msg)) [
    | inl h ↦ inr (
      λ (k, same, p, q).
          let eq : k ≡ msg = ground arith in
          let p' : has_no_payload msg ≡ false = ap has_no_payload (sym eq) ∙ p in
          absurd (ground (arith, p', h)),
      rw h,
    )
    | inr h ↦ elim (copies_of-log (validated msg) b (c msg refl)) [
      | inl (v, e) ↦ inl ((msg, refl, h, v), rw h e)
      | inr (v, e) ↦ inr (
        λ (k, same, p, q). let eq : k ≡ msg = ground arith in v (ap validated (sym eq) ∙ q),
        rw h e,
      )
    ]
  ]

  copies-log :
      (m : Frame)
      → equal_fold cfg.request_validation validation_block ≡ false
      → equal_fold cfg.request_validation validation_log ≡ true
      → IsCalm (parse m.payload)
      → (Fails m × (copies m ≡ 2)) ⊎ ((¬ Fails m) × (copies m ≡ 1))
  unfolding copies
  copies-log m b l c = elim (Bool-cases (is_passed_over cfg m)) [
    | inl p ↦ inr (λ (y, z). absurd (ground (arith, y, p)), rw p)
    | inr p ↦ elim (copies_parsed-log (parse m.payload) b l c) [
      | inl (q, e) ↦ inl ((p, q), rw p e)
      | inr (q, e) ↦ inr (λ (y, z). q z, rw p e)
    ]
  ]

  unfoldable pub all_copies : List Frame → List Frame
  all_copies [] = []
  all_copies (m ∷ ms) = replicate (copies m) m ++ all_copies ms

  pub all_copies-Forwarded :
      (ms : List Frame)
      → equal_fold cfg.request_validation validation_block ≡ true
      → equal_fold cfg.request_validation validation_log ≡ false
      → Forwarded ms (all_copies ms)
  unfolding all_copies
  all_copies-Forwarded [] b l = refl
  all_copies-Forwarded (m ∷ ms) b l =
      let rest = all_copies-Forwarded ms b l in
      elim (copies-block m b l) [
        | inl (p, e) ↦ inl (p, (all_copies ms, rw e, rest))
        | inr (p, e) ↦ inr (p, rw e rest)
      ]

  pub all_copies-Logged :
      (ms : List Frame)
      → equal_fold cfg.request_validation validation_block ≡ false
      → equal_fold cfg.request_validation validation_log ≡ true
      → All (λ m. IsCalm (parse m.payload)) ms
      → Logged ms (all_copies ms)
  unfolding all_copies
  all_copies-Logged [] b l c = refl
  all_copies-Logged (m ∷ ms) b l (c, cs) =
      let rest = all_copies-Logged ms b l cs in
      elim (copies-log m b l c) [
        | inl (p, e) ↦ inl (p, (all_copies ms, rw e, rest))
        | inr (p, e) ↦ inr (p, (all_copies ms, rw e, rest))
      ]
