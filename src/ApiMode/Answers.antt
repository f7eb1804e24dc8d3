-- ===== src/ApiMode/Answers.antt =====
-- What the requests to several schemas are answered with.
use api_firewall.Base.{
  append_nil, append_assoc, ℕ, ◌≡◌, ◌≢◌, refl, sym, ap, ◌∙◌, ◌↔◌, ◌⊎◌, inl, inr, Bool, true, false,
  ◌&&◌, Option, none, some, List, [], ◌∷◌, ◌++◌, map, Str, bytes, str_eq, arith, All, Bool-cases,
}
use api_firewall.ApiMode.{
  ValidationError, Summary, ValidationResponse, ProcessError, Values, Ending, ended, panic_error,
  panic_value, Validation, validated, not_validated, validation_panic, settle_validation,
  api_mode_handler, summary_of, failure, RequestConfig, SchemaHandler, settle_status,
  settle_handler, not_routed, settle_found, process_request, join_errors, append_result, finish,
  validate_request,
}

module _ (cfg : RequestConfig) where
  -- One summary for the schema, which is 500 with no errors listed where there is an error.
  pub record IsAnswer (id : ℕ) (r : ValidationResponse × Option ProcessError) : Type 0 where
    pub code : ℕ
    pub summary : r.0.summary ≡ record { schema_id = id; status_code = code } ∷ []
    pub failed : r.1 ≢ none → (code ≡ 500) × (r.0.errors ≡ [])

  failure-IsAnswer : (id : ℕ) (e : ProcessError) → IsAnswer id (failure id e)
  unfolding failure summary_of
  failure-IsAnswer id e = record { code = 500; summary = refl; failed = λ n. (refl, refl) }

  settle_status-IsAnswer :
      (id : ℕ) (v : Values) (s : Option ℕ) → IsAnswer id (settle_status cfg id v s)
  unfolding settle_status summary_of
  settle_status-IsAnswer id v none = failure-IsAnswer id _
  settle_status-IsAnswer id v (some code) = record {
    code = code;
    summary = refl;
    failed = λ n. absurd (n refl);
  }

  settle_handler-IsAnswer : (id : ℕ) (x : Values × Ending) → IsAnswer id (settle_handler cfg id x)
  unfolding settle_handler
  settle_handler-IsAnswer id (v, ended none) = settle_status-IsAnswer id v v.status
  settle_handler-IsAnswer id (v, ended (some e)) = failure-IsAnswer id _
  settle_handler-IsAnswer id (v, panic_error e) = failure-IsAnswer id _
  settle_handler-IsAnswer id (v, panic_value e) = failure-IsAnswer id _

  not_routed-IsAnswer : (id : ℕ) → IsAnswer id (not_routed cfg id)
  unfolding not_routed summary_of
  not_routed-IsAnswer id =
      elim (Bool-cases (cfg.pass_options_requests && str_eq cfg.method (bytes "OPTIONS"))) [
        | inl e ↦ rw e (record { code = 200; summary = refl; failed = λ n. absurd (n refl) })
        | inr e ↦ rw e (record { code = 403; summary = refl; failed = λ n. absurd (n refl) })
      ]

  process_request-IsAnswer :
      (id : ℕ) (found : Option (Option SchemaHandler)) → IsAnswer id (process_request cfg id found)
  unfolding process_request settle_found
  process_request-IsAnswer id none = failure-IsAnswer id _
  process_request-IsAnswer id (some none) = not_routed-IsAnswer id
  process_request-IsAnswer id (some (some handler)) =
      settle_handler-IsAnswer id (handler (record { status = none; errors = none }))

  module _ (routers : ℕ → Option (Option SchemaHandler)) where
    -- A schema's request ended without an error.
    abbrev pub IsFine : ℕ → Type 0
    IsFine id = (process_request cfg id (routers id)).1 ≡ none

    map-append :
        (xs ys : List Summary)
        → map (λ s. s.schema_id) (xs ++ ys) ≡ map (λ s. s.schema_id) xs ++ map (λ s. s.schema_id) ys
    map-append [] ys = refl
    map-append (x ∷ xs) ys = ap (λ t. x.schema_id ∷ t) (map-append xs ys)

    append_result-ids :
        (x y : ValidationResponse × Option ProcessError) (id : ℕ)
        → IsAnswer id y
        → map (λ s. s.schema_id) (append_result cfg routers x y).0.summary
          ≡ map (λ s. s.schema_id) x.0.summary ++ id ∷ []
    unfolding append_result
    append_result-ids (r, e) (q, f) id a =
        map-append r.summary q.summary
        ∙ ap (λ s. map (λ t. t.schema_id) r.summary ++ map (λ t. t.schema_id) s) a.summary

    finish-ids :
        (x : ValidationResponse × Option ProcessError) (ids : List ℕ)
        → map (λ s. s.schema_id) (finish cfg routers x ids).0.summary
          ≡ map (λ s. s.schema_id) x.0.summary ++ ids
    unfolding finish
    finish-ids x [] = sym (append_nil _)
    finish-ids x (id ∷ ids) =
        finish-ids (append_result cfg routers x (process_request cfg id (routers id))) ids
        ∙ ap (λ t. t ++ ids)
            (append_result-ids x (process_request cfg id (routers id)) id
              (process_request-IsAnswer id (routers id)))
        ∙ append_assoc (map (λ s. s.schema_id) x.0.summary) (id ∷ []) ids

    append_result_iff :
        (x y : ValidationResponse × Option ProcessError)
        → ((append_result cfg routers x y).1 ≡ none) ↔ ((x.1 ≡ none) × (y.1 ≡ none))
    unfolding append_result join_errors
    append_result_iff (r, none) (q, none) = (λ e. (refl, refl), λ p. refl)
    append_result_iff (r, some e) (q, none) =
        (λ h. absurd (ground arith), λ (p, s). absurd (ground arith))
    append_result_iff (r, none) (q, some f) =
        (λ h. absurd (ground arith), λ (p, s). absurd (ground arith))
    append_result_iff (r, some e) (q, some f) =
        (λ h. absurd (ground arith), λ (p, s). absurd (ground arith))

    finish_iff :
        (x : ValidationResponse × Option ProcessError) (ids : List ℕ)
        → ((finish cfg routers x ids).1 ≡ none) ↔ ((x.1 ≡ none) × All IsFine ids)
    unfolding finish
    finish_iff x [] = (λ e. (e, tt), λ p. p.0)
    finish_iff x (id ∷ ids) =
        let here = append_result_iff x (process_request cfg id (routers id)) in
        let there =
          finish_iff (append_result cfg routers x (process_request cfg id (routers id))) ids in
        (
          λ e. let (p, ps) = there.0 e in let (a, b) = here.0 p in (a, (b, ps)),
          λ (a, (b, ps)). there.1 (here.1 (a, b), ps),
        )

    -- In whatever order the schemas' goroutines finish, the response has one summary for each schema
    -- asked for, in that order, and there is an error exactly if the request to one of them had one.
    pub validate_request-ids :
        (ids : List ℕ)
        → (map (λ s. s.schema_id) (validate_request cfg routers ids).0.summary ≡ ids)
          × (((validate_request cfg routers ids).1 ≡ none) ↔ All IsFine ids)
    unfolding validate_request
    validate_request-ids ids =
        let f = finish_iff (record { summary = []; errors = [] }, none) ids in
        (
          finish-ids (record { summary = []; errors = [] }, none) ids,
          (λ e. (f.0 e).1, λ a. f.1 (refl, a)),
        )

  -- The status codes of a response.
  abbrev pub status_of : ValidationResponse × Option ProcessError → List ℕ
  status_of r = map (λ s. s.status_code) r.0.summary

  -- The validation ended with an error or with a panic.
  abbrev pub IsFailed : Validation → Type 0
  IsFailed validation =
      ((e : Str) × (validation ≡ not_validated e)) ⊎ ((e : Str) × (validation ≡ validation_panic e))

  validated-not_failed : (es : List ValidationError) → IsFailed (validated es) → ⊥
  validated-not_failed es (inl (t, q)) = ground arith
  validated-not_failed es (inr (t, q)) = ground arith

  -- A request to a schema whose router finds the schema's handler is answered by 200 exactly if the
  -- path is one of the specification and the request was validated with no errors; by 403 exactly if
  -- the path is not, or if there are validation errors; and by 500 exactly if the path is one of the
  -- specification and the validation failed or panicked, which is also when the result has an error.
  pub process_request_iff :
      (id : ℕ) (has_route : Bool) (version : Str) (validation : Validation)
      → let r =
          process_request cfg id (some (some (api_mode_handler id has_route version validation))) in
        ((status_of r ≡ 200 ∷ []) ↔ ((has_route ≡ true) × (validation ≡ validated [])))
        × ((status_of r ≡ 403 ∷ []) ↔ (
            (has_route ≡ false)
            ⊎ ((e : ValidationError) × (es : List ValidationError) × (validation
                  ≡ validated (e ∷ es)))))
        × ((status_of r ≡ 500 ∷ []) ↔ ((has_route ≡ true) × IsFailed validation))
        × ((r.1 ≢ none) ↔ ((has_route ≡ true) × IsFailed validation))
  unfolding process_request settle_found settle_handler settle_status summary_of failure
      api_mode_handler settle_validation
  process_request_iff id false version validation = (
    (λ e. absurd (ground arith), λ (p, q). absurd (ground arith)),
    (λ e. inl refl, λ p. refl),
    (λ e. absurd (ground arith), λ (p, x). absurd (ground arith)),
    (λ e. absurd (e refl), λ (p, x). absurd (ground arith)),
  )
  process_request_iff id true version (validated []) = (
    (λ e. (refl, refl), λ p. refl),
    (
      λ e. absurd (ground arith),
      λ p. elim p [ inl q ↦ absurd (ground arith) | inr (e, es, q) ↦ absurd (ground arith) ],
    ),
    (λ e. absurd (ground arith), λ (p, x). absurd (validated-not_failed [] x)),
    (λ e. absurd (e refl), λ (p, x). absurd (validated-not_failed [] x)),
  )
  process_request_iff id true version (validated (x ∷ xs)) = (
    (λ e. absurd (ground arith), λ (p, q). absurd (ground arith)),
    (λ e. inr (x, xs, refl), λ p. refl),
    (λ e. absurd (ground arith), λ (p, y). absurd (validated-not_failed (x ∷ xs) y)),
    (λ e. absurd (e refl), λ (p, y). absurd (validated-not_failed (x ∷ xs) y)),
  )
  process_request_iff id true version (not_validated x) = (
    (λ e. absurd (ground arith), λ (p, q). absurd (ground arith)),
    (
      λ e. absurd (ground arith),
      λ p. elim p [ inl q ↦ absurd (ground arith) | inr (e, es, q) ↦ absurd (ground arith) ],
    ),
    (λ e. (refl, inl (x, refl)), λ p. refl),
    (λ e. (refl, inl (x, refl)), λ p. λ q. ground arith),
  )
  process_request_iff id true version (validation_panic x) = (
    (λ e. absurd (ground arith), λ (p, q). absurd (ground arith)),
    (
      λ e. absurd (ground arith),
      λ p. elim p [ inl q ↦ absurd (ground arith) | inr (e, es, q) ↦ absurd (ground arith) ],
    ),
    (λ e. (refl, inr (x, refl)), λ p. refl),
    (λ e. (refl, inr (x, refl)), λ p. λ q. ground arith),
  )
