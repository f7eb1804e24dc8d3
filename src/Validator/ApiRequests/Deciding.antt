-- ===== src/Validator/ApiRequests/Deciding.antt =====
-- Which requests API mode answers with no errors.
use api_firewall.Base.{
  ℕ, ◌≡◌, ◌≢◌, refl, ap, subst, ◌↔◌, ◌⊎◌, inl, inr, Bool, true, false, Option, none, some, List, [],
  ◌∷◌, ◌++◌, map, Str, arith, All, Bool-cases,
}
use api_firewall.ApiMode.{
  ValidationError, validated, api_mode_handler, RequestConfig, process_request,
}
use api_firewall.ApiMode.Answers.{status_of, process_request_iff}
use api_firewall.Validator.Unknown.{UnknownParameters, UnknownError}
use api_firewall.Validator.Refusals.{RequestRefusal}
use api_firewall.Validator.ApiErrors.{
  Report, report, not_supported, report_panic, get_error_response,
}
use api_firewall.Validator.ApiErrors.Reporting.{Reports, get_error_response-Reports}
use api_firewall.Validator.ApiRequests.{
  RequestEnding, accepted, refused, refused_all, request_panic, UnknownEnding, detected,
  unknown_panic, Collected, collected, broken, add_response, collect_all, request_errors,
  unknown_parameter, unknown_parameter_errors, unknown_errors, settle_collected,
  api_mode_validate_request,
}

-- Nothing was collected.
abbrev IsEmpty : Collected → Type 0
IsEmpty c = c ≡ collected []

add_response-ne :
    (e : RequestRefusal) (x : Report) (rest : Collected)
    → Reports e x
    → add_response x rest ≢ collected []
unfolding add_response
add_response-ne e not_supported rest r = λ q. absurd (ground arith)
add_response-ne e (report_panic t) rest r = λ q. absurd (ground arith)
add_response-ne e (report []) rest r = λ q. elim r [
  | inl (first, more, p) ↦ absurd (ground (arith, p))
  | inr s ↦ elim s [
    | inl (p, u) ↦ absurd (ground (arith, p))
    | inr (t, p, u) ↦ absurd (ground (arith, p))
  ]
]
add_response-ne e (report (v ∷ vs)) (collected fs) r = λ q. absurd (ground arith)
add_response-ne e (report (v ∷ vs)) (broken t) r = λ q. absurd (ground arith)

-- The request's validator accepted it, or panicked.
abbrev pub IsPassed : RequestEnding → Type 0
IsPassed x = (x ≡ accepted) ⊎ (x ≡ request_panic) ⊎ (x ≡ refused_all [])

request_errors_iff : (x : RequestEnding) → IsEmpty (request_errors x) ↔ IsPassed x
unfolding request_errors collect_all
request_errors_iff accepted = (λ e. inl refl, λ p. refl)
request_errors_iff request_panic = (λ e. inr (inl refl), λ p. refl)
request_errors_iff (refused e) = (
  λ q.
      absurd
        (add_response-ne e (get_error_response e) (collected []) (get_error_response-Reports e) q),
  λ p. elim p [
    | inl q ↦ absurd (ground (arith, q))
    | inr s ↦ elim s [ inl q ↦ absurd (ground (arith, q)) | inr q ↦ absurd (ground (arith, q)) ]
  ],
)
request_errors_iff (refused_all []) = (λ e. inr (inr refl), λ p. refl)
request_errors_iff (refused_all (e ∷ es)) = (
  λ q.
      absurd (
        add_response-ne e (get_error_response e) (collect_all es) (get_error_response-Reports e) q),
  λ p. elim p [
    | inl q ↦ absurd (ground (arith, q))
    | inr s ↦ elim s [ inl q ↦ absurd (ground (arith, q)) | inr q ↦ absurd (ground (arith, q)) ]
  ],
)

-- No group of unknown parameters has a parameter.
abbrev pub NoParameters : List UnknownParameters → Type 0
NoParameters rs = All (λ r. r.parameters ≡ []) rs

module _ (is_parse_error : UnknownError → Bool) where
  -- The detection found nothing, with no error or one of parsing, or it panicked.
  abbrev pub IsNothing : UnknownEnding → Type 0
  IsNothing x =
      (x ≡ unknown_panic)
      ⊎ ((results : List UnknownParameters) × (error : Option UnknownError) × (x
            ≡ detected results error)
          × NoParameters results
          × ((error ≡ none) ⊎ ((e : UnknownError) × (error ≡ some e) × (is_parse_error e ≡ true))))

  append_empty : (xs ys : List ValidationError) → (xs ++ ys ≡ []) ↔ ((xs ≡ []) × (ys ≡ []))
  append_empty [] ys = (λ e. (refl, e), λ p. p.1)
  append_empty (x ∷ xs) ys = (λ e. absurd (ground arith), λ p. absurd (ground (arith, p.0)))

  errors_empty : {A : Type 0} (f : A → ValidationError) (ps : List A) → (map f ps ≡ []) ↔ (ps ≡ [])
  errors_empty f [] = (λ e. refl, λ e. refl)
  errors_empty f (p ∷ ps) = (λ e. absurd (ground arith), λ e. absurd (ground arith))

  unknown_parameter_errors_iff :
      (rs : List UnknownParameters) → (unknown_parameter_errors rs ≡ []) ↔ NoParameters rs
  unfolding unknown_parameter_errors
  unknown_parameter_errors_iff [] = (λ e. tt, λ a. refl)
  unknown_parameter_errors_iff (r ∷ rs) =
      let ih = unknown_parameter_errors_iff rs in
      let here = errors_empty (λ p. unknown_parameter r.message p.name) r.parameters in
      let both =
        append_empty (map (λ p. unknown_parameter r.message p.name) r.parameters)
          (unknown_parameter_errors rs) in
      (λ e. let (a, b) = both.0 e in (here.0 a, ih.0 b), λ (a, b). both.1 (here.1 a, ih.1 b))

  collected_iff : (es : List ValidationError) → IsEmpty (collected es) ↔ (es ≡ [])
  collected_iff es = (λ e. ground arith, λ e. ap collected e)

  unknown_errors_iff : (x : UnknownEnding) → IsEmpty (unknown_errors is_parse_error x) ↔ IsNothing x
  unfolding unknown_errors
  unknown_errors_iff unknown_panic = (λ e. inl refl, λ p. refl)
  unknown_errors_iff (detected results none) =
      let c = collected_iff (unknown_parameter_errors results) in
      let u = unknown_parameter_errors_iff results in
      (
        λ e. inr (results, none, refl, u.0 (c.0 e), inl refl),
        λ p. elim p [
          | inl q ↦ absurd (ground (arith, q))
          | inr (rs, error, same, n, d) ↦
              let eq : rs ≡ results = ground arith in c.1 (u.1 (subst NoParameters eq n))
        ],
      )
  unknown_errors_iff (detected results (some x)) =
      let c = collected_iff (unknown_parameter_errors results) in
      let u = unknown_parameter_errors_iff results in
      elim (Bool-cases (is_parse_error x)) [
        | inl t ↦ (
          λ e. inr (results, some x, refl, u.0 (c.0 (rw t at e)), inr (x, refl, t)),
          λ p. elim p [
            | inl q ↦ absurd (ground (arith, q))
            | inr (rs, error, same, n, d) ↦
                let eq : rs ≡ results = ground arith in rw t (c.1 (u.1 (subst NoParameters eq n)))
          ],
        )
        | inr t ↦ (
          λ e. absurd (ground (arith, rw t at e)),
          λ p. elim p [
            | inl q ↦ absurd (ground (arith, q))
            | inr (rs, error, same, n, d) ↦
                let eq : error ≡ some x = ground arith in
                elim d [
                  | inl q ↦ absurd (ground (arith, q, eq))
                  | inr (y, q, s) ↦
                      let same_error : y ≡ x = ground arith in
                      let s' : is_parse_error x ≡ true =
                        subst (λ z. is_parse_error z ≡ true) same_error s in
                      absurd (ground (arith, s', t))
                ]
          ],
        )
      ]

  settle_collected_iff :
      (a b : Collected) → (settle_collected a b ≡ validated []) ↔ (IsEmpty a × IsEmpty b)
  unfolding settle_collected
  settle_collected_iff (broken e) b =
      (λ q. absurd (ground arith), λ p. absurd (ground (arith, p.0)))
  settle_collected_iff (collected es) (broken e) =
      (λ q. absurd (ground arith), λ p. absurd (ground (arith, p.1)))
  settle_collected_iff (collected es) (collected fs) =
      let both = append_empty es fs in
      let ce = collected_iff es in
      let cf = collected_iff fs in
      (
        λ q. let e : es ++ fs ≡ [] = ground arith in let (x, y) = both.0 e in (ce.1 x, cf.1 y),
        λ (x, y). ap validated (both.1 (ce.0 x, cf.0 y)),
      )

  -- What a request with no errors is: it can be converted, its body can be decompressed, and neither
  -- validator objects to it.
  abbrev pub IsClear : Bool → Bool → Bool → RequestEnding → UnknownEnding → Type 0
  IsClear converts decodes unknown_detection request unknown =
      (converts ≡ true)
      × (decodes ≡ true)
      × IsPassed request
      × ((unknown_detection ≡ false) ⊎ IsNothing unknown)

  api_mode_validate_request_iff :
      (converts decodes detection : Bool) (x : RequestEnding) (y : UnknownEnding)
      → (api_mode_validate_request is_parse_error converts decodes detection x y ≡ validated [])
        ↔ IsClear converts decodes detection x y
  unfolding api_mode_validate_request
  api_mode_validate_request_iff false decodes detection x y =
      (λ e. absurd (ground arith), λ p. absurd (ground (arith, p.0)))
  api_mode_validate_request_iff true false detection x y =
      (λ e. absurd (ground arith), λ p. absurd (ground (arith, p.1)))
  api_mode_validate_request_iff true true false x y =
      let s = settle_collected_iff (request_errors x) (collected []) in
      let r = request_errors_iff x in
      (λ e. (refl, refl, r.0 (s.0 e).0, inl refl), λ (a, b, p, d). s.1 (r.1 p, refl))
  api_mode_validate_request_iff true true true x y =
      let s = settle_collected_iff (request_errors x) (unknown_errors is_parse_error y) in
      let r = request_errors_iff x in
      let u = unknown_errors_iff y in
      (
        λ e. (refl, refl, r.0 (s.0 e).0, inr (u.0 (s.0 e).1)),
        λ (a, b, p, d). s.1 (r.1 p, elim d [ inl q ↦ absurd (ground (arith, q)) | inr q ↦ u.1 q ]),
      )

  -- A request to a schema whose router finds its handler is answered by 200 exactly if its path is one
  -- of the specification, it can be converted and decompressed, the request validator accepts it (or
  -- gives no errors, or panics, which counts as no errors), and the detection of unknown parameters is
  -- off, or finds none with no error but one of parsing, or panics.
  pub process_request-Clear :
      (cfg : RequestConfig) (id : ℕ) (has_route : Bool) (version : Str)
      (converts decodes detection : Bool) (x : RequestEnding) (y : UnknownEnding)
      → (status_of cfg (
            process_request cfg id (
              some (
                some (
                  api_mode_handler id has_route version
                    (api_mode_validate_request is_parse_error converts decodes detection x y)))))
          ≡ 200 ∷ [])
        ↔ ((has_route ≡ true) × IsClear converts decodes detection x y)
  process_request-Clear cfg id has_route version converts decodes detection x y =
      let v = api_mode_validate_request is_parse_error converts decodes detection x y in
      let p = (process_request_iff cfg id has_route version v).0 in
      let c = api_mode_validate_request_iff converts decodes detection x y in
      (λ e. let (r, q) = p.0 e in (r, c.0 q), λ (r, q). p.1 (r, c.1 q))
