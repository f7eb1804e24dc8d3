-- ===== src/Validator/Responses/Fitting.antt =====
-- Which responses are accepted.
use api_firewall.Base.{
  ◌≡◌, refl, ap, subst, ◌∙◌, ◌↔◌, ◌⊎◌, inl, inr, Bool, true, false, Option, none, some, List, [],
  ◌∷◌, Str, bytes, str_eq, arith, All, Bool-cases, Option-cases,
}
use api_firewall.Validator.Responses.{
  ResponseRefusal, HeaderRead, no_method, undecoded, absent, visited, Header, BodyVisit, unread,
  undecodable, body_visited, ResponseMedia, Response, ResponseOptions, Responses, ResponseInput,
  settle_read, validate_response_header, headers_loop, settle_visit, check_response_media,
  check_response_body, after_headers, check_response, response_for, validate_response,
}

module _ (I : Type 0) where
  module _ (o : ResponseOptions I) (input : ResponseInput I) where
    -- A header that is found fits its schema, and one that is not is not required.
    abbrev pub HeaderFits : Str × Header I → Type 0
    HeaderFits (name, h) =
        (h.read o.multi_error input.response ≡ visited true)
        ⊎ ((h.read o.multi_error input.response ≡ absent) × (h.required ≡ false))

    abbrev pub is_type_header : Str × Header I → Bool
    is_type_header (name, h) = str_eq name (bytes "Content-Type")

    -- The body is not checked, or its media type is known and it fits the schema, if there is one.
    abbrev pub ResponseBodyFits : Response I → Type 0
    ResponseBodyFits r =
        (o.exclude_response_body ≡ true)
        ⊎ (r.has_content ≡ false)
        ⊎ ((m : ResponseMedia I) × (r.media_of input.content_type ≡ some m)
            × ((m.has_schema ≡ false) ⊎ (m.visit o.multi_error input.response ≡ body_visited none)))

    settle_read_iff :
        (name : Str) (required : Bool) (x : HeaderRead I)
        → (settle_read I o input name required x ≡ none)
          ↔ ((x ≡ visited true) ⊎ ((x ≡ absent) × (required ≡ false)))
    unfolding settle_read
    settle_read_iff name required no_method = (
      λ e. absurd (ground arith),
      λ s. elim s [ inl p ↦ absurd (ground arith) | inr p ↦ absurd (ground arith) ],
    )
    settle_read_iff name required undecoded = (
      λ e. absurd (ground arith),
      λ s. elim s [ inl p ↦ absurd (ground arith) | inr p ↦ absurd (ground arith) ],
    )
    settle_read_iff name required absent = (
      λ e. inr (refl, ground arith),
      λ s. elim s [ inl p ↦ absurd (ground arith) | inr p ↦ rw (p.1) ],
    )
    settle_read_iff name required (visited true) = (λ e. inl refl, λ s. refl)
    settle_read_iff name required (visited false) = (
      λ e. absurd (ground arith),
      λ s. elim s [ inl p ↦ absurd (ground arith) | inr p ↦ absurd (ground arith) ],
    )

    headers_loop_iff :
        (hs : List (Str × Header I))
        → (headers_loop I o input hs ≡ none) ↔ All (λ h. is_type_header h ≡ false → HeaderFits h) hs
    unfolding headers_loop validate_response_header
    headers_loop_iff [] = (λ e. tt, λ a. refl)
    headers_loop_iff ((name, h) ∷ hs) =
        let rest = headers_loop_iff hs in
        let here = settle_read_iff name h.required (h.read o.multi_error input.response) in
        elim (Bool-cases (str_eq name (bytes "Content-Type"))) [
          | inl t ↦ (
            λ e. (λ f. absurd (ground arith), rest.0 (rw (t, headers_loop) at e)),
            λ (p, ps). rw (t, headers_loop) (rest.1 ps),
          )
          | inr t ↦
              elim (Option-cases
                (settle_read I o input name h.required (h.read o.multi_error input.response))) [
                  | inl ok ↦ (
                    λ e. (λ f. here.0 ok, rest.0 (rw (t, headers_loop, ok) at e)),
                    λ (p, ps). rw (t, headers_loop, ok) (rest.1 ps),
                  )
                  | inr (x, bad) ↦ (
                    λ e. absurd (ground (arith, t, bad, e)),
                    λ (p, ps). let ok = here.1 (p t) in absurd (ground (arith, ok, bad)),
                  )
                ]
        ]

    visit-fit : (v : BodyVisit I) → settle_visit I o input v ≡ none → v ≡ body_visited none
    unfolding settle_visit
    visit-fit (unread e) q = absurd (ground arith)
    visit-fit (undecodable e) q = absurd (ground arith)
    visit-fit (body_visited none) q = refl
    visit-fit (body_visited (some e)) q = absurd (ground arith)

    -- A medium that is known, and that the body fits.
    abbrev MediaFits : Option (ResponseMedia I) → Type 0
    MediaFits k =
        (m : ResponseMedia I) × (k ≡ some m)
        × ((m.has_schema ≡ false) ⊎ (m.visit o.multi_error input.response ≡ body_visited none))

    check_response_media_iff :
        (k : Option (ResponseMedia I)) → (check_response_media I o input k ≡ none) ↔ MediaFits k
    unfolding check_response_media settle_visit
    check_response_media_iff none = (λ e. absurd (ground arith), λ (m, e, f). absurd (ground arith))
    check_response_media_iff (some m) = elim (Bool-cases (m.has_schema)) [
      | inr h ↦ (λ e. (m, refl, inl h), λ f. rw (h, check_response_media))
      | inl h ↦ (
        λ e. (
          m,
          refl,
          inr (
              visit-fit (m.visit o.multi_error input.response) (rw (h, check_response_media) at e)),
        ),
        λ (n, q, f).
            let same : m ≡ n = ground arith in
            elim f [
              | inl no_schema ↦ absurd (ground (arith, same, h, no_schema))
              | inr v ↦
                  let w : m.visit o.multi_error input.response ≡ body_visited none =
                    ap (λ x. x.visit o.multi_error input.response) same ∙ v in
                  rw (h, check_response_media, w)
            ],
      )
    ]

    check_response_body_iff :
        (r : Response I) → (check_response_body I o input r ≡ none) ↔ ResponseBodyFits r
    unfolding check_response_body
    check_response_body_iff r = elim (Bool-cases (o.exclude_response_body)) [
      | inl x ↦ (λ e. inl x, λ f. ground arith)
      | inr x ↦ elim (Bool-cases (r.has_content)) [
        | inr c ↦ (λ e. inr (inl c), λ f. ground arith)
        | inl c ↦
            let m = check_response_media_iff (r.media_of input.content_type) in
            (
              λ e. inr (inr (m.0 (ground arith))),
              λ f. elim f [
                | inl y ↦ absurd (ground arith)
                | inr g ↦ elim g [
                  | inl z ↦ absurd (ground arith)
                  | inr fits ↦ let ok = m.1 fits in ground (arith, ok)
                ]
              ],
            )
      ]
    ]

    after_headers_iff :
        (r : Response I) (e : Option ResponseRefusal)
        → (after_headers I o input r e ≡ none)
          ↔ ((e ≡ none) × (check_response_body I o input r ≡ none))
    unfolding after_headers
    after_headers_iff r none = (λ q. (refl, q), λ (p, q). q)
    after_headers_iff r (some e) = (λ q. absurd (ground arith), λ (p, q). absurd (ground arith))

    -- What an accepted response is: of a status that is not documented, where that is allowed, or of
    -- one whose headers, but for the content type, and whose body fit.
    abbrev pub Fits : Option (Option (Response I)) → Type 0
    Fits k =
        ((k ≡ none) × (o.include_response_status ≡ false))
        ⊎ ((r : Response I) × (k ≡ some (some r))
            × All (λ h. is_type_header h ≡ false → HeaderFits h) r.headers
            × ResponseBodyFits r)

    check_response_iff :
        (k : Option (Option (Response I))) → (check_response I o input k ≡ none) ↔ Fits k
    unfolding check_response
    check_response_iff none = (
      λ e. inl (refl, ground arith),
      λ f. elim f [ inl p ↦ rw (p.1) | inr p ↦ absurd (ground (arith, p.1)) ],
    )
    check_response_iff (some none) = (
      λ e. absurd (ground arith),
      λ f. elim f [ inl p ↦ absurd (ground (arith, p.0)) | inr p ↦ absurd (ground (arith, p.1)) ],
    )
    check_response_iff (some (some r)) =
        let a = after_headers_iff r (headers_loop I o input r.headers) in
        let h = headers_loop_iff r.headers in
        let b = check_response_body_iff r in
        (
          λ e. let (p, q) = a.0 e in inr (r, refl, h.0 p, b.0 q),
          λ f. elim f [
            | inl p ↦ absurd (ground (arith, p.0))
            | inr (s, same, hs, body) ↦
                let eq : s ≡ r = ground arith in
                a.1 (
                  h.1 (
                      subst (λ x. All (λ y. is_type_header y ≡ false → HeaderFits y) x.headers) eq
                        hs),
                  b.1 (subst ResponseBodyFits eq body),
                )
          ],
        )

    -- A response to a request whose method is not HEAD, of an operation that has responses, is
    -- accepted exactly if its status is not documented, there is no default and such are allowed, or
    -- if each of its headers, but for the content type, fits its schema, or is missing and not
    -- required, and its body fits the schema of its media type, unless there is none to check.
    pub validate_response_iff :
        (rs : Responses I)
        → str_eq input.method (bytes "HEAD") ≡ false
        → rs.any ≡ true
        → (validate_response I o input rs ≡ none) ↔ Fits (response_for I o input rs)
    unfolding validate_response
    validate_response_iff rs not_head any =
        let c = check_response_iff (response_for I o input rs) in
        (λ e. c.0 (rw (not_head, any) at e), λ f. rw (not_head, any) (c.1 f))
