-- ===== src/Validator/Unknown/Finding.antt =====
-- Which requests have no unknown parameters.
use api_firewall.Base.{
  ℕ, zero, suc, ◌+◌, ◌≤◌, ◌≡◌, refl, sym, ap, ◌∙◌, ◌↔◌, inl, inr, Bool, true, false, none, some,
  List, [], ◌∷◌, ◌++◌, Str, bytes, str_eq, exists, length, ◌==◌, arith, All, Bool-cases,
}
use api_firewall.Validator.MediaType.{parse_media_type}
use api_firewall.Validator.Unknown.{
  max_json_array_elements, Json, object, array, text, number, boolean, null, Jsons, no_more,
  and_then, Fields, no_fields, field, RequestParameterDetails, Search, found, failed, join,
  unknown_fields, guard_depth, find_unknown, find_each, is_query_known, unknown_query,
  UnknownParameters, RequestBody, Decoded, decoded, Input, add_group, unknown_body, settle_search,
  settle_decoded, settle_content, body_params, validate_unknown_request_parameters,
  unknown_query_message,
}

-- All fields are properties of the schema.
abbrev pub AllKnown : List Str → Fields → Type 0
AllKnown props no_fields = Unit
AllKnown props (field name v fs) = (exists (λ p. str_eq p name) props ≡ true) × AllKnown props fs

mutual
  -- A body of objects with known fields only, in arrays nested to the limit; of a longer array the
  -- elements up to the limit count.
  pub IsClean : List Str → Json → ℕ → Type 0
  IsClean props (object fs) depth = (depth ≤ 32) × AllKnown props fs
  IsClean props (array js) depth = (depth ≤ 32) × AreClean props js 10000 (depth + 1)
  IsClean props (text s) depth = ⊥
  IsClean props (number s) depth = ⊥
  IsClean props (boolean b) depth = ⊥
  IsClean props null depth = ⊥

  pub AreClean : List Str → Jsons → ℕ → ℕ → Type 0
  AreClean props no_more left depth = Unit
  AreClean props (and_then j js) zero depth = Unit
  AreClean props (and_then j js) (suc left) depth =
      IsClean props j depth × AreClean props js left depth

append-nil : (ds es : List RequestParameterDetails) → ds ++ es ≡ [] → (ds ≡ []) × (es ≡ [])
append-nil [] es e = (refl, e)
append-nil (d ∷ ds) es e = absurd (ground arith)

join_iff : (a b : Search) → (join a b ≡ found []) ↔ ((a ≡ found []) × (b ≡ found []))
unfolding join
join_iff (failed e) b = (λ q. absurd (ground arith), λ (p, q). absurd (ground arith))
join_iff (found ds) (failed e) = (λ q. absurd (ground arith), λ (p, q). absurd (ground arith))
join_iff (found ds) (found es) = (
  λ q. let (p, r) = append-nil ds es (ground arith) in (ap found p, ap found r),
  λ (p, q).
      let ds_nil : ds ≡ [] = ground arith in
      let es_nil : es ≡ [] = ground arith in rw (ds_nil, es_nil),
)

module _ (is_int is_float : Str → Bool) where
  unknown_fields_iff :
      (props : List Str) (fs : Fields)
      → (unknown_fields is_int is_float props fs ≡ []) ↔ AllKnown props fs
  unfolding unknown_fields
  unknown_fields_iff props no_fields = (λ e. tt, λ k. refl)
  unknown_fields_iff props (field name v fs) =
      let rest = unknown_fields_iff props fs in
      elim (Bool-cases (exists (λ p. str_eq p name) props)) [
        | inl e ↦ (
          λ q. (e, rest.0 (rw (e, unknown_fields) at q)),
          λ (k, ks). rw (e, unknown_fields) (rest.1 ks),
        )
        | inr e ↦ (λ q. absurd (ground arith), λ (k, ks). absurd (ground arith))
      ]

  guard_depth_iff :
      (depth : ℕ) (r : Search)
      → (guard_depth is_int is_float depth r ≡ found []) ↔ ((depth ≤ 32) × (r ≡ found []))
  unfolding guard_depth
  guard_depth_iff depth r = ground arith

  mutual
    unfolding find_unknown IsClean

    find_unknown_iff :
        (props : List Str) (j : Json) (depth : ℕ)
        → (find_unknown is_int is_float props j depth ≡ found []) ↔ IsClean props j depth
    find_unknown_iff props (object fs) depth =
        let g = guard_depth_iff depth (found (unknown_fields is_int is_float props fs)) in
        let k = unknown_fields_iff props fs in
        (λ e. let (d, r) = g.0 e in (d, k.0 (ground arith)), λ (d, x). g.1 (d, ap found (k.1 x)))
    find_unknown_iff props (array js) depth =
        let g =
          guard_depth_iff depth
            (find_each is_int is_float props js max_json_array_elements (depth + 1)) in
        let k = find_each_iff props js max_json_array_elements (depth + 1) in
        (λ e. let (d, r) = g.0 e in (d, k.0 r), λ (d, x). g.1 (d, k.1 x))
    find_unknown_iff props (text s) depth = (λ e. absurd (ground arith), λ x. absurd x)
    find_unknown_iff props (number s) depth = (λ e. absurd (ground arith), λ x. absurd x)
    find_unknown_iff props (boolean b) depth = (λ e. absurd (ground arith), λ x. absurd x)
    find_unknown_iff props null depth = (λ e. absurd (ground arith), λ x. absurd x)

    find_each_iff :
        (props : List Str) (js : Jsons) (left depth : ℕ)
        → (find_each is_int is_float props js left depth ≡ found []) ↔ AreClean props js left depth
    find_each_iff props no_more left depth = (λ e. tt, λ x. refl)
    find_each_iff props (and_then j js) zero depth = (λ e. tt, λ x. refl)
    find_each_iff props (and_then j js) (suc left) depth =
        let k =
          join_iff (find_unknown is_int is_float props j depth)
            (find_each is_int is_float props js left depth) in
        let here = find_unknown_iff props j depth in
        let there = find_each_iff props js left depth in
        (λ e. let (p, q) = k.0 e in (here.0 p, there.0 q), λ (p, q). k.1 (here.1 p, there.1 q))

  unknown_query_iff :
      (spec : List Str) (args : List (Str × Str))
      → (unknown_query is_int is_float spec args ≡ [])
        ↔ All (λ arg. is_query_known is_int is_float spec arg.0 ≡ true) args
  unfolding unknown_query
  unknown_query_iff spec [] = (λ e. tt, λ k. refl)
  unknown_query_iff spec ((key, value) ∷ args) =
      let rest = unknown_query_iff spec args in
      elim (Bool-cases (is_query_known is_int is_float spec key)) [
        | inl e ↦ (
          λ q. (e, rest.0 (rw (e, unknown_query) at q)),
          λ (k, ks). rw (e, unknown_query) (rest.1 ks),
        )
        | inr e ↦ (λ q. absurd (ground arith), λ (k, ks). absurd (ground arith))
      ]

  append-empty :
      (results : List UnknownParameters) (x : UnknownParameters) → results ++ x ∷ [] ≡ [] → ⊥
  append-empty [] x e = ground arith
  append-empty (r ∷ results) x e = ground arith

  add_group_iff :
      (results : List UnknownParameters) (message : Str) (ds : List RequestParameterDetails)
      → (add_group results message ds ≡ []) ↔ ((results ≡ []) × (ds ≡ []))
  unfolding add_group
  add_group_iff results message [] = (λ e. (e, refl), λ (p, q). p)
  add_group_iff results message (d ∷ ds) =
      (λ e. absurd (append-empty results _ e), λ (p, q). absurd (ground arith))

  settle_search_iff :
      (results : List UnknownParameters) (s : Search)
      → (settle_search is_int is_float results s ≡ ([], none)) ↔ ((results ≡ []) × (s ≡ found []))
  unfolding settle_search
  settle_search_iff results (failed e) =
      (λ q. absurd (ground arith), λ (p, q). absurd (ground arith))
  settle_search_iff results (found ds) =
      let k = add_group_iff results _ ds in
      (
        λ e. let (p, q) = k.0 (ap (λ x. x.0) e) in (p, ap found q),
        λ (p, q). ap (λ rs. (rs, none)) (k.1 (p, ground arith)),
      )

  unknown_body-json :
      (props : List Str) (args : List (Str × Str)) (j : Json)
      → unknown_body is_int is_float props args (bytes "application/json") [] j
        ≡ find_unknown is_int is_float props j 0
  unfolding unknown_body str_eq
  unknown_body-json props args j = refl

  module _ (props : List Str) (b : RequestBody) (decode : Str → Decoded) (input : Input)
      (media_type : Str) (j : Json) (has : b.has_content ≡ true)
      (filled : (length input.body == 0) ≡ false)
      (known : b.properties_of input.content_type ≡ some props)
      (read : decode input.body ≡ decoded media_type j)
      (json : parse_media_type media_type ≡ (bytes "application/json", [])) where
    body_params-json :
        (results : List UnknownParameters)
        → body_params is_int is_float results input decode (some b)
          ≡ settle_search is_int is_float results (find_unknown is_int is_float props j 0)
    unfolding body_params settle_content settle_decoded
    body_params-json results =
        rw (has, filled, known, read)
          (ap
              (λ m.
                settle_search is_int is_float results
                  (unknown_body is_int is_float props input.post_args m.0 m.1 j))
              json
            ∙ ap (settle_search is_int is_float results)
                (unknown_body-json props input.post_args j))

    -- A request with a JSON body that was decoded, of a media type that the specification knows: no
    -- unknown parameter and no error is reported exactly if the specification has every query key,
    -- and the body consists of objects, whose fields are all properties of the schema, and of arrays,
    -- none of them inside more than 32 arrays, where of an array the first 10000 elements count.
    pub validate_unknown_request_parameters-json_iff :
        (spec : List Str)
        → (validate_unknown_request_parameters is_int is_float spec (some b) decode input
            ≡ ([], none))
          ↔ (All (λ arg. is_query_known is_int is_float spec arg.0 ≡ true) input.query_args
              × IsClean props j 0)
    unfolding validate_unknown_request_parameters
    validate_unknown_request_parameters-json_iff spec =
        let ds = unknown_query is_int is_float spec input.query_args in
        let results = add_group [] unknown_query_message ds in
        let e = body_params-json results in
        let s = settle_search_iff results (find_unknown is_int is_float props j 0) in
        let g = add_group_iff [] unknown_query_message ds in
        let q = unknown_query_iff spec input.query_args in
        let f = find_unknown_iff props j 0 in
        (
          λ h. let (r, x) = s.0 (sym e ∙ h) in (q.0 ((g.0 r).1), f.0 x),
          λ (k, c). e ∙ s.1 (g.1 (refl, q.1 k), f.1 c),
        )
