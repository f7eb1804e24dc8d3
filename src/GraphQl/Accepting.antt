-- ===== src/GraphQl/Accepting.antt =====
-- Which queries are valid.
use api_firewall.Base.{
  trim_space, ℕ, ◌≤◌, ◌≡◌, ◌≢◌, refl, subst, ◌↔◌, ◌⊎◌, inl, inr, Bool, true, false, ◌&&◌, ◌||◌,
  Option, none, some, List, [], ◌∷◌, ◌++◌, str_eq, str_eq_iff, ltb, arith, Bool-cases, All,
}
use api_firewall.GraphQl.{
  GraphQlConfig, Query, Complexity, LibraryResult, call_failed, unsuccessful, successful, Reason,
  refused, validate_operation_name, get_num_of_aliases, validate_aliases_num, check_aliases,
  exceeds, settle_complexity, validate_query, stop_on, check_complexity, settle_introspection,
  check_introspection, settle_library, check_duplicates, validate_graphql_request, too_complex,
  too_deep, too_many_nodes,
}
use api_firewall.GraphQl.Duplicates.{CountsDistinct, validate_duplicate_fields_iff, or_else_iff}

settle_introspection_iff : (x : Option Bool) → (settle_introspection x ≡ none) ↔ (x ≡ some false)
unfolding settle_introspection refused
settle_introspection_iff none = (λ e. absurd (ground arith), λ e. absurd (ground arith))
settle_introspection_iff (some true) = (λ e. absurd (ground arith), λ e. absurd (ground arith))
settle_introspection_iff (some false) = (λ e. refl, λ e. refl)

settle_library_iff : (x : LibraryResult) → (settle_library x ≡ none) ↔ (x ≡ successful)
unfolding settle_library
settle_library_iff call_failed = (λ e. absurd (ground arith), λ e. absurd (ground arith))
settle_library_iff (unsuccessful none) = (λ e. absurd (ground arith), λ e. absurd (ground arith))
settle_library_iff (unsuccessful (some s)) =
    (λ e. absurd (ground arith), λ e. absurd (ground arith))
settle_library_iff successful = (λ e. refl, λ e. refl)

stop_on_iff : (rs : List Reason) → (stop_on rs ≡ none) ↔ (rs ≡ [])
unfolding stop_on
stop_on_iff [] = (λ e. refl, λ e. refl)
stop_on_iff (r ∷ rs) = (λ e. absurd (ground arith), λ e. absurd (ground arith))

append_iff : (xs ys : List Reason) → (xs ++ ys ≡ []) ↔ ((xs ≡ []) × (ys ≡ []))
append_iff [] ys = (λ e. (refl, e), λ p. p.1)
append_iff (x ∷ xs) ys = (λ e. absurd (ground arith), λ p. absurd (ground (arith, p.0)))

module _ (cfg : GraphQlConfig) (q : Query) where
  -- Introspection is allowed, or the query is known not to be one.
  abbrev pub NoIntrospection : Type 0
  NoIntrospection = (cfg.introspection ≡ true) ⊎ (q.is_introspection ≡ some false)

  -- The operation's name is in the document, and there is one operation at most if it is empty.
  abbrev pub IsNamed : Type 0
  IsNamed =
      ((trim_space q.operation_name ≢ []) ⊎ (q.document.num_operations ≤ 1))
      × (q.document.operation_name_exists (trim_space q.operation_name) ≡ true)

  abbrev pub FewAliases : Type 0
  FewAliases = (cfg.max_aliases_num ≡ 0) ⊎ (get_num_of_aliases q.document ≤ cfg.max_aliases_num)

  -- A limit of 0 is none.
  abbrev pub IsWithin : ℕ → ℕ → Type 0
  IsWithin limit n = (limit ≡ 0) ⊎ (n ≤ limit)

  -- No limit is set, or the query's complexity is known and within them.
  abbrev pub IsSimple : Type 0
  IsSimple =
      ((cfg.node_count_limit ≡ 0) × (cfg.max_query_depth ≡ 0) × (cfg.max_query_complexity ≡ 0))
      ⊎ ((c : Complexity) × (q.calculated ≡ some c)
          × IsWithin cfg.max_query_complexity c.complexity
          × IsWithin cfg.max_query_depth c.depth
          × IsWithin cfg.node_count_limit c.node_count)

  check_introspection_iff : (check_introspection cfg q ≡ none) ↔ NoIntrospection
  unfolding check_introspection
  check_introspection_iff = elim (Bool-cases (cfg.introspection)) [
    | inl e ↦ (λ p. inl e, λ p. rw e)
    | inr e ↦
        let s = settle_introspection_iff q.is_introspection in
        (
          λ p. inr (s.0 (rw e at p)),
          λ p. elim p [ inl y ↦ absurd (ground arith) | inr y ↦ rw e (s.1 y) ],
        )
  ]

  validate_operation_name_iff :
      (validate_operation_name q.document q.operation_name ≡ none) ↔ IsNamed
  unfolding validate_operation_name refused
  validate_operation_name_iff =
      let name = trim_space q.operation_name in
      let empty = str_eq_iff name [] in
      elim (Bool-cases (str_eq name [] && ltb 1 q.document.num_operations)) [
        | inl e ↦ (
          λ p. absurd (ground arith),
          λ (p, x). elim p [
            | inl y ↦ absurd (y (empty.0 (ground arith)))
            | inr y ↦ absurd (ground arith)
          ],
        )
        | inr e ↦ elim (Bool-cases (q.document.operation_name_exists name)) [
          | inl x ↦ (
            λ p. (
              elim (Bool-cases (str_eq name [])) [
                | inr n ↦ inl (λ same. let t = empty.1 same in absurd (ground (arith, t, n)))
                | inl n ↦ inr (ground (arith, n, e))
              ],
              x,
            ),
            λ p. rw (e, x),
          )
          | inr x ↦ (λ p. absurd (ground arith), λ p. absurd (ground (arith, p.1)))
        ]
      ]

  check_aliases_iff : (check_aliases cfg.max_aliases_num q.document ≡ none) ↔ FewAliases
  unfolding check_aliases validate_aliases_num refused
  check_aliases_iff = (λ e. ground arith, λ p. ground arith)

  exceeds_iff : (limit n : ℕ) (r : Reason) → (exceeds limit n r ≡ []) ↔ IsWithin limit n
  unfolding exceeds
  exceeds_iff limit n r = (λ e. ground arith, λ p. ground arith)

  -- A query whose complexity is known and within the limits.
  abbrev IsLimited : Option Complexity → Type 0
  IsLimited x =
      (c : Complexity) × (x ≡ some c)
      × IsWithin cfg.max_query_complexity c.complexity
      × IsWithin cfg.max_query_depth c.depth
      × IsWithin cfg.node_count_limit c.node_count

  settle_complexity_iff : (x : Option Complexity) → (settle_complexity cfg x ≡ []) ↔ IsLimited x
  unfolding settle_complexity
  settle_complexity_iff none =
      (λ e. absurd (ground arith), λ (c, e, x, y, z). absurd (ground (arith, e)))
  settle_complexity_iff (some c) =
      let a = exceeds_iff cfg.max_query_complexity c.complexity too_complex in
      let b = exceeds_iff cfg.max_query_depth c.depth too_deep in
      let d = exceeds_iff cfg.node_count_limit c.node_count too_many_nodes in
      let outer =
        append_iff
          (exceeds cfg.max_query_complexity c.complexity too_complex
            ++ exceeds cfg.max_query_depth c.depth too_deep)
          (exceeds cfg.node_count_limit c.node_count too_many_nodes) in
      let inner =
        append_iff (exceeds cfg.max_query_complexity c.complexity too_complex)
          (exceeds cfg.max_query_depth c.depth too_deep) in
      (
        λ e. let (y, w) = outer.0 e in let (x, z) = inner.0 y in (c, refl, a.0 x, b.0 z, d.0 w),
        λ (k, same, x, y, z).
            let eq : k ≡ c = ground arith in
            outer.1 (
              inner.1 (
                a.1 (subst (λ t. IsWithin cfg.max_query_complexity t.complexity) eq x),
                b.1 (subst (λ t. IsWithin cfg.max_query_depth t.depth) eq y),
              ),
              d.1 (subst (λ t. IsWithin cfg.node_count_limit t.node_count) eq z),
            ),
      )

  check_complexity_iff : (check_complexity cfg q ≡ none) ↔ IsSimple
  unfolding check_complexity validate_query
  check_complexity_iff =
      let s = settle_complexity_iff q.calculated in
      let t = stop_on_iff (settle_complexity cfg q.calculated) in
      elim (Bool-cases (
        ltb 0 cfg.node_count_limit
        || ltb 0 cfg.max_query_depth
        || ltb 0 cfg.max_query_complexity)) [
          | inr e ↦ (λ p. inl (ground arith, ground arith, ground arith), λ p. rw e)
          | inl e ↦ (
            λ p. inr (s.0 (t.0 (rw e at p))),
            λ p. elim p [
              | inl (x, y, z) ↦ absurd (ground (arith, e, x, y, z))
              | inr l ↦ rw e (t.1 (s.1 l))
            ],
          )
        ]

  check_duplicates_iff : (check_duplicates cfg q.document ≡ none) ↔ (
      (cfg.disable_field_duplication ≡ false)
      ⊎ All (CountsDistinct q.document) q.document.selection_sets)
  unfolding check_duplicates
  check_duplicates_iff =
      let d = validate_duplicate_fields_iff q.document in
      elim (Bool-cases (cfg.disable_field_duplication)) [
        | inl e ↦ (
          λ p. inr (d.0 (rw e at p)),
          λ p. elim p [ inl y ↦ absurd (ground arith) | inr y ↦ rw e (d.1 y) ],
        )
        | inr e ↦ (λ p. inl e, λ p. rw e)
      ]

  -- A query is valid exactly if it is no introspection where that is not allowed, its operation is
  -- named as the document demands, its aliases and its complexity are within the limits that are
  -- set, the library can normalize it and finds it valid for the schema, and, where duplicates are
  -- not allowed, in each selection set the reference of every selection, also that of a fragment, is
  -- the number of a field of the document, and those of these fields that have no selections have
  -- distinct names.
  pub validate_graphql_request_iff : (validate_graphql_request cfg q ≡ none) ↔ (
      NoIntrospection
      × IsNamed
      × FewAliases
      × IsSimple
      × (q.normalized ≡ successful)
      × (q.valid_for_schema ≡ successful)
      × ((cfg.disable_field_duplication ≡ false)
          ⊎ All (CountsDistinct q.document) q.document.selection_sets))
  unfolding validate_graphql_request
  validate_graphql_request_iff =
      let a = or_else_iff (check_introspection cfg q) _ in
      let b = or_else_iff (validate_operation_name q.document q.operation_name) _ in
      let c = or_else_iff (check_aliases cfg.max_aliases_num q.document) _ in
      let d = or_else_iff (check_complexity cfg q) _ in
      let e = or_else_iff (settle_library q.normalized) _ in
      let f = or_else_iff (settle_library q.valid_for_schema) (check_duplicates cfg q.document) in
      (
        λ p.
            let (r1, p1) = a.0 p in
            let (r2, p2) = b.0 p1 in
            let (r3, p3) = c.0 p2 in
            let (r4, p4) = d.0 p3 in
            let (r5, p5) = e.0 p4 in
            let (r6, r7) = f.0 p5 in
            (
              check_introspection_iff.0 r1,
              validate_operation_name_iff.0 r2,
              check_aliases_iff.0 r3,
              check_complexity_iff.0 r4,
              (settle_library_iff q.normalized).0 r5,
              (settle_library_iff q.valid_for_schema).0 r6,
              check_duplicates_iff.0 r7,
            ),
        λ (r1, r2, r3, r4, r5, r6, r7). a.1 (
          check_introspection_iff.1 r1,
          b.1 (
            validate_operation_name_iff.1 r2,
            c.1 (
              check_aliases_iff.1 r3,
              d.1 (
                check_complexity_iff.1 r4,
                e.1 (
                  (settle_library_iff q.normalized).1 r5,
                  f.1 ((settle_library_iff q.valid_for_schema).1 r6, check_duplicates_iff.1 r7),
                ),
              ),
            ),
          ),
        ),
      )
