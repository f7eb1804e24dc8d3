-- ===== src/ApiServer/Answering.antt =====
-- The answer of the server of API mode.
use api_firewall.Base.{
  append_nil, append_assoc, ◌≡◌, refl, sym, ap, subst, ◌∙◌, ◌⊎◌, inl, inr, ℕ, Bool, true, false,
  ◌||◌, Option, none, some, is_some, List, [], ◌∷◌, ◌++◌, map, Str, exists, All, if◌then◌else◌,
  arith,
}
use api_firewall.ApiMode.{
  ValidationError, Values, Validation, validated, not_validated, validation_panic, sample_slice,
  RequestConfig,
}
use api_firewall.Storage.{Storage}
use api_firewall.ApiServer.{
  Context, Summary, Answer, internal_error, denied, summarized, ServerHandler, not_found_values,
  passes_options, report, missing, summarize, settle_visits, settle_ids, api_mode_main_handler,
}
use api_firewall.ApiServer.Ids.{
  ℤ, pos, SchemaIds, identified, not_ready, header_missing, parsing_failed, get_wallarm_schema_id,
}
use api_firewall.ApiServer.Expected.{
  Routed, new_context, IsGate, find, code_of, errors_of, validation_code, validation_errors,
  no_route_errors, validation_values, routed_values, values_of, global_after, global_after-same,
}
use api_firewall.ApiServer.Visiting.{Settled, globals, Through, visits-Through}

module _ (cfg : RequestConfig) (middleware : ServerHandler → ServerHandler)
    (blocks : Option ℕ) where
  module _ (routes : ℕ → Option Routed) where
    globals-none :
        (ids : List ℕ) (g : Option ℕ) → globals cfg middleware blocks routes none ids g ≡ g
    unfolding globals global_after
    globals-none [] g = refl
    globals-none (id ∷ ids) g = globals-none ids g

    globals-same :
        (code : ℕ) (ids : List ℕ)
        → globals cfg middleware blocks routes (some code) ids (some code) ≡ some code
    unfolding globals
    globals-same code [] = refl
    globals-same code (id ∷ ids) =
        ap (globals cfg middleware blocks routes (some code) ids)
          (global_after-same code (routes id))
        ∙ globals-same code ids

    -- Whether a request is blocked: one of the schemas has a route for it.
    abbrev pub blocked : Option ℕ → List ℕ → Option ℕ
    blocked none ids = none
    blocked (some code) ids = if exists (λ id. is_some (routes id)) ids then some code else none

    globals-step :
        (code : ℕ) (x : Option Routed) (ids : List ℕ)
        → globals cfg middleware blocks routes (some code) ids none ≡ blocked (some code) ids
        → globals cfg middleware blocks routes (some code) ids (global_after (some code) x none)
          ≡ (if is_some x || exists (λ id. is_some (routes id)) ids then some code else none)
    unfolding global_after
    globals-step code none ids e = e
    globals-step code (some r) ids e = globals-same code ids

    globals-blocked :
        (b : Option ℕ) (ids : List ℕ)
        → globals cfg middleware blocks routes b ids none ≡ blocked b ids
    unfolding globals
    globals-blocked none ids = globals-none ids none
    globals-blocked (some code) [] = refl
    globals-blocked (some code) (id ∷ ids) =
        globals-step code (routes id) ids (globals-blocked (some code) ids)

    abbrev pub summary_of : ℕ → Summary
    summary_of id = record { schema_id = pos id; status_code = code_of cfg (routes id) }

    abbrev pub all_errors : List ℕ → List ValidationError
    all_errors [] = []
    all_errors (id ∷ ids) = errors_of cfg id (routes id) ++ all_errors ids

    abbrev Reports : ℕ → Values → ℕ → List ValidationError → Type 0
    Reports id v code errors =
        report cfg id v.status v.errors
        ≡ (record { schema_id = pos id; status_code = code }, errors)

    abbrev reported : ℕ → ℕ → List ValidationError → Summary × List ValidationError
    reported id code errors = (record { schema_id = pos id; status_code = code }, errors)

    panic-reported :
        (id : ℕ) (b : Bool)
        → (if b then reported id 200 [] else reported id 500 [])
          ≡ reported id (if b then 200 else 500) []
    panic-reported id true = refl
    panic-reported id false = refl

    validation-Reports :
        (id : ℕ) (version : Str) (x : Validation)
        → Reports id
            (validation_values id version x)
            (validation_code cfg x)
            (validation_errors id version x)
    unfolding report validation_values
    validation-Reports id version (validated []) = refl
    validation-Reports id version (validated (e ∷ es)) = refl
    validation-Reports id version (not_validated e) = refl
    validation-Reports id version (validation_panic e) = panic-reported id (passes_options cfg)

    route-Reports :
        (id : ℕ) (has_route : Bool) (version : Str) (x : Validation)
        → Reports id
            (if has_route then validation_values id version x else not_found_values id)
            (if has_route then validation_code cfg x else 403)
            (if has_route then validation_errors id version x else no_route_errors id)
    unfolding report not_found_values
    route-Reports id true version x = validation-Reports id version x
    route-Reports id false version x = refl

    no_route-Reports :
        (id : ℕ) (b : Bool)
        → Reports id
            (if b then record { status = some 200; errors = none } else not_found_values id)
            (if b then 200 else 403)
            (if b then [] else no_route_errors id)
    unfolding report not_found_values
    no_route-Reports id true = refl
    no_route-Reports id false = refl

    IsOpen : Option Routed → Type 0
    IsOpen x = (blocks ≡ none) ⊎ (x ≡ none)

    values_of-Reports :
        (id : ℕ) (x : Option Routed)
        → IsOpen x
        → Reports id (values_of cfg blocks id x) (code_of cfg x) (errors_of cfg id x)
    unfolding values_of routed_values IsOpen
    values_of-Reports id none o = no_route-Reports id (passes_options cfg)
    values_of-Reports id (some r) (inl e) =
        subst
          (λ b.
            Reports id (routed_values id r b) (code_of cfg (some r)) (errors_of cfg id (some r)))
          (sym e) (route-Reports id r.has_route r.version r.validation)
    values_of-Reports id (some r) (inr e) = absurd (ground arith)

    summarize-summarized :
        (values : ℕ → Values) (not_found : List ℤ) (ids : List ℕ) (ss : List Summary)
        (es : List ValidationError)
        → All (λ i. Settled cfg middleware blocks routes i (values i)) ids
        → All (λ i. IsOpen (routes i)) ids
        → summarize cfg none values not_found ids ss es
          ≡ summarized
              ((ss ++ map summary_of ids) ++ map missing not_found)
              (sample_slice (es ++ all_errors ids) cfg.max_errors_in_response cfg.perm)
    unfolding summarize
    summarize-summarized values not_found [] ss es settled opened =
        rw (append_nil ss, append_nil es) refl
    summarize-summarized values not_found (id ∷ ids) ss es (s, settled) (o, opened) =
        let x = routes id in
        let r : Reports id (values id) (code_of cfg x) (errors_of cfg id x) =
          subst (λ v. Reports id v (code_of cfg x) (errors_of cfg id x)) (sym s)
            (values_of-Reports id x o) in
        let one : Summary × List ValidationError → Answer =
          λ p. summarize cfg none values not_found ids (ss ++ p.0 ∷ []) (es ++ p.1) in
        ap one r
        ∙ summarize-summarized values not_found ids (ss ++ summary_of id ∷ [])
            (es ++ errors_of cfg id x) settled opened
        ∙ rw
            (
              append_assoc ss (summary_of id ∷ []) (map summary_of ids),
              append_assoc es (errors_of cfg id x) (all_errors ids),
            )
            refl

    summarize-denied :
        (code : ℕ) (values : ℕ → Values) (not_found : List ℤ) (ids : List ℕ)
        → exists (λ id. is_some (routes id)) ids ≡ true
        → summarize cfg (some code) values not_found ids [] [] ≡ denied code
    unfolding summarize
    summarize-denied code values not_found [] e = absurd (ground (arith, e))
    summarize-denied code values not_found (id ∷ ids) e = refl

    abbrev pub answer : Option ℕ → List ℕ → List ℤ → Answer
    answer (some code) found not_found = denied code
    answer none found not_found =
        summarized (map summary_of found ++ map missing not_found)
          (sample_slice (all_errors found) cfg.max_errors_in_response cfg.perm)

    opened-none : (ids : List ℕ) → blocks ≡ none → All (λ i. IsOpen (routes i)) ids
    unfolding IsOpen
    opened-none [] e = tt
    opened-none (id ∷ ids) e = (inl e, opened-none ids e)

    is_some-none : (x : Option Routed) → is_some x ≡ false → x ≡ none
    is_some-none none e = refl
    is_some-none (some r) e = absurd (ground (arith, e))

    opened-exists :
        (ids : List ℕ)
        → exists (λ id. is_some (routes id)) ids ≡ false
        → All (λ i. IsOpen (routes i)) ids
    unfolding IsOpen
    opened-exists [] e = tt
    opened-exists (id ∷ ids) e =
        (inr (is_some-none (routes id) (ground (arith, e))), opened-exists ids (ground (arith, e)))

    blocked-answer :
        (b : Option ℕ) (e : Bool) (values : ℕ → Values) (not_found : List ℤ) (ids : List ℕ)
        → blocks ≡ b
        → exists (λ id. is_some (routes id)) ids ≡ e
        → All (λ i. Settled cfg middleware blocks routes i (values i)) ids
        → summarize cfg (blocked b ids) values not_found ids [] []
          ≡ answer (blocked b ids) ids not_found
    blocked-answer none e values not_found ids q f settled =
        summarize-summarized values not_found ids [] [] settled (opened-none ids q)
    blocked-answer (some code) true values not_found ids q f settled =
        rw f (summarize-denied code values not_found ids f)
    blocked-answer (some code) false values not_found ids q f settled =
        rw f (summarize-summarized values not_found ids [] [] settled (opened-exists ids f))

    -- The answer to what the header names.
    abbrev pub answer_to : SchemaIds → Answer
    answer_to (identified found not_found) = answer (blocked blocks found) found not_found
    answer_to not_ready = internal_error
    answer_to header_missing = internal_error
    answer_to parsing_failed = internal_error

    Through-answer :
        (found : List ℕ) (not_found : List ℤ) (r : Context × Bool)
        → Through cfg middleware blocks routes found new_context r
        → settle_visits cfg found not_found r ≡ answer (blocked blocks found) found not_found
    unfolding settle_visits
    Through-answer found not_found (c, false) t = absurd (ground (arith, t.goes_on))
    Through-answer found not_found (c, true) t =
        ap (λ g. summarize cfg g c.values not_found found [] [])
          (t.global ∙ globals-blocked blocks found)
        ∙ blocked-answer blocks _ c.values not_found found refl refl t.all

    settle_ids-answer :
        IsGate middleware blocks
        → (ids : SchemaIds)
        → settle_ids cfg (find middleware routes) new_context ids ≡ answer_to ids
    unfolding settle_ids
    settle_ids-answer gate (identified found not_found) =
        Through-answer found not_found _
          (visits-Through cfg middleware blocks routes gate found new_context (λ i. inl refl))
    settle_ids-answer gate not_ready = refl
    settle_ids-answer gate header_missing = refl
    settle_ids-answer gate parsing_failed = refl

    -- The server of API mode answers a request with the summary of its schemas: for each schema that
    -- is loaded, in the order in which they come, the status code that tells whether there is a
    -- route and what the validation ended with, and for each other schema 500; and the errors of the
    -- schemas, sampled. If the middleware blocks the request and a schema has a route, the answer is
    -- the middleware's status code alone; if the header names no schemas or none can be
    -- read, it is an internal error.
    pub api_mode_main_handler-answer :
        IsGate middleware blocks
        → (s : Storage) (arrange : List ℕ → List ℕ) (header : Str)
        → api_mode_main_handler cfg (find middleware routes) s arrange header new_context
          ≡ answer_to (get_wallarm_schema_id s arrange header)
    unfolding api_mode_main_handler
    api_mode_main_handler-answer gate s arrange header =
        settle_ids-answer gate (get_wallarm_schema_id s arrange header)
