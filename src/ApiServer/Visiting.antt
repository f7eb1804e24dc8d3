-- ===== src/ApiServer/Visiting.antt =====
-- What the visits of the schemas leave in the context.
use api_firewall.Base.{
  ◌≡◌, refl, sym, ap, subst, ◌∙◌, ◌⊎◌, inl, inr, ℕ, Bool, true, false, Bool-cases, Option, none,
  some, List, [], ◌∷◌, Str, All, ◌==◌, if◌then◌else◌, arith,
}
use api_firewall.ApiMode.{
  Values, Ending, ended, panic_error, panic_value, Validation, validated, not_validated,
  validation_panic, RequestConfig,
}
use api_firewall.ApiServer.{
  Context, ServerHandler, set_values, not_found_values, settle_validation, handler, settle_error,
  handle, logged, passes_options, visit, visits,
}
use api_firewall.ApiServer.Expected.{
  Routed, no_values, IsGate, find, found_handler, validation_values, routed_values, values_of,
  global_after, global_after-none,
}

module _ (cfg : RequestConfig) (middleware : ServerHandler → ServerHandler)
    (blocks : Option ℕ) where
  -- What a handler leaves: the values of the schema, and the status code for all.
  record Left (id : ℕ) (v : Values) (g : Option ℕ) (c : Context) (r : Context × Ending)
      : Type 0 where
    returns : r.1 ≡ ended none
    here : r.0.values id ≡ v
    elsewhere : (i : ℕ) → (i == id) ≡ false → r.0.values i ≡ c.values i
    global : r.0.global_status ≡ g

  set_values-Left :
      (id : ℕ) (v w : Values) (c : Context)
      → w ≡ v
      → Left id v c.global_status c (set_values c id w, ended none)
  unfolding set_values
  set_values-Left id v w c e = record {
    returns = refl;
    here = ground (arith, e);
    elsewhere = λ i ne. ground (arith, ne);
    global = refl;
  }

  abbrev OneOf : Values → Values → Type 0
  OneOf v w = (v ≡ no_values) ⊎ (v ≡ w)

  put_status : ℕ → Values → Values
  put_status n v = record v { status = some n }

  with_status :
      (n : ℕ) (v : Values)
      → OneOf v (record { status = some n; errors = none })
      → record v { status = some n } ≡ record { status = some n; errors = none }
  unfolding put_status
  with_status n v (inl e) = ap (put_status n) e
  with_status n v (inr e) = ap (put_status n) e

  unblocked-no_values : (v : Values) → OneOf v no_values → v ≡ no_values
  unblocked-no_values v (inl e) = e
  unblocked-no_values v (inr e) = e

  settle_validation-Left :
      (id : ℕ) (version : Str) (x : Validation) (c : Context)
      → OneOf (c.values id) (validation_values id version x)
      → Left id
          (validation_values id version x)
          c.global_status
          c
          (settle_validation id version x c)
  unfolding settle_validation validation_values
  settle_validation-Left id version (validated []) c o =
      set_values-Left id _ _ c (with_status 200 (c.values id) o)
  settle_validation-Left id version (validated (e ∷ es)) c o = set_values-Left id _ _ c refl
  settle_validation-Left id version (not_validated e) c o =
      set_values-Left id _ _ c (with_status 500 (c.values id) o)
  settle_validation-Left id version (validation_panic e) c o = record {
    returns = refl;
    here = unblocked-no_values (c.values id) o;
    elsewhere = λ i ne. refl;
    global = refl;
  }

  handler-Left :
      (id : ℕ) (has_route : Bool) (version : Str) (x : Validation) (c : Context)
      → OneOf (c.values id) (
          routed_values id
            (record { has_route = has_route; version = version; validation = x })
            none)
      → Left id
          (routed_values id
            (record { has_route = has_route; version = version; validation = x })
            none)
          c.global_status
          c
          (handler id has_route version x c)
  unfolding handler routed_values not_found_values
  handler-Left id true version x c o = settle_validation-Left id version x c o
  handler-Left id false version x c o = set_values-Left id _ _ c refl

  -- What a visit leaves.
  record Visited (id : ℕ) (v : Values) (g : Option ℕ) (c : Context) (r : Context × Bool)
      : Type 0 where
    goes_on : r.1 ≡ true
    here : r.0.values id ≡ v
    elsewhere : (i : ℕ) → (i == id) ≡ false → r.0.values i ≡ c.values i
    global : r.0.global_status ≡ g

  Left-Visited :
      (id : ℕ) (v : Values) (g : Option ℕ) (c : Context) (r : Context × Ending)
      → Left id v g c r
      → Visited id v g c (logged cfg (settle_error r))
  unfolding logged settle_error
  Left-Visited id v g c (c', ended none) l = record {
    goes_on = refl;
    here = l.here;
    elsewhere = l.elsewhere;
    global = l.global;
  }
  Left-Visited id v g c (c', ended (some e)) l = absurd (ground (arith, l.returns))
  Left-Visited id v g c (c', panic_error e) l = absurd (ground (arith, l.returns))
  Left-Visited id v g c (c', panic_value e) l = absurd (ground (arith, l.returns))

  not_routed-Visited :
      (id : ℕ) (b : Bool) (c : Context)
      → OneOf
          (c.values id)
          (if b then record { status = some 200; errors = none } else not_found_values id)
      → Visited id
          (if b then record { status = some 200; errors = none } else not_found_values id)
          c.global_status
          c
          (if b
            then (set_values c id (record (c.values id) { status = some 200 }), true)
            else (set_values c id (not_found_values id), true))
  not_routed-Visited id true c o =
      let l = set_values-Left id _ _ c (with_status 200 (c.values id) o) in
      record { goes_on = refl; here = l.here; elsewhere = l.elsewhere; global = l.global }
  not_routed-Visited id false c o =
      let l = set_values-Left id _ (not_found_values id) c refl in
      record { goes_on = refl; here = l.here; elsewhere = l.elsewhere; global = l.global }

  gated-Left :
      (id : ℕ) (r : Routed) (b : Option ℕ) (c : Context)
      → OneOf (c.values id) (routed_values id r b)
      → Left id (routed_values id r b) (global_after b (some r) c.global_status) c (elim b [
        | none ↦ handler id r.has_route r.version r.validation c
        | some code ↦ (record c { global_status = some code }, ended none)
      ])
  unfolding routed_values global_after
  gated-Left id r none c o = handler-Left id r.has_route r.version r.validation c o
  gated-Left id r (some code) c o = record {
    returns = refl;
    here = unblocked-no_values (c.values id) o;
    elsewhere = λ i ne. refl;
    global = refl;
  }

  visit-Visited :
      IsGate middleware blocks
      → (id : ℕ) (x : Option Routed) (c : Context) → OneOf (c.values id) (values_of cfg blocks id x)
      → Visited id
          (values_of cfg blocks id x)
          (global_after blocks x c.global_status)
          c
          (visit cfg id (found_handler middleware id x) c)
  unfolding values_of global_after visit handle
  visit-Visited gate id (some r) c o = Left-Visited id _ _ c _ (
      subst
        (λ t.
          Left id (routed_values id r blocks) (global_after blocks (some r) c.global_status) c t)
        (sym (gate (handler id r.has_route r.version r.validation) c)) (gated-Left id r blocks c o))
  visit-Visited gate id none c o =
      subst (λ g. Visited id (values_of cfg blocks id none) g c (visit cfg id none c))
        (global_after-none blocks c.global_status) (not_routed-Visited id (passes_options cfg) c o)

  module _ (routes : ℕ → Option Routed) where
    abbrev pub Settled : ℕ → Values → Type 0
    Settled i v = v ≡ values_of cfg blocks i (routes i)

    abbrev pub IsFresh : Context → Type 0
    IsFresh c = (i : ℕ) → OneOf (c.values i) (values_of cfg blocks i (routes i))

    Visited-elsewhere :
        (id i : ℕ) (g : Option ℕ) (c : Context) (r : Context × Bool)
        → Visited id (values_of cfg blocks id (routes id)) g c r
        → Settled i (r.0.values i) ⊎ (r.0.values i ≡ c.values i)
    Visited-elsewhere id i g c r v = elim (Bool-cases (i == id)) [
      | inl e ↦
          let eq : id ≡ i = ground (arith, e) in
          inl (subst (λ k. Settled k (r.0.values k)) eq v.here)
      | inr e ↦ inr (v.elsewhere i e)
    ]

    Settled-kept : (i : ℕ) (w u : Values) → Settled i w ⊎ (w ≡ u) → Settled i u → Settled i w
    Settled-kept i w u (inl e) s = e
    Settled-kept i w u (inr e) s = e ∙ s

    OneOf-kept :
        (i : ℕ) (w u : Values)
        → Settled i w ⊎ (w ≡ u)
        → OneOf u (values_of cfg blocks i (routes i))
        → OneOf w (values_of cfg blocks i (routes i))
    OneOf-kept i w u (inl e) o = inr e
    OneOf-kept i w u (inr e) (inl f) = inl (e ∙ f)
    OneOf-kept i w u (inr e) (inr f) = inr (e ∙ f)

    unfoldable pub globals : Option ℕ → List ℕ → Option ℕ → Option ℕ
    unfolding global_after
    globals b [] g = g
    globals b (id ∷ ids) g = globals b ids (global_after b (routes id) g)

    pub record Through (ids : List ℕ) (c : Context) (r : Context × Bool) : Type 0 where
      pub goes_on : r.1 ≡ true
      pub all : All (λ i. Settled i (r.0.values i)) ids
      pub kept : (i : ℕ) → Settled i (c.values i) → Settled i (r.0.values i)
      pub global : r.0.global_status ≡ globals blocks ids c.global_status

    Visited-Through :
        (id : ℕ) (ids : List ℕ) (c c' : Context) (b : Bool)
        → Visited id
            (values_of cfg blocks id (routes id))
            (global_after blocks (routes id) c.global_status)
            c
            (c', b)
        → Through ids c' (visits cfg (find middleware routes) ids c')
        → Through
            (id ∷ ids)
            c
            (if b then visits cfg (find middleware routes) ids c' else (c', false))
    unfolding globals
    Visited-Through id ids c c' true v t = record {
      goes_on = t.goes_on;
      all = (t.kept id v.here, t.all);
      kept = λ i e. t.kept i (Settled-kept i _ _ (Visited-elsewhere id i _ c (c', true) v) e);
      global = t.global ∙ ap (globals blocks ids) v.global;
    }
    Visited-Through id ids c c' false v t = absurd (ground (arith, v.goes_on))

    pub visits-Through :
        IsGate middleware blocks
        → (ids : List ℕ) (c : Context) → IsFresh c
        → Through ids c (visits cfg (find middleware routes) ids c)
    unfolding visits globals
    visits-Through gate [] c fresh = record {
      goes_on = refl;
      all = tt;
      kept = λ i e. e;
      global = refl;
    }
    visits-Through gate (id ∷ ids) c fresh =
        let v = visit-Visited gate id (routes id) c (fresh id) in
        Visited-Through id ids c _ _ v (
          visits-Through gate ids _
            (λ i. OneOf-kept i _ _ (Visited-elsewhere id i _ c _ v) (fresh i)))
