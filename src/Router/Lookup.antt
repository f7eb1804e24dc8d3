-- ===== src/Router/Lookup.antt =====
-- internal/platform/router/mux.go and context.go, and the two lookups of tree.go: from a method and
-- a path to a handler with the actions and the parameters in the context.
pub mod Hit
use api_firewall.Base.{
  ℕ, zero, suc, ◌≡◌, refl, sym, ◌∙◌, ap, subst, inl, inr, Bool, false, Option, none, some, List, [],
  ◌∷◌, ◌++◌, Str, bytes, str_eq, length, get_elem?, if◌then◌else◌, arith, Option-cases,
}
use api_firewall.Web.{Actions}
use api_firewall.Router.{Endpoint, Info, Node, Search, endpoint_of, served, served_by, find_route}
use api_firewall.Router.Matching.{Matches, Found}
use api_firewall.Router.Finding.{find_route-Sound}

abbrev pub method_map : List (Str × ℕ)
method_map =
    (bytes "CONNECT", 2)
    ∷ (bytes "DELETE", 4)
    ∷ (bytes "GET", 8)
    ∷ (bytes "HEAD", 16)
    ∷ (bytes "OPTIONS", 32)
    ∷ (bytes "PATCH", 64)
    ∷ (bytes "POST", 128)
    ∷ (bytes "PUT", 256)
    ∷ (bytes "TRACE", 512)
    ∷ []

unfoldable pub method_type : List (Str × ℕ) → Str → Option ℕ
method_type [] method = none
method_type ((name, m) ∷ ms) method =
    let rest = method_type ms method in if str_eq name method then some m else rest

pub record Context : Type 0 where
  pub route_keys : List Str
  pub route_values : List Str
  pub url_keys : List Str
  pub url_values : List Str
  pub route_pattern : Str
  pub route_patterns : List Str
  pub allowed : List ℕ
  pub not_allowed : Bool

-- `NewRouteContext`
abbrev pub new_route_context : Context
new_route_context = record {
  route_keys = [];
  route_values = [];
  url_keys = [];
  url_values = [];
  route_pattern = [];
  route_patterns = [];
  allowed = [];
  not_allowed = false;
}

-- The loop of `URLParam` from the last index, `k` - 1, down; `none` is an index panic.
url_param_down : List Str → List Str → Str → ℕ → Option Str
url_param_down keys values key zero = some []
url_param_down keys values key (suc k) =
    let rest = url_param_down keys values key k in
    elim (get_elem? keys k) [
      | none ↦ none
      | some name ↦ if str_eq name key then get_elem? values k else rest
    ]

unfoldable pub url_param : Context → Str → Option Str
unfolding url_param_down
url_param c key = url_param_down c.url_keys c.url_values key (length c.url_keys)

-- A Go map as a list of pairs; the first one for a key counts.
params_from : List Str → List Str → List (Str × Str) → Option (List (Str × Str))
params_from [] values acc = some acc
params_from (k ∷ ks) [] acc = none
params_from (k ∷ ks) (v ∷ values) acc = params_from ks values ((k, v) ∷ acc)

-- `AllURLParams` on the context of a route; `none` is an index panic.
unfoldable pub all_url_params : Context → Option (List (Str × Str))
unfolding params_from
all_url_params c = params_from c.url_keys c.url_values []

module _ (H : Type 0) where
  -- What a lookup ends with; `crashed` is the panic on a missing endpoint.
  pub data Lookup : Type 0 where
    missed : Lookup
    crashed : Lookup
    hit : Option H → Option Actions → Lookup

  -- The pattern of the endpoint joins the patterns, unless it is empty.
  record_pattern : Context → Str → Context
  record_pattern c [] = c
  record_pattern c (b ∷ pattern) = record c {
    route_pattern = b ∷ pattern;
    route_patterns = c.route_patterns ++ (b ∷ pattern) ∷ [];
  }

  settle_endpoint : Context → Option (Endpoint H) → Context × Lookup
  unfolding record_pattern
  settle_endpoint c none = (c, crashed)
  settle_endpoint c (some e) = (record_pattern c e.pattern, hit e.handler e.actions)

  -- `rn.endpoints[method]`
  endpoint_at : Info H → ℕ → Option (Endpoint H)
  endpoint_at i method = elim i.endpoints [ none ↦ none | some es ↦ endpoint_of H es method ]

  -- The context with what the search left.
  searched : Context → Search H → Context
  searched c t = record c {
    route_pattern = [];
    route_keys = t.keys;
    route_values = t.values;
    allowed = t.allowed;
    not_allowed = t.not_allowed;
  }

  settle_route : ℕ → Context → Search H × Option (Info H) → Context × Lookup
  unfolding settle_endpoint endpoint_at searched
  settle_route method c (t, none) = (searched c t, missed)
  settle_route method c (t, some i) =
      settle_endpoint
        (record (searched c t) {
          url_keys = c.url_keys ++ t.keys;
          url_values = c.url_values ++ t.values;
        })
        (endpoint_at i method)

  start : Context → Search H
  start c = record { keys = []; values = []; allowed = c.allowed; not_allowed = c.not_allowed }

  -- `FindRouteWithActions`; `FindRoute` differs in leaving the actions out.
  unfoldable pub find_route_with_actions : Node H → ℕ → Str → Context → Context × Lookup
  unfolding settle_route start
  find_route_with_actions n method path c =
      settle_route method c (find_route H n method path (start c))

  -- `FindWithActions`
  unfoldable pub find_with_actions : Node H → Context → Str → Str → Context × Lookup
  unfolding method_type find_route_with_actions
  find_with_actions tree c method path = elim (method_type method_map method) [
    | none ↦ (c, missed)
    | some m ↦ find_route_with_actions tree m path c
  ]

  -- What a lookup with a fresh context tells: it does not crash. On a hit there is a way through
  -- the tree that spells the path, at whose end the method has an endpoint with a handler, and the
  -- URL parameters are the endpoint's keys and the values of the way; on a miss there are none.
  pub data Answer (tree : Node H) (method : ℕ) (path : Str) : Context × Lookup → Type 0 where
    no_route :
        {c : Context} → c.url_keys ≡ [] → c.url_values ≡ [] → Answer tree method path (c, missed)
    route_to :
        {c : Context} (i : Info H) (es : List (ℕ × Endpoint H)) (e : Endpoint H) (handler : H)
        → Matches H tree path c.url_values i
        → i.endpoints ≡ some es
        → endpoint_of H es method ≡ some e
        → e.handler ≡ some handler
        → c.url_keys ≡ e.param_keys
        → Answer tree method path (c, hit (some handler) e.actions)

  served-handler :
      (es : List (ℕ × Endpoint H)) (m : ℕ) (e : Endpoint H)
      → served H es m ≡ some e
      → (endpoint_of H es m ≡ some e) × ((handler : H) × (e.handler ≡ some handler))
  unfolding served served_by
  served-handler es m e q = elim (Option-cases (endpoint_of H es m)) [
    | inl none_at ↦ absurd (ground arith)
    | inr (x, at_x) ↦ elim (Option-cases (x.handler)) [
      | inl none_at ↦ absurd (ground arith)
      | inr (handler, at_handler) ↦
          let same : x ≡ e = ground arith in
          (at_x ∙ ap some same, (handler, ap (λ y. y.handler) (sym same) ∙ at_handler))
    ]
  ]

  record_pattern_same :
      (c : Context) (pattern : Str)
      → ((record_pattern c pattern).url_keys ≡ c.url_keys)
        × ((record_pattern c pattern).url_values ≡ c.url_values)
  unfolding record_pattern
  record_pattern_same c [] = (refl, refl)
  record_pattern_same c (b ∷ pattern) = (refl, refl)

  endpoint_at_lem :
      (i : Info H) (m : ℕ) (es : Option (List (ℕ × Endpoint H))) (table : List (ℕ × Endpoint H))
      → i.endpoints ≡ some table
      → endpoint_at i m ≡ endpoint_of H table m
  unfolding endpoint_at
  endpoint_at_lem i m es table e = rw e

  route_to-handler :
      (tree : Node H) (m : ℕ) (path : Str) (c : Context) (i : Info H) (es : List (ℕ × Endpoint H))
      (e : Endpoint H) (handler : H)
      → Matches H tree path c.url_values i
      → i.endpoints ≡ some es
      → endpoint_of H es m ≡ some e
      → e.handler ≡ some handler
      → c.url_keys ≡ e.param_keys
      → Answer tree m path (settle_endpoint c (some e))
  unfolding settle_endpoint
  route_to-handler tree m path c i es e handler way leaf at_e at_h keys =
      let (same_keys, same_values) = record_pattern_same c e.pattern in
      subst (λ h. Answer tree m path (record_pattern c e.pattern, hit h e.actions)) (sym at_h)
        (route_to i es e handler (subst (λ vs. Matches H tree path vs i) (sym same_values) way) leaf
          at_e at_h (same_keys ∙ keys))

  settle_route-Answer :
      (tree : Node H) (m : ℕ) (path : Str) (c : Context) (r : Search H × Option (Info H))
      → c.url_keys ≡ []
      → c.url_values ≡ []
      → Found H m (Matches H tree path) (start c) r
      → Answer tree m path (settle_route m c r)
  unfolding settle_route Found start searched
  settle_route-Answer tree m path c (t, none) k v x = no_route k v
  settle_route-Answer tree m path c (t, some i) k v (vs, way, values, keys) =
      let (at_e, (handler, at_h)) = served-handler keys.table m keys.endpoint keys.is_served in
      let at_i : endpoint_at i m ≡ some keys.endpoint =
        endpoint_at_lem i m none keys.table keys.is_leaf ∙ at_e in
      rw at_i (
        route_to-handler tree m path _ i keys.table keys.endpoint handler
          (subst (λ ws. Matches H tree path ws i) (sym (rw v values)) way) keys.is_leaf at_e at_h
          (rw k keys.joined))

  -- A lookup with a fresh context does not crash. On a hit there is a way through the tree that
  -- spells the path, at whose end the method has an endpoint with a handler; handler and actions are
  -- the endpoint's, and the URL parameters are its keys and the values met on the way. On a miss
  -- there are no URL parameters.
  pub find_route_with_actions-Answer :
      (tree : Node H) (m : ℕ) (path : Str) (c : Context)
      → c.url_keys ≡ []
      → c.url_values ≡ []
      → Answer tree m path (find_route_with_actions tree m path c)
  unfolding find_route_with_actions
  find_route_with_actions-Answer tree m path c k v =
      settle_route-Answer tree m path c _ k v (find_route-Sound H m tree path (start c))
