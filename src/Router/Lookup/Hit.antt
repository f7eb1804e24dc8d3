-- ===== src/Router/Lookup/Hit.antt =====
-- A lookup whose search ends at an endpoint.
use api_firewall.Base.{
  ℕ, ◌≡◌, ap, subst, ◌∙◌, inl, inr, Bool, true, false, Bool-cases, Option, none, some, is_some,
  List, [], ◌∷◌, Str, str_eq, All, if◌then◌else◌, arith,
}
use api_firewall.Router.{Endpoint, Info, Node, Search, endpoint_of, served, served_by, find_route}
use api_firewall.Router.Lookup.{
  method_map, method_type, Context, Lookup, missed, hit, settle_endpoint, endpoint_at, settle_route,
  start, find_route_with_actions, find_with_actions,
}

module _ (P : ℕ → Type 0) where
  pub method_type-All :
      (ms : List (Str × ℕ)) (method : Str) (m : ℕ)
      → All (λ p. P p.1) ms
      → method_type ms method ≡ some m
      → P m
  unfolding method_type
  method_type-All [] method m a e = absurd (ground (arith, e))
  method_type-All ((name, k) ∷ ms) method m (p, a) e = elim (Bool-cases (str_eq name method)) [
    | inl h ↦ let same : k ≡ m = ground (arith, h, e) in subst P same p
    | inr h ↦ method_type-All ms method m a (ground (arith, h, e))
  ]

module _ (H : Type 0) where
  chosen : (b : Bool) (f e : Endpoint H) → (if b then some f else none) ≡ some e → some f ≡ some e
  chosen true f e p = p
  chosen false f e p = absurd (ground (arith, p))

  served-endpoint : (o : Option (Endpoint H)) (e : Endpoint H) → served_by H o ≡ some e → o ≡ some e
  unfolding served_by
  served-endpoint none e p = p
  served-endpoint (some f) e p = chosen (is_some f.handler) f e p

  endpoint_at-some :
      (i : Info H) (method : ℕ) (es : List (ℕ × Endpoint H)) (e : Endpoint H)
      → i.endpoints ≡ some es
      → served H es method ≡ some e
      → endpoint_at H i method ≡ some e
  unfolding endpoint_at served
  endpoint_at-some i method es e p q =
      ap
        (λ (o : Option (List (ℕ × Endpoint H))). elim o [
          | none ↦ none
          | some fs ↦ endpoint_of H fs method
        ])
        p
      ∙ served-endpoint (endpoint_of H es method) e q

  settle_endpoint-hit :
      (c : Context) (o : Option (Endpoint H)) (e : Endpoint H)
      → o ≡ some e
      → (settle_endpoint H c o).1 ≡ hit e.handler e.actions
  unfolding settle_endpoint
  settle_endpoint-hit c o e p = ap (λ o. (settle_endpoint H c o).1) p

  settle_route-hit :
      (method : ℕ) (c : Context) (s : Search H) (i : Info H) (es : List (ℕ × Endpoint H))
      (e : Endpoint H)
      → i.endpoints ≡ some es
      → served H es method ≡ some e
      → (settle_route H method c (s, some i)).1 ≡ hit e.handler e.actions
  unfolding settle_route
  settle_route-hit method c s i es e p q =
      settle_endpoint-hit _ (endpoint_at H i method) e (endpoint_at-some i method es e p q)

  -- A lookup whose search ends at an endpoint gives the endpoint's handler and actions.
  pub find_with_actions-hit :
      (tree : Node H) (c : Context) (method path : Str) (m : ℕ) (e : Endpoint H)
      → method_type method_map method ≡ some m
      → ((s : Search H)
          → (s' : Search H) × (i : Info H) × (find_route H tree m path s ≡ (s', some i))
            × ((es : List (ℕ × Endpoint H)) × (i.endpoints ≡ some es) × (served H es m ≡ some e)))
      → (find_with_actions H tree c method path).1 ≡ hit e.handler e.actions
  unfolding find_with_actions find_route_with_actions
  find_with_actions-hit tree c method path m e k f =
      let (s', i, q, (es, p, v)) = f (start H c) in
      let go : Option ℕ → Context × Lookup H =
        λ o. elim o [ none ↦ (c, missed) | some j ↦ find_route_with_actions H tree j path c ] in
      ap (λ o. (go o).1) k
      ∙ ap (λ r. (settle_route H m c r).1) q
      ∙ settle_route-hit m c s' i es e p v
