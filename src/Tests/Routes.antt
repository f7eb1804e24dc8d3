-- ===== src/Tests/Routes.antt =====
-- Examples of internal/platform/router.
use api_firewall.Base.{
  ℕ, zero, suc, ◌≡◌, refl, ◌↔◌, none, some, List, [], ◌∷◌, Str, bytes, str_eq, to_upper, All, ◌≢◌,
  ◌⊎◌, inl, inr, get_elem?, arith,
}
use api_firewall.Router.{Node, node, Nodes, no_nodes, add_node, find_edge}
use api_firewall.Router.Edges.{IsAscending, find_edge_iff}
use api_firewall.Router.Lookup.{
  new_route_context, method_type, hit, find_with_actions, find_route_with_actions, Answer,
  find_route_with_actions-Answer,
}
use api_firewall.Router.Segments.{pat_param_keys}
use api_firewall.Router.Segments.Progress.{IsAnswer, pat_param_keys-IsAnswer}
use api_firewall.Router.Groups.Order.{IsOrdered}
use api_firewall.Router.Adding.{Route, new_mux, add_endpoint, add_routes}
use api_firewall.Router.Adding.Found.{add_endpoint-found}
use api_firewall.Router.Adding.Order.{add_routes-IsOrdered}

abbrev leaf : Str → ℕ → ℕ → List Str → Node ℕ
leaf prefix label handler ks =
    node
      (record {
        prefix = prefix;
        label = label;
        tail = b'/';
        rex = none;
        endpoints = some (
            (
              8,
              record { handler = some handler; pattern = prefix; actions = none; param_keys = ks },
            )
            ∷ []);
      })
      no_nodes no_nodes no_nodes no_nodes

abbrev inner : Str → Nodes ℕ → Nodes ℕ → Node ℕ
inner prefix static params =
    node (record { prefix = prefix; label = b'/'; tail = b'/'; rex = none; endpoints = none })
      static no_nodes params no_nodes

-- The tree of `/users/` followed by `me` or by `{id}`.
abbrev tree : Node ℕ
tree =
    inner []
      (add_node
        (inner (bytes "/users/") (add_node (leaf (bytes "me") b'm' 1 []) no_nodes)
          (add_node (leaf [] b'{' 2 (bytes "id" ∷ [])) no_nodes))
        no_nodes)
      no_nodes

find_route_with_actions-Answer_example :
    Answer ℕ tree 8
      (bytes "/users/42")
      (find_route_with_actions ℕ tree 8 (bytes "/users/42") new_route_context)
find_route_with_actions-Answer_example =
    find_route_with_actions-Answer ℕ tree 8 (bytes "/users/42") new_route_context refl refl

abbrev sorted : List ℕ
sorted = 10 ∷ 20 ∷ 30 ∷ []

sorted-IsAscending : IsAscending sorted
sorted-IsAscending zero zero h k = absurd (omega arith)
sorted-IsAscending zero (suc zero) h k = omega arith
sorted-IsAscending zero (suc (suc zero)) h k = omega arith
sorted-IsAscending (suc zero) (suc (suc zero)) h k = omega arith
sorted-IsAscending (suc zero) (suc zero) h k = absurd (omega arith)
sorted-IsAscending (suc zero) zero h k = absurd (omega arith)
sorted-IsAscending (suc (suc a)) zero h k = absurd (omega arith)
sorted-IsAscending (suc (suc a)) (suc zero) h k = absurd (omega arith)
sorted-IsAscending (suc (suc a)) (suc (suc zero)) h k = absurd (omega arith)
sorted-IsAscending a (suc (suc (suc b))) h k = absurd (omega arith)

find_edge_iff_example : (find_edge sorted 30 ≡ some 2) ↔ (get_elem? sorted 2 ≡ some 30)
find_edge_iff_example = find_edge_iff sorted 30 sorted-IsAscending 2 (omega arith)

pat_param_keys-IsAnswer_example : IsAnswer (pat_param_keys (bytes "/users/{id}/{name:[a-z]+}"))
pat_param_keys-IsAnswer_example = pat_param_keys-IsAnswer (bytes "/users/{id}/{name:[a-z]+}")

-- Routes with a split of a node, a parameter, and a pattern that gives an error.
abbrev some_routes : List (Route ℕ (λ p. none))
some_routes =
    record { method = bytes "GET"; pattern = bytes "/users"; actions = none; handler = 1 }
    ∷ record { method = bytes "get"; pattern = bytes "/user/{id}/x"; actions = none; handler = 2 }
    ∷ record { method = bytes "PUT"; pattern = bytes "/ping"; actions = none; handler = 3 }
    ∷ record { method = bytes "PUT"; pattern = bytes "/a*b"; actions = none; handler = 4 }
    ∷ []

add_routes-IsOrdered_example :
    IsOrdered ℕ (add_routes ℕ (λ p. none) some_routes (new_mux ℕ (λ p. none)))
add_routes-IsOrdered_example = add_routes-IsOrdered ℕ (λ p. none) some_routes

no_byte : (c : ℕ) → (c ≡ b'{') ⊎ (c ≡ b'*') → All (λ a. a ≢ c) (bytes "/user")
no_byte c (inl h) = (
  λ e. omega (arith, e, h),
  (
    λ e. omega (arith, e, h),
    (λ e. omega (arith, e, h), (λ e. omega (arith, e, h), (λ e. omega (arith, e, h), tt))),
  ),
)
no_byte c (inr h) = (
  λ e. omega (arith, e, h),
  (
    λ e. omega (arith, e, h),
    (λ e. omega (arith, e, h), (λ e. omega (arith, e, h), (λ e. omega (arith, e, h), tt))),
  ),
)

-- The new pattern splits the node of the first route.
add_endpoint-found_example :
    ((add_endpoint ℕ
        (λ p. none)
        (add_routes ℕ (λ p. none) some_routes (new_mux ℕ (λ p. none)))
        (bytes "get")
        (bytes "/user")
        none
        5).1
      ≡ none)
    × ((find_with_actions ℕ
          (add_endpoint ℕ
            (λ p. none)
            (add_routes ℕ (λ p. none) some_routes (new_mux ℕ (λ p. none)))
            (bytes "get")
            (bytes "/user")
            none
            5).0
          new_route_context
          (to_upper (bytes "get"))
          (bytes "/user")).1
        ≡ hit (some 5) none)
unfolding method_type str_eq to_upper
add_endpoint-found_example =
    add_endpoint-found ℕ (λ p. none) some_routes (bytes "get") (bytes "user") 8 none 5
      new_route_context refl (no_byte b'{' (inl refl), no_byte b'*' (inr refl))
