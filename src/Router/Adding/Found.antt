-- ===== src/Router/Adding/Found.antt =====
-- A route without parameters that was added is found.
use api_firewall.Base.{
  ℕ, ◌≡◌, refl, sym, ap, subst, ◌∙◌, Bool, false, Option, none, some, List, ◌∷◌, ◌/◌, ◌%◌, Str,
  to_upper, ◌==◌, arith,
}
use api_firewall.Web.{Actions}
use api_firewall.Router.{Node, slash, try_rest, leaf, then_try}
use api_firewall.Router.Segments.Starts.{IsPlain}
use api_firewall.Router.Lookup.{method_map, method_type, Context, hit, find_with_actions}
use api_firewall.Router.Lookup.Hit.{method_type-All, find_with_actions-hit}
use api_firewall.Router.Building.{InsertError}
use api_firewall.Router.Inserting.{insert}
use api_firewall.Router.Inserting.Landing.{endpoint}
use api_firewall.Router.Inserting.Found.{insert-Lands}
use api_firewall.Router.Adding.{
  AddError, method_types, new_mux, added, handle, settle_method, add_endpoint, Route, add_routes,
}
use api_firewall.Router.Adding.Order.{add_routes-IsOrdered}

-- The type of a method is a single bit, and not that of stubs.
abbrev IsSingle : ℕ → Type 0
IsSingle m = ((m % 2 == 1) ≡ false) × ((m / 2 % 512 == 511) ≡ false)

method_type-IsSingle : (method : Str) (m : ℕ) → method_type method_map method ≡ some m → IsSingle m
method_type-IsSingle method m e =
    method_type-All IsSingle method_map method m
      (
        (refl, refl),
        (
          (refl, refl),
          (
            (refl, refl),
            (
              (refl, refl),
              ((refl, refl), ((refl, refl), ((refl, refl), ((refl, refl), ((refl, refl), tt))))),
            ),
          ),
        ),
      )
      e

module _ (H : Type 0) (compile : Str → Option (Str → Bool)) where
  added-none : (r : Node H × Option InsertError) → r.1 ≡ none → added H compile r ≡ (r.0, none)
  unfolding added
  added-none (n, none) e = refl
  added-none (n, some e) q = absurd (ground (arith, q))

  -- The insertion that an addition makes.
  add_endpoint-insert :
      (n : Node H) (method t : Str) (m : ℕ) (actions : Option Actions) (h : H)
      → method_type method_map (to_upper method) ≡ some m
      → add_endpoint H compile n method (slash ∷ t) actions h
        ≡ added H compile (insert H compile method_types m actions h (slash ∷ t) n (slash ∷ t))
  unfolding add_endpoint settle_method handle
  add_endpoint-insert n method t m actions h e =
      ap (λ o. settle_method H compile n o (slash ∷ t) actions h) e

  -- A route is added whose pattern starts with a slash and has neither parameters nor a wildcard,
  -- with a method that is supported, whatever its case, to a router that other routes were added
  -- to: this gives no error, and a lookup with the method in upper case and the pattern as the
  -- path then gives the route's handler and actions.
  pub add_endpoint-found :
      (rs : List (Route H compile)) (method t : Str) (m : ℕ) (actions : Option Actions) (h : H)
      (c : Context)
      → method_type method_map (to_upper method) ≡ some m
      → IsPlain (slash ∷ t)
      → ((add_endpoint H compile
            (add_routes H compile rs (new_mux H compile))
            method
            (slash ∷ t)
            actions
            h).1
          ≡ none)
        × ((find_with_actions H
              (add_endpoint H compile
                (add_routes H compile rs (new_mux H compile))
                method
                (slash ∷ t)
                actions
                h).0
              c
              (to_upper method)
              (slash ∷ t)).1
            ≡ hit (some h) actions)
  unfolding try_rest leaf then_try
  add_endpoint-found rs method t m actions h c e p =
      let n = add_routes H compile rs (new_mux H compile) in
      let (no_stub, not_all) = method_type-IsSingle (to_upper method) m e in
      let lands =
        insert-Lands H compile method_types m actions h (slash ∷ t) p no_stub not_all n (slash ∷ t)
          (add_routes-IsOrdered H compile rs) p in
      let r = insert H compile method_types m actions h (slash ∷ t) n (slash ∷ t) in
      let eq = add_endpoint-insert n method t m actions h e ∙ added-none r lands.succeeds in
      subst
        (λ (x : Node H × Option AddError).
          (x.1 ≡ none)
          × ((find_with_actions H x.0 c (to_upper method) (slash ∷ t)).1 ≡ hit (some h) actions))
        (sym eq)
        (
          refl,
          find_with_actions-hit H r.0 c (to_upper method) (slash ∷ t) m
              (endpoint H compile method_types m actions h (slash ∷ t)) e lands.hits,
        )
