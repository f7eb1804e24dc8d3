-- ===== src/Router/Adding/Order.antt =====
-- The order in a tree that routes were added to.
use api_firewall.Base.{
  ℕ, inl, inr, Bool, Bool-cases, Option, none, some, List, [], ◌∷◌, Str, to_upper, ◌==◌,
}
use api_firewall.Web.{Actions}
use api_firewall.Router.{Node, slash}
use api_firewall.Router.Lookup.{method_map, method_type}
use api_firewall.Router.Groups.Order.{IsOrdered}
use api_firewall.Router.Building.{InsertError}
use api_firewall.Router.Inserting.Order.{insert-Stays}
use api_firewall.Router.Adding.{
  method_types, new_mux, added, handle, settle_method, Route, add_routes,
}

module _ (H : Type 0) (compile : Str → Option (Str → Bool)) where
  added-IsOrdered :
      (r : Node H × Option InsertError) → IsOrdered H r.0 → IsOrdered H (added H compile r).0
  unfolding added
  added-IsOrdered (n, none) o = o
  added-IsOrdered (n, some e) o = o

  handle-IsOrdered :
      (n : Node H) (method : ℕ) (pattern : Str) (actions : Option Actions) (h : H)
      → IsOrdered H n
      → IsOrdered H (handle H compile n method pattern actions h).0
  unfolding handle
  handle-IsOrdered n method [] actions h o = o
  handle-IsOrdered n method (c ∷ p) actions h o = elim (Bool-cases (c == slash)) [
    | inl e ↦ rw e (
        added-IsOrdered _
          (insert-Stays H compile method_types method actions h (c ∷ p) n (c ∷ p) o).ordered)
    | inr e ↦ rw e o
  ]

  settle_method-IsOrdered :
      (n : Node H) (method : Option ℕ) (pattern : Str) (actions : Option Actions) (h : H)
      → IsOrdered H n
      → IsOrdered H (settle_method H compile n method pattern actions h).0
  unfolding settle_method
  settle_method-IsOrdered n none pattern actions h o = o
  settle_method-IsOrdered n (some m) pattern actions h o = handle-IsOrdered n m pattern actions h o

  add_routes-kept :
      (rs : List (Route H compile)) (n : Node H)
      → IsOrdered H n
      → IsOrdered H (add_routes H compile rs n)
  unfolding add_routes
  add_routes-kept [] n o = o
  add_routes-kept (r ∷ rs) n o = add_routes-kept rs _ (
      settle_method-IsOrdered n (method_type method_map (to_upper r.method)) r.pattern r.actions
        r.handler o)

  -- Whatever routes are added to a new router, also those that give an error, its tree is ordered:
  -- the static nodes of each group have strictly ascending labels, and each is labelled by the
  -- first byte of its prefix, which has no parameters in it.
  pub add_routes-IsOrdered :
      (rs : List (Route H compile)) → IsOrdered H (add_routes H compile rs (new_mux H compile))
  add_routes-IsOrdered rs = add_routes-kept rs (new_mux H compile) (tt, tt, tt, tt, tt, tt)
