-- ===== src/Router/Adding.antt =====
-- AddEndpoint and AddEndpointWithActions of internal/platform/router/mux.go, and the routes that are
-- added to a new router one after another, with an error only logged, as the handlers of the modes
-- do it.
pub mod Order
pub mod Found
use api_firewall.Base.{
  ℕ, Bool, true, false, Option, none, some, List, [], ◌∷◌, map, Str, to_upper, ◌==◌, if◌then◌else◌,
}
use api_firewall.Web.{Actions}
use api_firewall.Router.{Node, node, no_nodes, slash}
use api_firewall.Router.Lookup.{method_map, method_type}
use api_firewall.Router.Building.{InsertError}
use api_firewall.Router.Inserting.{insert}

pub data AddError : Type 0 where
  method_not_supported : AddError
  no_slash_first : AddError
  not_inserted : InsertError → AddError

abbrev pub method_types : List ℕ
method_types = map (λ m. m.1) method_map

module _ (H : Type 0) (compile : Str → Option (Str → Bool)) where
  -- `NewMux`
  abbrev pub new_mux : Node H
  new_mux =
      node (record { prefix = []; label = 0; tail = 0; rex = none; endpoints = none }) no_nodes
        no_nodes no_nodes no_nodes

  added : Node H × Option InsertError → Node H × Option AddError
  added (n, none) = (n, none)
  added (n, some e) = (n, some (not_inserted e))

  -- `handle` and `handleWithActions`
  handle : Node H → ℕ → Str → Option Actions → H → Node H × Option AddError
  unfolding added
  handle n method [] actions h = (n, some no_slash_first)
  handle n method (c ∷ pattern) actions h =
      if c == slash
      then added (insert H compile method_types method actions h (c ∷ pattern) n (c ∷ pattern))
      else (n, some no_slash_first)

  settle_method : Node H → Option ℕ → Str → Option Actions → H → Node H × Option AddError
  unfolding handle
  settle_method n none pattern actions h = (n, some method_not_supported)
  settle_method n (some m) pattern actions h = handle n m pattern actions h

  -- `AddEndpoint`, without actions, and `AddEndpointWithActions`.
  unfoldable pub add_endpoint : Node H → Str → Str → Option Actions → H → Node H × Option AddError
  unfolding settle_method method_type
  add_endpoint n method pattern actions h =
      settle_method n (method_type method_map (to_upper method)) pattern actions h

  pub record Route : Type 0 where
    pub method : Str
    pub pattern : Str
    pub actions : Option Actions
    pub handler : H

  unfoldable pub add_routes : List Route → Node H → Node H
  unfolding add_endpoint
  add_routes [] n = n
  add_routes (r ∷ rs) n = add_routes rs (add_endpoint n r.method r.pattern r.actions r.handler).0
