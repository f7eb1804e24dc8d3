-- ===== src/Router/Building.antt =====
-- addChild of internal/platform/router/tree.go: the nodes for a pattern, one for each of its segments.
-- `compile` is regexp.Compile.
pub mod Joining
pub mod Order
use api_firewall.Base.{
  ℕ, zero, suc, ◌+◌, ◌-◌, ◌/◌, ◌%◌, ◌<◌, Bool, true, false, ◌&&◌, ◌||◌, not, Option, none, some,
  List, [], ◌∷◌, Str, str_eq, get_or, length, take, drop, ltb, leb, ◌==◌, if◌then◌else◌,
}
use api_firewall.Web.{Actions}
use api_firewall.Router.{
  Endpoint, Info, Node, node, Nodes, no_nodes, add_node, info_of, m_stub, m_all, slash,
}
use api_firewall.Router.Segments.{
  NodeType, is_static, nt_static, nt_regexp, nt_param, nt_catch_all, Segment, Parsed, segment,
  pat_next_segment, ParamKeys, keys, pat_param_keys,
}
use api_firewall.Router.Groups.{
  longest_prefix, put_endpoint, put_all, or_empty, add_to_group, with_info, fresh,
}

pub data InsertError : Type 0 where
  bad_segment : Parsed → InsertError
  bad_regexp : Str → InsertError
  bad_keys : ParamKeys → InsertError
  out_of_fuel : InsertError

module _ (H : Type 0) where
  -- What `addChild` does to the child: its type, and the child; or an error, which leaves the parent.
  pub data Built : Type 0 where
    built : NodeType → Node H → Option InsertError → Built
    not_built : InsertError → Built

  -- `hn.setEndpoint`, on the node that `addChild` returns.
  abbrev pub Finish : Type 0
  Finish = Node H → Node H × Option InsertError

  unfoldable pub finished : NodeType → Node H × Option InsertError → Built
  finished typ (n, e) = built typ n e

  -- The child above the rest of its pattern.
  unfoldable pub above : NodeType → Node H → Built → Built
  unfolding add_to_group
  above typ child (built t inner e) = built typ (add_to_group H t inner child) e
  above typ child (not_built e) = not_built e

  module _ (compile : Str → Option (Str → Bool)) where
    unfoldable pub below_param : NodeType → Node H → Str → Finish → (Node H → Str → Built) → Built
    unfolding finished above
    below_param typ child [] finish down = finished typ (finish child)
    below_param typ child (c ∷ rest) finish down =
        above typ child (down (fresh H c 0 (c ∷ rest)) (c ∷ rest))

    unfoldable pub below_static : Node H → Segment → Str → (Node H → Str → Built) → Built
    unfolding above
    below_static child g [] down = not_built out_of_fuel
    below_static child g (c ∷ rest) down =
        above nt_static child (down (fresh H c g.tail []) (c ∷ rest))

    unfoldable pub param_end : Segment → Str → ℕ
    param_end g search = elim (g.typ) [
      | nt_static ↦ 0
      | nt_regexp ↦ g.finish
      | nt_param ↦ g.finish
      | nt_catch_all ↦ length search
    ]

    -- A segment that is not static, at the start of the pattern or behind a static one.
    unfoldable pub placed : Segment → Node H → Str → Finish → (Node H → Str → Built) → Built
    unfolding below_param below_static with_info param_end
    placed g child search finish down =
        if g.start == 0
        then below_param g.typ (with_info H (λ i. record i { tail = g.tail }) child)
            (drop (param_end g search) search) finish down
        else below_static
            (with_info H (λ i. record i { prefix = take g.start search; rex = none }) child) g
            (drop g.start search) down

    unfoldable pub with_rex : Str → Option (Str → Bool) → Node H → (Node H → Built) → Built
    unfolding with_info
    with_rex rexpat none child f = not_built (bad_regexp rexpat)
    with_rex rexpat (some rex) child f =
        f (with_info H (λ i. record i { prefix = rexpat; rex = some rex }) child)

    unfoldable pub by_type :
        NodeType → Segment → Node H → Str → Finish → (Node H → Str → Built) → Built
    unfolding finished placed with_rex
    by_type nt_static g child search finish down = finished nt_static (finish child)
    by_type nt_regexp g child search finish down =
        with_rex g.rexpat (compile g.rexpat) child (λ c. placed g c search finish down)
    by_type nt_param g child search finish down = placed g child search finish down
    by_type nt_catch_all g child search finish down = placed g child search finish down

    unfoldable pub by_segment : Parsed → Node H → Str → Finish → (Node H → Str → Built) → Built
    unfolding by_type
    by_segment (segment g) child search finish down = by_type g.typ g child search finish down
    by_segment bad child search finish down = not_built (bad_segment bad)

    -- `addChild`; each call has a shorter pattern.
    unfoldable pub build : ℕ → Node H → Str → Finish → Built
    unfolding by_segment pat_next_segment
    build zero child search finish = not_built out_of_fuel
    build (suc fuel) child search finish =
        by_segment (pat_next_segment search) child search finish
          (λ n rest. build fuel n rest finish)

    -- `addChild` on the parent; an error leaves it as it is.
    unfoldable pub attach : Node H → Built → Node H × Option InsertError
    unfolding add_to_group
    attach parent (built typ child e) = (add_to_group H typ child parent, e)
    attach parent (not_built e) = (parent, some e)
