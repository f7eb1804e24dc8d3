-- ===== src/Router/Matching.antt =====
-- The ways through the routing tree that spell a path, and what a search leaves.
use api_firewall.Base.{ℕ, ◌≡◌, Bool, true, false, ◌⊎◌, Option, none, some, List, [], ◌∷◌, ◌++◌, Str}
use api_firewall.Router.{
  Endpoint, Info, Node, node, Nodes, no_nodes, add_node, info_of, Search, served,
}
use api_firewall.Router.Values.{IsValue}

module _ (H : Type 0) where
  abbrev pub In : Node H → Nodes H → Type 0
  In x no_nodes = ⊥
  In x (add_node n ns) = (x ≡ n) ⊎ In x ns

  abbrev pub group : Bool → Nodes H → Nodes H → Nodes H
  group true re pa = re
  group false re pa = pa

  -- The last node of a group.
  abbrev pub IsLast : Node H → Nodes H → Type 0
  IsLast x no_nodes = ⊥
  IsLast x (add_node n no_nodes) = x ≡ n
  IsLast x (add_node n (add_node n' ns)) = IsLast x (add_node n' ns)

  -- The first node of a group.
  abbrev pub IsFirst : Node H → Nodes H → Type 0
  IsFirst x no_nodes = ⊥
  IsFirst x (add_node n ns) = x ≡ n

  -- A way through the tree that spells a path by static prefixes and values: the values met, and
  -- the node at its end. The last parameter node of a group may be given an empty value.
  pub data Matches : Node H → Str → List Str → Info H → Type 0 where
    static_end :
        {i : Info H} {st re pa ca : Nodes H} {path : Str} (n : Node H)
        → In n st
        → path ≡ (info_of H n).prefix ++ []
        → Matches (node i st re pa ca) path [] (info_of H n)
    static_more :
        {i : Info H} {st re pa ca : Nodes H} {path : Str} {vs : List Str} {o : Info H} (n : Node H)
        (rest : Str)
        → In n st
        → path ≡ (info_of H n).prefix ++ rest
        → Matches n rest vs o
        → Matches (node i st re pa ca) path vs o
    value_end :
        {i : Info H} {st re pa ca : Nodes H} {path v : Str} (is_regexp : Bool) (n : Node H)
        → In n (group is_regexp re pa)
        → IsValue H is_regexp (info_of H n) path v []
        → Matches (node i st re pa ca) path (v ∷ []) (info_of H n)
    value_more :
        {i : Info H} {st re pa ca : Nodes H} {path v : Str} {vs : List Str} {o : Info H}
        (is_regexp : Bool) (n : Node H) (rest : Str)
        → In n (group is_regexp re pa)
        → IsValue H is_regexp (info_of H n) path v rest
        → Matches n rest vs o
        → Matches (node i st re pa ca) path (v ∷ vs) o
    no_value :
        {i : Info H} {st re pa ca : Nodes H} {path : Str} {vs : List Str} {o : Info H}
        (is_regexp : Bool) (n : Node H)
        → IsLast n (group is_regexp re pa)
        → Matches n path vs o
        → Matches (node i st re pa ca) path ([] ∷ vs) o
    rest_end :
        {i : Info H} {st re pa ca : Nodes H} {path : Str} (n : Node H)
        → IsFirst n ca
        → Matches (node i st re pa ca) path (path ∷ []) (info_of H n)
    rest_more :
        {i : Info H} {st re pa ca : Nodes H} {path : Str} {vs : List Str} {o : Info H} (n : Node H)
        → IsFirst n ca
        → Matches n [] vs o
        → Matches (node i st re pa ca) path (path ∷ vs) o

  -- The keys of the endpoint for a method, which has a handler, join the keys.
  pub record Keys (m : ℕ) (o : Info H) (before after : List Str) : Type 0 where
    pub table : List (ℕ × Endpoint H)
    pub endpoint : Endpoint H
    pub is_leaf : o.endpoints ≡ some table
    pub is_served : served H table m ≡ some endpoint
    pub joined : after ≡ before ++ endpoint.param_keys

  -- What a search from `s` leaves: the values of a way that satisfies `P`, or all as it was.
  unfoldable pub Found :
      ℕ → (List Str → Info H → Type 0) → Search H → Search H × Option (Info H) → Type 0
  Found m P s (t, some o) =
      (vs : List Str) × P vs o × (t.values ≡ s.values ++ vs) × Keys m o s.keys t.keys
  Found m P s (t, none) = (t.values ≡ s.values) × (t.keys ≡ s.keys)
