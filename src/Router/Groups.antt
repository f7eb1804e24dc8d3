-- ===== src/Router/Groups.antt =====
-- The groups of a node's children and the endpoints of a leaf, in internal/platform/router/tree.go. A
-- group of nodes is sorted by insertion, as sort.Sort does with up to 12 nodes; a group with distinct
-- labels has one order only.
pub mod Sorting
pub mod Order
use api_firewall.Base.{
  ℕ, zero, suc, ◌+◌, ◌-◌, ◌/◌, ◌%◌, ◌<◌, Bool, true, false, ◌&&◌, ◌||◌, not, Option, none, some,
  List, [], ◌∷◌, Str, str_eq, get_or, length, take, drop, ltb, leb, ◌==◌, if◌then◌else◌,
}
use api_firewall.Web.{Actions}
use api_firewall.Router.{
  Endpoint, Info, Node, node, Nodes, no_nodes, add_node, info_of, m_stub, m_all, slash,
}
use api_firewall.Router.Segments.{
  NodeType, nt_static, nt_regexp, nt_param, nt_catch_all, Segment, Parsed, segment,
  pat_next_segment, ParamKeys, keys, pat_param_keys,
}

-- `longestPrefix`
unfoldable pub longest_prefix : Str → Str → ℕ
longest_prefix [] t = 0
longest_prefix (a ∷ s) [] = 0
longest_prefix (a ∷ s) (b ∷ t) = let rest = longest_prefix s t in if a == b then suc rest else 0

module _ (H : Type 0) where
  abbrev pub no_endpoint : Endpoint H
  no_endpoint = record { handler = none; pattern = []; actions = none; param_keys = [] }

  -- `endpoints.Value`, with a change of the endpoint.
  unfoldable pub put_endpoint :
      ℕ → (Endpoint H → Endpoint H) → List (ℕ × Endpoint H) → List (ℕ × Endpoint H)
  put_endpoint method f [] = (method, f no_endpoint) ∷ []
  put_endpoint method f ((m, e) ∷ es) =
      let rest = put_endpoint method f es in if m == method then (m, f e) ∷ es else (m, e) ∷ rest

  unfoldable pub put_all :
      List ℕ → (Endpoint H → Endpoint H) → List (ℕ × Endpoint H) → List (ℕ × Endpoint H)
  unfolding put_endpoint
  put_all [] f es = es
  put_all (m ∷ ms) f es = put_all ms f (put_endpoint m f es)

  unfoldable pub or_empty : Option (List (ℕ × Endpoint H)) → List (ℕ × Endpoint H)
  or_empty none = []
  or_empty (some es) = es

  -- `nodes.Sort`: by label; and for parameters a node with the tail `/` goes to the end.
  unfoldable pub insert_sorted : Node H → Nodes H → Nodes H
  insert_sorted n no_nodes = add_node n no_nodes
  insert_sorted n (add_node m ms) =
      let rest = insert_sorted n ms in
      if ltb (info_of H m).label (info_of H n).label
      then add_node m rest
      else add_node n (add_node m ms)

  unfoldable pub sort_nodes : Nodes H → Nodes H
  unfolding insert_sorted
  sort_nodes no_nodes = no_nodes
  sort_nodes (add_node n ns) = insert_sorted n (sort_nodes ns)

  unfoldable pub append_node : Nodes H → Node H → Nodes H
  append_node no_nodes n = add_node n no_nodes
  append_node (add_node m ms) n = add_node m (append_node ms n)

  -- The index of the last node with the tail `/`.
  unfoldable pub last_slash : Nodes H → Option ℕ
  last_slash no_nodes = none
  last_slash (add_node n ns) = elim (last_slash ns) [
    | some i ↦ some (suc i)
    | none ↦ if (info_of H n).tail == slash then some 0 else none
  ]

  unfoldable pub last_of : Node H → Nodes H → Node H
  last_of n no_nodes = n
  last_of n (add_node m ms) = last_of m ms

  unfoldable pub replace_last : Nodes H → Node H → Nodes H
  replace_last no_nodes x = no_nodes
  replace_last (add_node n no_nodes) x = add_node x no_nodes
  replace_last (add_node n (add_node m ms)) x = add_node n (replace_last (add_node m ms) x)

  -- The node at an index changes places with the last one.
  unfoldable pub swap_last : Nodes H → ℕ → Nodes H
  unfolding last_of replace_last
  swap_last no_nodes i = no_nodes
  swap_last (add_node n no_nodes) i = add_node n no_nodes
  swap_last (add_node n (add_node m ms)) zero =
      add_node (last_of m ms) (replace_last (add_node m ms) n)
  swap_last (add_node n (add_node m ms)) (suc i) = add_node n (swap_last (add_node m ms) i)

  unfoldable pub tail_sort : Nodes H → Nodes H
  unfolding last_slash swap_last
  tail_sort ns = elim (last_slash ns) [ none ↦ ns | some i ↦ swap_last ns i ]

  -- `append` and `Sort` on the group of a type.
  unfoldable pub add_to_group : NodeType → Node H → Node H → Node H
  unfolding sort_nodes append_node tail_sort
  add_to_group nt_static child (node i st re pa ca) =
      node i (sort_nodes (append_node st child)) re pa ca
  add_to_group nt_regexp child (node i st re pa ca) =
      node i st (tail_sort (sort_nodes (append_node re child))) pa ca
  add_to_group nt_param child (node i st re pa ca) =
      node i st re (tail_sort (sort_nodes (append_node pa child))) ca
  add_to_group nt_catch_all child (node i st re pa ca) =
      node i st re pa (tail_sort (sort_nodes (append_node ca child)))

  unfoldable pub with_info : (Info H → Info H) → Node H → Node H
  with_info f (node i st re pa ca) = node (f i) st re pa ca

  -- A new node without children.
  abbrev pub fresh : ℕ → ℕ → Str → Node H
  fresh label tail prefix =
      node (record { prefix = prefix; label = label; tail = tail; rex = none; endpoints = none })
        no_nodes no_nodes no_nodes no_nodes
