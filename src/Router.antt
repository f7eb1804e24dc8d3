-- ===== src/Router.antt =====
-- internal/platform/router/tree.go: the search in the routing tree. A regular expression is the
-- parameter `rex` of its node, a handler is of any type `H`, and a node's type is the group of
-- children that holds it. A map from methods to endpoints is a list, in some order. Routers are
-- never mounted in one another here, so nodes have no subroutes.
pub mod Values
pub mod Matching
pub mod Combining
pub mod Finding
pub mod Lookup
pub mod Edges
pub mod Segments
pub mod Groups
pub mod Building
pub mod Inserting
pub mod Adding
use api_firewall.Base.{
  ℕ, zero, suc, ◌+◌, ◌-◌, ◌/◌, ◌<◌, Bool, true, false, ◌&&◌, not, Option, none, some, is_some, List,
  [], ◌∷◌, ◌++◌, map, Str, has_prefix, index_byte, get_or, length, take, drop, ltb, ◌==◌,
  if◌then◌else◌,
}
use api_firewall.Web.{Actions}

abbrev pub m_stub : ℕ
m_stub = 1

-- The methods of `methodMap` at the start, all or-ed.
abbrev pub m_all : ℕ
m_all = 1022

abbrev pub slash : ℕ
slash = b'/'

-- The binary search of `findEdge` with `j` + 1 for the source's `j`; `fuel` is the number of
-- labels. The result is the index that the loop ends with.
edge_loop : ℕ → List ℕ → ℕ → ℕ → ℕ → ℕ → ℕ
edge_loop zero ls label i j idx = idx
edge_loop (suc fuel) ls label i j idx =
    let mid = i + (j - 1 - i) / 2 in
    let here = get_or ls mid 0 in
    let right = edge_loop fuel ls label (mid + 1) j mid in
    let left = edge_loop fuel ls label i mid mid in
    if ltb i j
    then (if ltb here label then right else if ltb label here then left else mid)
    else idx

-- `findEdge`, as the index of the node.
unfoldable pub find_edge : List ℕ → ℕ → Option ℕ
unfolding edge_loop
find_edge ls label =
    let idx = edge_loop (length ls) ls label 0 (length ls) 0 in
    if get_or ls idx 0 == label then some idx else none

first_byte : Str → ℕ
first_byte [] = 0
first_byte (b ∷ rest) = b

whole : ℕ → Str → Option ℕ
whole tail path = if tail == slash then some (length path) else none

segment_end : Bool → ℕ → Str → Option ℕ → Option ℕ
unfolding whole
segment_end is_regexp tail path none = whole tail path
segment_end is_regexp tail path (some p) = if is_regexp && p == 0 then none else some p

unfoldable pub fits : Bool → Option (Str → Bool) → Str → Bool
fits true (some rex) value = rex value
fits _ _ value = not (is_some (index_byte value slash))

module _ (H : Type 0) where
  pub record Endpoint : Type 0 where
    pub handler : Option H
    pub pattern : Str
    pub actions : Option Actions
    pub param_keys : List Str

  pub record Info : Type 0 where
    pub prefix : Str
    pub label : ℕ
    pub tail : ℕ
    pub rex : Option (Str → Bool)
    pub endpoints : Option (List (ℕ × Endpoint))

  mutual
    -- The children: static, regexp, param and catch-all nodes.
    pub data Node : Type 0 where
      node : Info → Nodes → Nodes → Nodes → Nodes → Node

    pub data Nodes : Type 0 where
      no_nodes : Nodes
      add_node : Node → Nodes → Nodes

  abbrev pub info_of : Node → Info
  info_of (node i st re pa ca) = i

  abbrev pub labels : Nodes → List ℕ
  labels no_nodes = []
  labels (add_node n ns) = (info_of n).label ∷ labels ns

  -- The parts of the context that the search changes.
  pub record Search : Type 0 where
    pub keys : List Str
    pub values : List Str
    pub allowed : List ℕ
    pub not_allowed : Bool

  abbrev pub endpoint_of : List (ℕ × Endpoint) → ℕ → Option Endpoint
  endpoint_of [] method = none
  endpoint_of ((m, e) ∷ es) method = if m == method then some e else endpoint_of es method

  -- The endpoint for a method, if it has a handler.
  served_by : Option Endpoint → Option Endpoint
  served_by none = none
  served_by (some e) = if is_some e.handler then some e else none

  unfoldable pub served : List (ℕ × Endpoint) → ℕ → Option Endpoint
  unfolding served_by
  served es method = served_by (endpoint_of es method)

  offered : List (ℕ × Endpoint) → List ℕ
  offered [] = []
  offered ((m, e) ∷ es) =
      let rest = offered es in if m == m_all then rest else if m == m_stub then rest else m ∷ rest

  settle_leaf : Info → List (ℕ × Endpoint) → Search → Option Endpoint → Search × Option Info
  unfolding offered
  settle_leaf info es s (some e) = (record s { keys = s.keys ++ e.param_keys }, some info)
  settle_leaf info es s none =
      (record s { allowed = s.allowed ++ offered es; not_allowed = true }, none)

  -- `did we find it yet?`
  at_leaf : Info → Option (List (ℕ × Endpoint)) → ℕ → Search → Search × Option Info
  unfolding settle_leaf served
  at_leaf info none method s = (s, none)
  at_leaf info (some es) method s = settle_leaf info es s (served es method)

  pub leaf : Str → Info → ℕ → Search → Search × Option Info
  unfolding at_leaf
  leaf [] info method s = at_leaf info info.endpoints method s
  leaf (b ∷ rest) info method s = (s, none)

  -- `if fin != nil { return fin }`
  pub then_try : Search × Option Info → (Search → Search × Option Info) → Search × Option Info
  then_try (s, some i) f = (s, some i)
  then_try (s, none) f = f s

  accept_cut : Bool → Info → Str → Option ℕ → Option ℕ
  unfolding fits
  accept_cut is_regexp info path none = none
  accept_cut is_regexp info path (some p) =
      if fits is_regexp info.rex (take p path) then some p else none

  -- Where the value of a parameter ends; `none` is to try the next node.
  unfoldable pub cut : Bool → Info → Str → Option ℕ
  unfolding segment_end accept_cut
  cut is_regexp info path =
      accept_cut is_regexp info path
        (segment_end is_regexp info.tail path (index_byte path info.tail))

  pub push : Str → Search → Search
  push v s = record s { values = s.values ++ v ∷ [] }

  -- `Values[:n]` where nothing was found
  pub cut_back : ℕ → Search × Option Info → Search × Option Info
  cut_back n (s, some i) = (s, some i)
  cut_back n (s, none) = (record s { values = take n s.values }, none)

  pub pop : Search × Option Info → Search × Option Info
  pop (s, some i) = (s, some i)
  pop (s, none) = (record s { values = take (length s.values - 1) s.values }, none)

  -- What is left of the path behind a static prefix.
  pub static_rest : Info → Str → Option Str
  static_rest info path =
      if has_prefix path info.prefix then some (drop (length info.prefix) path) else none

  -- A node with the rest of the path: the leaf, then what is below.
  pub try_rest :
      Option Str → Info → ℕ → Search → (Str → Search → Search × Option Info) → Search × Option Info
  unfolding then_try leaf
  try_rest none info method s below = (s, none)
  try_rest (some rest) info method s below =
      then_try (leaf rest info method s) (λ s1. below rest s1)

  -- A parameter node, with the value cut off in front.
  try_param :
      Option ℕ
      → Str
      → Info
      → ℕ
      → Search
      → (Str → Search → Search × Option Info)
      → Search × Option Info
  unfolding try_rest push cut_back
  try_param none path info method s below = (s, none)
  try_param (some p) path info method s below =
      cut_back (length s.values)
        (try_rest (some (drop p path)) info method (push (take p path) s) below)

  -- No parameter has the empty path as its value.
  unless_empty : Str → Search → (Search → Search × Option Info) → Search × Option Info
  unless_empty [] s f = (s, none)
  unless_empty (b ∷ rest) s f = f s

  mutual
    unfolding then_try find_edge first_byte try_rest try_param unless_empty push pop cut static_rest

    -- `findRoute`
    pub find_route : Node → ℕ → Str → Search → Search × Option Info
    find_route (node i st re pa ca) method path s =
        then_try (find_static st (find_edge (labels st) (first_byte path)) method path s) (λ s1.
          then_try (unless_empty path s1 (λ t. find_param true re method path t)) (λ s2.
            then_try (unless_empty path s2 (λ t. find_param false pa method path t))
              (λ s3. find_catch_all ca method path s3)))

    -- The static group: the node at the index that `findEdge` gives.
    pub find_static : Nodes → Option ℕ → ℕ → Str → Search → Search × Option Info
    find_static no_nodes at_index method path s = (s, none)
    find_static (add_node n ns) none method path s = (s, none)
    find_static (add_node n ns) (some zero) method path s =
        try_rest (static_rest (info_of n) path) (info_of n) method s
          (λ rest s1. find_route n method rest s1)
    find_static (add_node n ns) (some (suc k)) method path s = find_static ns (some k) method path s

    -- The loop over the regexp or the param group; after it the last node is tried with an empty
    -- value.
    pub find_param : Bool → Nodes → ℕ → Str → Search → Search × Option Info
    find_param is_regexp no_nodes method path s = (s, none)
    find_param is_regexp (add_node n no_nodes) method path s =
        then_try
          (try_param (cut is_regexp (info_of n) path) path (info_of n) method s
            (λ rest s1. find_route n method rest s1))
          (λ s1. pop (find_route n method path (push [] s1)))
    find_param is_regexp (add_node n (add_node n' ns)) method path s =
        then_try
          (try_param (cut is_regexp (info_of n) path) path (info_of n) method s
            (λ rest s1. find_route n method rest s1))
          (λ s1. find_param is_regexp (add_node n' ns) method path s1)

    -- The catch-all group, of which the first node takes the rest of the path.
    pub find_catch_all : Nodes → ℕ → Str → Search → Search × Option Info
    find_catch_all no_nodes method path s = (s, none)
    find_catch_all (add_node n ns) method path s = pop (
        try_rest (some []) (info_of n) method (push path s)
          (λ rest s1. find_route n method rest s1))
