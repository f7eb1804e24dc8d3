-- ===== src/Router/Inserting.antt =====
-- insertRoute of internal/platform/router/tree.go. The tree is rebuilt where the source changes it in
-- place, and what an error leaves is what the source leaves. `methods` are the values of `methodMap`.
pub mod Prefix
pub mod Stays
pub mod Splitting
pub mod Following
pub mod Order
pub mod Serving
pub mod Landing
pub mod Found
use api_firewall.Base.{
  ℕ, zero, suc, ◌+◌, ◌-◌, ◌/◌, ◌%◌, ◌<◌, Bool, true, false, ◌&&◌, ◌||◌, not, Option, none, some,
  List, [], ◌∷◌, Str, str_eq, get_or, length, take, drop, ltb, leb, ◌==◌, if◌then◌else◌,
}
use api_firewall.Web.{Actions}
use api_firewall.Router.{
  Endpoint, Info, Node, node, Nodes, no_nodes, add_node, info_of, m_stub, m_all, slash,
}
use api_firewall.Router.Segments.{
  NodeType, is_static, nt_static, nt_regexp, nt_param, nt_catch_all, Segment, Parsed, segment,
  pat_next_segment, ParamKeys, keys, pat_param_keys,
}
use api_firewall.Router.Groups.{
  longest_prefix, put_endpoint, put_all, or_empty, add_to_group, with_info, fresh,
}
use api_firewall.Router.Building.{InsertError, bad_segment, bad_keys, build, attach}

module _ (H : Type 0) (compile : Str → Option (Str → Bool)) where
  module _ (methods : List ℕ) (method : ℕ) (actions : Option Actions) (handler : H)
      (pattern : Str) where
    full_endpoint : List Str → Endpoint H → Endpoint H
    full_endpoint ks e = record {
      handler = some handler;
      pattern = pattern;
      actions = actions;
      param_keys = ks;
    }

    only_handler : Endpoint H → Endpoint H
    only_handler e = record e { handler = some handler }

    endpoints_with : List Str → List (ℕ × Endpoint H) → List (ℕ × Endpoint H)
    unfolding full_endpoint only_handler put_endpoint put_all
    endpoints_with ks es =
        let stubbed = if method % 2 == 1 then put_endpoint H m_stub only_handler es else es in
        if method / 2 % 512 == 511
        then put_all H methods (full_endpoint ks) (put_endpoint H m_all (full_endpoint ks) stubbed)
        else put_endpoint H method (full_endpoint ks) stubbed

    settle_keys : ParamKeys → Info H → Info H × Option InsertError
    unfolding endpoints_with or_empty
    settle_keys (keys ks) i =
        (record i { endpoints = some (endpoints_with ks (or_empty H i.endpoints)) }, none)
    settle_keys bad i =
        (record i { endpoints = some (or_empty H i.endpoints) }, some (bad_keys bad))

    -- `setEndpoint`
    unfoldable pub set_endpoint : Node H → Node H × Option InsertError
    unfolding settle_keys pat_param_keys
    set_endpoint (node i st re pa ca) =
        let (i', e) = settle_keys (pat_param_keys pattern) i in (node i' st re pa ca, e)

    -- The edge that `getEdge` gives is the first that matches.
    pub matches : NodeType → ℕ → Segment → Info H → Bool
    matches typ label g i = i.label == label && i.tail == g.tail && elim typ [
      | nt_static ↦ true
      | nt_regexp ↦ str_eq i.prefix g.rexpat
      | nt_param ↦ true
      | nt_catch_all ↦ true
    ]

    pub new_child : Node H → ℕ → Segment → Str → Node H × Option InsertError
    unfolding build attach set_endpoint
    new_child parent label g search =
        attach H compile parent
          (build H compile (suc (length search)) (fresh H label g.tail search) search set_endpoint)

    pub below_split : Node H → Str → Node H × Option InsertError
    unfolding new_child set_endpoint
    below_split child [] = set_endpoint child
    below_split child (c ∷ rest) =
        attach H compile child (
          build H compile (suc (suc (length rest))) (fresh H c 0 (c ∷ rest)) (c ∷ rest)
            set_endpoint)

    unless_error :
        Node H × Option InsertError
        → (Node H → Node H × Option InsertError)
        → Node H × Option InsertError
    unless_error (n, none) f = f n
    unless_error (n, some e) f = (n, some e)

    -- The static node `n` shares `k` bytes with the pattern: a new node takes its place.
    pub split : Node H → ℕ → ℕ → Str → Node H × Option InsertError
    unfolding below_split attach build unless_error with_info
    split n k label search =
        let prefix = (info_of H n).prefix in
        let left = drop k prefix in
        let lower = with_info H (λ i. record i { label = get_or prefix k 0; prefix = left }) n in
        unless_error
          (attach H compile (fresh H label 0 (take k search))
            (build H compile (suc (length left)) lower left (λ c. (c, none))))
          (λ child. below_split child (drop k search))

    pub keep_first :
        Node H → Option (Nodes H × Option InsertError) → Option (Nodes H × Option InsertError)
    keep_first n none = none
    keep_first n (some (ns, e)) = some (add_node n ns, e)

    -- With the edge's group changed, or a new child where there is no edge.
    or_new :
        Node H
        → ℕ
        → Segment
        → Str
        → (Nodes H → Node H)
        → Option (Nodes H × Option InsertError)
        → Node H × Option InsertError
    unfolding new_child
    or_new parent label g search put none = new_child parent label g search
    or_new parent label g search put (some (ns, e)) = (put ns, e)

    plain : Segment
    plain = record { typ = nt_static; key = []; rexpat = []; tail = 0; start = 0; finish = 0 }

    -- The segment that the pattern starts with, as `insertRoute` parses it.
    next_segment : ℕ → Str → Parsed
    unfolding plain pat_next_segment
    next_segment c search =
        if c == b'{' || c == b'*' then pat_next_segment search else segment plain

    pub choose :
        Node H → Parsed → (Segment → Node H × Option InsertError) → Node H × Option InsertError
    choose n (segment g) f = f g
    choose n bad f = (n, some (bad_segment bad))

    -- The group of the segment's type takes the changed edge.
    pub follow :
        NodeType
        → Node H
        → ℕ
        → Segment
        → Str
        → (NodeType → Option (Nodes H × Option InsertError))
        → Node H × Option InsertError
    unfolding or_new
    follow nt_static (node i st re pa ca) c g search edge =
        or_new (node i st re pa ca) c g search (λ ns. node i ns re pa ca) (edge nt_static)
    follow nt_regexp (node i st re pa ca) c g search edge =
        or_new (node i st re pa ca) c g search (λ ns. node i st ns pa ca) (edge nt_regexp)
    follow nt_param (node i st re pa ca) c g search edge =
        or_new (node i st re pa ca) c g search (λ ns. node i st re ns ca) (edge nt_param)
    follow nt_catch_all (node i st re pa ca) c g search edge =
        or_new (node i st re pa ca) c g search (λ ns. node i st re pa ns) (edge nt_catch_all)

    mutual
      unfolding set_endpoint choose next_segment follow keep_first matches longest_prefix split

      -- `insertRoute`
      pub insert : Node H → Str → Node H × Option InsertError
      insert (node i st re pa ca) [] = set_endpoint (node i st re pa ca)
      insert (node i st re pa ca) (c ∷ s) =
          choose (node i st re pa ca) (next_segment c (c ∷ s)) (λ g.
            follow g.typ (node i st re pa ca) c g (c ∷ s) (λ typ. elim typ [
              | nt_static ↦ insert_group nt_static c g st (c ∷ s)
              | nt_regexp ↦ insert_group nt_regexp c g re (c ∷ s)
              | nt_param ↦ insert_group nt_param c g pa (c ∷ s)
              | nt_catch_all ↦ insert_group nt_catch_all c g ca (c ∷ s)
            ]))

      -- The group of a type: the edge, if it has one, followed.
      pub insert_group :
          NodeType → ℕ → Segment → Nodes H → Str → Option (Nodes H × Option InsertError)
      insert_group typ c g no_nodes search = none
      insert_group typ c g (add_node n ns) search =
          let k = longest_prefix search (info_of H n).prefix in
          let deeper = insert n (drop k search) in
          let beyond = insert n (drop g.finish search) in
          let here =
            if is_static typ
            then (if k == length (info_of H n).prefix then deeper else split n k c search)
            else beyond in
          let rest = insert_group typ c g ns search in
          if matches typ c g (info_of H n)
          then some (add_node here.0 ns, here.1)
          else keep_first n rest
