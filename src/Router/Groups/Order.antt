-- ===== src/Router/Groups/Order.antt =====
-- The order in the tree: the static nodes of each group have strictly ascending labels, as the binary
-- search among them needs it.
use api_firewall.Base.{◌≡◌, refl, ◌∷◌, Str}
use api_firewall.Router.{Info, Node, node, Nodes, no_nodes, add_node, info_of}
use api_firewall.Router.Segments.{NodeType, nt_static, nt_regexp, nt_param, nt_catch_all}
use api_firewall.Router.Segments.Starts.{IsPlain}
use api_firewall.Router.Groups.{sort_nodes, append_node, tail_sort, add_to_group, with_info}
use api_firewall.Router.Groups.Sorting.{
  Lacks, IsAscending, AllNodes, append_node-IsAscending, append_node-AllNodes, tail_sort-AllNodes,
}

module _ (H : Type 0) where
  -- A static node: its label is the first byte of its prefix, and it has neither tail nor parameters.
  pub record IsEntry (i : Info H) : Type 0 where
    pub rest : Str
    pub first : i.prefix ≡ i.label ∷ rest
    pub no_tail : i.tail ≡ 0
    pub plain : IsPlain i.prefix

  abbrev mutual
    pub IsOrdered : Node H → Type 0
    IsOrdered (node i st re pa ca) =
        IsAscending H st
        × AllNodes H (λ n. IsEntry (info_of H n)) st
        × AllOrdered st
        × AllOrdered re
        × AllOrdered pa
        × AllOrdered ca

    pub AllOrdered : Nodes H → Type 0
    AllOrdered no_nodes = Unit
    AllOrdered (add_node n ns) = IsOrdered n × AllOrdered ns

  to_nodes : (ns : Nodes H) → AllOrdered ns → AllNodes H IsOrdered ns
  to_nodes no_nodes a = tt
  to_nodes (add_node n ns) (o, a) = (o, to_nodes ns a)

  from_nodes : (ns : Nodes H) → AllNodes H IsOrdered ns → AllOrdered ns
  from_nodes no_nodes a = tt
  from_nodes (add_node n ns) (o, a) = (o, from_nodes ns a)

  sorted-AllOrdered :
      (ns : Nodes H) (n : Node H)
      → AllOrdered ns
      → IsOrdered n
      → AllOrdered (sort_nodes H (append_node H ns n))
  sorted-AllOrdered ns n a o =
      from_nodes _ (append_node-AllNodes H IsOrdered ns n (to_nodes ns a) o)

  grouped-AllOrdered :
      (ns : Nodes H) (n : Node H)
      → AllOrdered ns
      → IsOrdered n
      → AllOrdered (tail_sort H (sort_nodes H (append_node H ns n)))
  grouped-AllOrdered ns n a o =
      from_nodes _
        (tail_sort-AllNodes H IsOrdered _ (append_node-AllNodes H IsOrdered ns n (to_nodes ns a) o))

  abbrev pub statics : Node H → Nodes H
  statics (node i st re pa ca) = st

  -- A static child has a label that its parent's static group lacks.
  abbrev pub Fits : NodeType → Node H → Node H → Type 0
  Fits nt_static child parent =
      IsEntry (info_of H child) × Lacks H (info_of H child).label (statics parent)
  Fits nt_regexp child parent = Unit
  Fits nt_param child parent = Unit
  Fits nt_catch_all child parent = Unit

  pub add_to_group-IsOrdered :
      (typ : NodeType) (child parent : Node H)
      → IsOrdered child
      → IsOrdered parent
      → Fits typ child parent
      → IsOrdered (add_to_group H typ child parent)
  unfolding add_to_group
  add_to_group-IsOrdered nt_static child (node i st re pa ca) o (up, es, a, b, c, d) (e, l) = (
    append_node-IsAscending H st child up l,
    append_node-AllNodes H (λ n. IsEntry (info_of H n)) st child es e,
    sorted-AllOrdered st child a o,
    b,
    c,
    d,
  )
  add_to_group-IsOrdered nt_regexp child (node i st re pa ca) o (up, es, a, b, c, d) f =
      (up, es, a, grouped-AllOrdered re child b o, c, d)
  add_to_group-IsOrdered nt_param child (node i st re pa ca) o (up, es, a, b, c, d) f =
      (up, es, a, b, grouped-AllOrdered pa child c o, d)
  add_to_group-IsOrdered nt_catch_all child (node i st re pa ca) o (up, es, a, b, c, d) f =
      (up, es, a, b, c, grouped-AllOrdered ca child d o)

  pub info_of-add_to_group :
      (typ : NodeType) (child parent : Node H)
      → info_of H (add_to_group H typ child parent) ≡ info_of H parent
  unfolding add_to_group
  info_of-add_to_group nt_static child (node i st re pa ca) = refl
  info_of-add_to_group nt_regexp child (node i st re pa ca) = refl
  info_of-add_to_group nt_param child (node i st re pa ca) = refl
  info_of-add_to_group nt_catch_all child (node i st re pa ca) = refl

  pub with_info-IsOrdered :
      (f : Info H → Info H) (n : Node H) → IsOrdered n → IsOrdered (with_info H f n)
  unfolding with_info
  with_info-IsOrdered f (node i st re pa ca) o = o

  pub info_of-with_info :
      (f : Info H → Info H) (n : Node H) → info_of H (with_info H f n) ≡ f (info_of H n)
  unfolding with_info
  info_of-with_info f (node i st re pa ca) = refl

  pub statics-with_info : (f : Info H → Info H) (n : Node H) → statics (with_info H f n) ≡ statics n
  unfolding with_info
  statics-with_info f (node i st re pa ca) = refl
