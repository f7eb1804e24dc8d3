-- ===== src/Router/Inserting/Stays.antt =====
-- A node after a change below it: a child that is attached to it or an endpoint that is set.
use api_firewall.Base.{
  ℕ, ◌≡◌, ◌≢◌, refl, sym, ap, subst, ◌∙◌, ◌⊎◌, inl, inr, Bool, Option, none, List, Str, All,
}
use api_firewall.Web.{Actions}
use api_firewall.Router.{Endpoint, Info, Node, node, Nodes, no_nodes, add_node, info_of}
use api_firewall.Router.Segments.{
  NodeType, nt_static, nt_regexp, nt_param, nt_catch_all, ParamKeys, keys, bad_pattern,
  duplicate_key, out_of_fuel, pat_param_keys,
}
use api_firewall.Router.Groups.Sorting.{Lacks, AllNodes}
use api_firewall.Router.Groups.Order.{
  IsEntry, IsOrdered, Fits, statics, add_to_group-IsOrdered, info_of-add_to_group,
}
use api_firewall.Router.Building.{InsertError, Built, built, not_built, attach}
use api_firewall.Router.Building.Joining.{IsBuilt}
use api_firewall.Router.Building.Order.{Keeps}
use api_firewall.Router.Inserting.{settle_keys, set_endpoint}

module _ (H : Type 0) where
  -- A node after a change below it.
  pub record Stays (n m : Node H) : Type 0 where
    pub ordered : IsOrdered H m
    pub entry : IsEntry H (info_of H n) → IsEntry H (info_of H m)
    pub label : (info_of H m).label ≡ (info_of H n).label

  pub Stays-refl : (n : Node H) → IsOrdered H n → Stays n n
  Stays-refl n o = record { ordered = o; entry = λ e. e; label = refl }

  pub id-Keeps : Keeps H (λ c. (c, none))
  id-Keeps = record { ordered = λ n o. o; entry = λ n e. e; label = λ n. refl }

  -- A static group has no label of a parameter.
  pub entries-Lacks :
      (c : ℕ) (ns : Nodes H)
      → AllNodes H (λ n. IsEntry H (info_of H n)) ns
      → (c ≡ b'{') ⊎ (c ≡ b'*')
      → Lacks H c ns
  entries-Lacks c no_nodes es w = tt
  entries-Lacks c (add_node n ns) (e, es) w = (
    λ same.
        let (p, q) = e.plain in
        let a = subst (All (λ a. a ≢ b'{')) e.first p in
        let b = subst (All (λ a. a ≢ b'*')) e.first q in
        elim w [ inl h ↦ a.0 (same ∙ h) | inr h ↦ b.0 (same ∙ h) ],
    entries-Lacks c ns es w,
  )

  built-Fits :
      (t : NodeType) (c : ℕ) (child n : Node H) (e : Option InsertError)
      → IsBuilt H c (built t child e)
      → Lacks H c (statics H n)
      → IsOrdered H child × Fits H t child n
  built-Fits nt_static c child n e (o, q, h) l =
      (o, (q, subst (λ k. Lacks H k (statics H n)) (sym h) l))
  built-Fits nt_regexp c child n e o l = (o, tt)
  built-Fits nt_param c child n e o l = (o, tt)
  built-Fits nt_catch_all c child n e o l = (o, tt)

  -- A child attached to a parent whose static group lacks its label.
  pub attach-Stays :
      (compile : Str → Option (Str → Bool)) (c : ℕ) (n : Node H) (b : Built H)
      → IsOrdered H n
      → Lacks H c (statics H n)
      → IsBuilt H c b
      → Stays n (attach H compile n b).0
  unfolding attach
  attach-Stays compile c n (not_built e) o l i = Stays-refl n o
  attach-Stays compile c n (built t child e) o l i =
      let (q, f) = built-Fits t c child n e i l in
      let same = info_of-add_to_group H t child n in
      record {
        ordered = add_to_group-IsOrdered H t child n q o f;
        entry = subst (IsEntry H) (sym same);
        label = ap (λ (i : Info H). i.label) same;
      }

  pub Stays-trans : (n m k : Node H) → Stays n m → Stays m k → Stays n k
  Stays-trans n m k a b = record {
    ordered = b.ordered;
    entry = λ e. b.entry (a.entry e);
    label = b.label ∙ a.label;
  }

  module _ (compile : Str → Option (Str → Bool)) (methods : List ℕ) (method : ℕ)
      (actions : Option Actions) (handler : H) (pattern : Str) where
    settle_keys-info :
        (ks : ParamKeys) (i : Info H)
        → (es : Option (List (ℕ × Endpoint H))) × ((settle_keys H compile methods method actions
              handler pattern ks i).0
            ≡ record i { endpoints = es })
    unfolding settle_keys
    settle_keys-info (keys ks) i = (_, refl)
    settle_keys-info (bad_pattern p) i = (_, refl)
    settle_keys-info (duplicate_key k) i = (_, refl)
    settle_keys-info out_of_fuel i = (_, refl)

    put_endpoints : Option (List (ℕ × Endpoint H)) → Info H → Info H
    put_endpoints es i = record i { endpoints = es }

    put-IsEntry :
        (es : Option (List (ℕ × Endpoint H))) (i : Info H)
        → IsEntry H i
        → IsEntry H (put_endpoints es i)
    unfolding put_endpoints
    put-IsEntry es i e = record {
      rest = e.rest;
      first = e.first;
      no_tail = e.no_tail;
      plain = e.plain;
    }

    abbrev set : Node H → Node H × Option InsertError
    set = set_endpoint H compile methods method actions handler pattern

    set-IsOrdered : (n : Node H) → IsOrdered H n → IsOrdered H (set n).0
    unfolding set_endpoint
    set-IsOrdered (node i st re pa ca) o = o

    set-IsEntry : (n : Node H) → IsEntry H (info_of H n) → IsEntry H (info_of H (set n).0)
    unfolding set_endpoint put_endpoints
    set-IsEntry (node i st re pa ca) q =
        let (es, e) = settle_keys-info (pat_param_keys pattern) i in
        subst (IsEntry H) (sym e) (put-IsEntry es i q)

    label-set : (n : Node H) → (info_of H (set n).0).label ≡ (info_of H n).label
    unfolding set_endpoint
    label-set (node i st re pa ca) =
        let (es, e) = settle_keys-info (pat_param_keys pattern) i in ap (λ (j : Info H). j.label) e

    pub set-Keeps : Keeps H set
    set-Keeps = record { ordered = set-IsOrdered; entry = set-IsEntry; label = label-set }

    pub set-Stays : (n : Node H) → IsOrdered H n → Stays n (set n).0
    set-Stays n o = record {
      ordered = set-IsOrdered n o;
      entry = set-IsEntry n;
      label = label-set n;
    }
