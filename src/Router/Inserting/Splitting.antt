-- ===== src/Router/Inserting/Splitting.antt =====
-- A node after a new child was put below it, and after it was split.
use api_firewall.Base.{
  ℕ, suc, ◌<◌, ◌≡◌, ◌≢◌, refl, sym, ap, subst, ◌∙◌, ◌⊎◌, inl, inr, Bool, false, Option, none, some,
  List, [], ◌∷◌, Str, get_or, length, take, drop, ◌==◌, arith, All-take, All-drop,
}
use api_firewall.Web.{Actions}
use api_firewall.Router.{Info, Node, node, no_nodes, add_node, info_of}
use api_firewall.Router.Segments.{nt_static, nt_regexp, nt_param, nt_catch_all, Segment}
use api_firewall.Router.Segments.Starts.{StartsWild, IsPlain}
use api_firewall.Router.Groups.{
  sort_nodes, append_node, insert_sorted, longest_prefix, add_to_group, with_info, fresh,
}
use api_firewall.Router.Groups.Sorting.{Lacks}
use api_firewall.Router.Groups.Order.{IsEntry, IsOrdered, statics}
use api_firewall.Router.Building.{InsertError, Built, built, not_built, build, attach}
use api_firewall.Router.Building.Joining.{IsBuilt, IsStart, HasPrefix}
use api_firewall.Router.Building.Order.{build-IsBuilt}
use api_firewall.Router.Inserting.{set_endpoint, new_child, below_split, unless_error, split}
use api_firewall.Router.Inserting.Stays.{
  Stays, Stays-trans, id-Keeps, attach-Stays, set-Stays, set-Keeps,
}
use api_firewall.Router.Inserting.Prefix.{longest_prefix-IsCommon, longest_prefix-first, drop-cons}

module _ (H : Type 0) where
  module _ (compile : Str → Option (Str → Bool)) (methods : List ℕ) (method : ℕ)
      (actions : Option Actions) (handler : H) (pattern : Str) where
    abbrev set : Node H → Node H × Option InsertError
    set = set_endpoint H compile methods method actions handler pattern

    new-IsStart :
        (c tail : ℕ) (t : Str)
        → StartsWild (c ∷ t) ⊎ (tail ≡ 0)
        → IsStart H c (c ∷ t) (fresh H c tail (c ∷ t))
    new-IsStart c tail t w = record {
      ordered = (tt, tt, tt, tt, tt, tt);
      label = refl;
      place = elim w [ inl h ↦ inl h | inr h ↦ inr (t, refl, h) ];
      bare = inl refl;
    }

    pub new_child-Stays :
        (n : Node H) (c : ℕ) (g : Segment) (t : Str)
        → IsOrdered H n
        → Lacks H c (statics H n)
        → StartsWild (c ∷ t) ⊎ (g.tail ≡ 0)
        → Stays H n (new_child H compile methods method actions handler pattern n c g (c ∷ t)).0
    unfolding new_child
    new_child-Stays n c g t o l w = attach-Stays H compile c n _ o l (
        build-IsBuilt H set (set-Keeps H compile methods method actions handler pattern) compile
          (suc (length (c ∷ t))) c (c ∷ t) _ (new-IsStart c g.tail t w) (inr refl))

    below_split-Stays :
        (n : Node H) (s : Str)
        → IsOrdered H n
        → ((c : ℕ) (t : Str) → s ≡ c ∷ t → Lacks H c (statics H n))
        → Stays H n (below_split H compile methods method actions handler pattern n s).0
    unfolding below_split
    below_split-Stays n [] o l = set-Stays H compile methods method actions handler pattern n o
    below_split-Stays n (c ∷ t) o l = attach-Stays H compile c n _ o (l c t refl) (
        build-IsBuilt H set (set-Keeps H compile methods method actions handler pattern) compile
          (suc (suc (length t))) c (c ∷ t) _ (new-IsStart c 0 t (inr refl)) (inr refl))

    -- A node with a built child, and no other static one, lacks the other labels.
    attach-Lacks :
        (c d : ℕ) (n : Node H) (b : Built H)
        → statics H n ≡ no_nodes
        → IsBuilt H d b
        → d ≢ c
        → Lacks H c (statics H (attach H compile n b).0)
    unfolding attach add_to_group sort_nodes append_node insert_sorted
    attach-Lacks c d (node i st re pa ca) (not_built e) k b ne = subst (Lacks H c) (sym k) tt
    attach-Lacks c d (node i no_nodes re pa ca) (built nt_static m e) k (o, q, h) ne =
        (λ same. ne (sym h ∙ same), tt)
    attach-Lacks c d (node i (add_node n ns) re pa ca) (built nt_static m e) k b ne =
        absurd (ground (arith, k))
    attach-Lacks c d (node i st re pa ca) (built nt_regexp m e) k b ne =
        subst (Lacks H c) (sym k) tt
    attach-Lacks c d (node i st re pa ca) (built nt_param m e) k b ne = subst (Lacks H c) (sym k) tt
    attach-Lacks c d (node i st re pa ca) (built nt_catch_all m e) k b ne =
        subst (Lacks H c) (sym k) tt

    unless_error-Stays :
        (n : Node H) (r : Node H × Option InsertError) (f : Node H → Node H × Option InsertError)
        → Stays H n r.0
        → Stays H r.0 (f r.0).0
        → Stays H n (unless_error H compile methods method actions handler pattern r f).0
    unfolding unless_error
    unless_error-Stays n (m, none) f a b = Stays-trans H n m _ a b
    unless_error-Stays n (m, some e) f a b = a

    lower_info : ℕ → Str → Info H → Info H
    lower_info d left i = record i { label = d; prefix = left }

    lower-IsStart :
        (n : Node H) (d : ℕ) (left r : Str)
        → IsOrdered H n
        → (info_of H n).tail ≡ 0
        → left ≡ d ∷ r
        → IsPlain left
        → IsStart H d left (with_info H (lower_info d left) n)
    unfolding with_info lower_info
    lower-IsStart (node i st re pa ca) d left r o no_tail e p = record {
      ordered = o;
      label = refl;
      place = inr (r, e, no_tail);
      bare = inr p;
    }

    lower-HasPrefix :
        (n : Node H) (d : ℕ) (left : Str) → HasPrefix H left (with_info H (lower_info d left) n)
    unfolding with_info lower_info
    lower-HasPrefix (node i st re pa ca) d left = inr refl

    -- The node that takes the place of one that is split.
    upper-Stays :
        (n : Node H) (c k j : ℕ) (t : Str)
        → IsEntry H (info_of H n)
        → (info_of H n).label ≡ c
        → k ≡ suc j
        → take k (c ∷ t) ≡ take k (info_of H n).prefix
        → Stays H n (fresh H c 0 (take k (c ∷ t)))
    upper-Stays n c k j t e l q same = record {
      ordered = (tt, tt, tt, tt, tt, tt);
      entry = λ e. record {
        rest = take j t;
        first = ap (λ i. take i (c ∷ t)) q;
        no_tail = refl;
        plain = subst IsPlain (sym same) (
          All-take _ k (info_of H n).prefix e.plain.0,
          All-take _ k (info_of H n).prefix e.plain.1,
        );
      };
      label = sym l;
    }

    pub split-Stays :
        (n : Node H) (c : ℕ) (t : Str)
        → IsOrdered H n
        → IsEntry H (info_of H n)
        → (info_of H n).label ≡ c
        → (longest_prefix (c ∷ t) (info_of H n).prefix == length (info_of H n).prefix) ≡ false
        → Stays H n
            (split H compile methods method actions handler pattern n
              (longest_prefix (c ∷ t) (info_of H n).prefix)
              c
              (c ∷ t)).0
    unfolding split lower_info
    split-Stays n c t o e l ne =
        let p = (info_of H n).prefix in
        let k = longest_prefix (c ∷ t) p in
        let common = longest_prefix-IsCommon (c ∷ t) p in
        let begins : p ≡ c ∷ e.rest = e.first ∙ ap (λ a. a ∷ e.rest) l in
        let (j, q) = longest_prefix-first c t e.rest in
        let size : k ≡ suc j = ap (longest_prefix (c ∷ t)) begins ∙ q in
        let short : k < length p = ground (arith, common.within, ne) in
        let (r, left) = drop-cons k p short in
        let d = get_or p k 0 in
        let up : Node H = fresh H c 0 (take k (c ∷ t)) in
        let lower = with_info H (lower_info d (drop k p)) n in
        let b = build H compile (suc (length (drop k p))) lower (drop k p) (λ c. (c, none)) in
        let start =
          lower-IsStart n d (drop k p) r o e.no_tail left
            (All-drop _ k p e.plain.0, All-drop _ k p e.plain.1) in
        let is_built =
          build-IsBuilt H (λ c. (c, none)) (id-Keeps H) compile (suc (length (drop k p))) d
            (drop k p) lower start (lower-HasPrefix n d (drop k p)) in
        let above = attach-Stays H compile d up b (tt, tt, tt, tt, tt, tt) tt is_built in
        unless_error-Stays n (attach H compile up b) _
          (Stays-trans H n up _ (upper-Stays n c k j t e l size common.same) above)
          (below_split-Stays _ (drop k (c ∷ t)) above.ordered (λ a s' f.
            attach-Lacks a d up b refl is_built (λ g. common.apart a d s' r f left (sym g))))
