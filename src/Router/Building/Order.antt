-- ===== src/Router/Building/Order.antt =====
-- What addChild builds is ordered.
use api_firewall.Base.{
  ℕ, zero, suc, ◌≡◌, refl, sym, ap, subst, ◌∙◌, ◌⊎◌, inl, inr, Bool, true, false, Bool-cases,
  Option, none, some, [], ◌∷◌, Str, take, drop, ◌==◌, arith,
}
use api_firewall.Router.{Info, Node, node, no_nodes, info_of}
use api_firewall.Router.Segments.{
  NodeType, nt_static, nt_regexp, nt_param, nt_catch_all, is_static, Segment, Parsed, segment,
  wildcard_first, no_closing, wildcard_inside, pat_next_segment,
}
use api_firewall.Router.Segments.Starts.{
  StartsWild, IsPlain, Starts, OnSegment, pat_next_segment-Starts,
}
use api_firewall.Router.Groups.{with_info}
use api_firewall.Router.Groups.Order.{
  IsEntry, IsOrdered, statics, with_info-IsOrdered, info_of-with_info, statics-with_info,
}
use api_firewall.Router.Building.{
  Built, Finish, finished, below_param, below_static, placed, with_rex, by_type, by_segment, build,
}
use api_firewall.Router.Building.Joining.{
  IsBuilt, IsStart, HasPrefix, IsDown, childless, wild-IsBuilt, above_wild, above_static,
  fresh-IsStart, wild-IsStart,
}

module _ (H : Type 0) where
  -- What finishes a node leaves its children and its place in the order.
  pub record Keeps (f : Finish H) : Type 0 where
    pub ordered : (n : Node H) → IsOrdered H n → IsOrdered H (f n).0
    pub entry : (n : Node H) → IsEntry H (info_of H n) → IsEntry H (info_of H (f n).0)
    pub label : (n : Node H) → (info_of H (f n).0).label ≡ (info_of H n).label

  module _ (finish : Finish H) (keeps : Keeps finish) (compile : Str → Option (Str → Bool)) where
    below_param-IsBuilt :
        (l : ℕ) (typ : NodeType) (n : Node H) (rest : Str) (down : Node H → Str → Built H)
        → is_static typ ≡ false
        → IsOrdered H n
        → statics H n ≡ no_nodes
        → IsDown H down
        → IsBuilt H l (below_param H compile typ n rest finish down)
    unfolding below_param finished
    below_param-IsBuilt l typ n [] down w o k d = wild-IsBuilt H l typ _ _ w (keeps.ordered n o)
    below_param-IsBuilt l typ n (c ∷ r) down w o k d =
        above_wild H l c typ n _ w o k (d c r _ (fresh-IsStart H c r) (inr refl))

    below_static-IsBuilt :
        (l : ℕ) (g : Segment) (n : Node H) (rest : Str) (down : Node H → Str → Built H)
        → IsOrdered H n
        → IsEntry H (info_of H n)
        → (info_of H n).label ≡ l
        → statics H n ≡ no_nodes
        → StartsWild rest
        → IsDown H down
        → IsBuilt H l (below_static H compile n g rest down)
    unfolding below_static
    below_static-IsBuilt l g n [] down o q h k w d = tt
    below_static-IsBuilt l g n (c ∷ r) down o q h k w d =
        above_static H l c n _ o q h k (d c r _ (wild-IsStart H c g.tail r w) (inl w))

    first_taken :
        (l k : ℕ) (s : Str)
        → (k == 0) ≡ false
        → StartsWild s ⊎ ((r : Str) × (s ≡ l ∷ r))
        → (StartsWild s → k ≡ 0)
        → (t : Str) × (take k s ≡ l ∷ t)
    first_taken l zero s ne p z = absurd (ground (arith, ne))
    first_taken l (suc k) s ne (inl w) z = absurd (ground (arith, z w))
    first_taken l (suc k) s ne (inr (r, e)) z = (take k r, ap (take (suc k)) e)

    cut_info : Segment → Str → Info H → Info H
    cut_info g s i = record i { prefix = take g.start s; rex = none }

    cut-IsEntry :
        (l : ℕ) (g : Segment) (s : Str) (n : Node H)
        → (g.start == 0) ≡ false
        → Starts s g
        → IsStart H l s n
        → IsEntry H (cut_info g s (info_of H n))
    unfolding cut_info
    cut-IsEntry l g s n ne st b = elim (b.place) [
      | inl w ↦ absurd (ground (arith, (st.at_once w).1, ne))
      | inr (r, e, no_tail) ↦
          let (t, q) = first_taken l g.start s ne (inr (r, e)) (λ w. (st.at_once w).1) in
          record {
            rest = t;
            first = q ∙ ap (λ c. c ∷ t) (sym b.label);
            no_tail = no_tail;
            plain = st.before;
          }
    ]

    zero_of : (k : ℕ) → (k == 0) ≡ true → k ≡ 0
    zero_of k e = ground (arith, e)

    placed-IsBuilt :
        (l : ℕ) (g : Segment) (s : Str) (n : Node H) (down : Node H → Str → Built H)
        → is_static g.typ ≡ false
        → Starts s g
        → IsStart H l s n
        → IsDown H down
        → IsBuilt H l (placed H compile g n s finish down)
    unfolding placed cut_info
    placed-IsBuilt l g s n down w st b d = elim (Bool-cases (g.start == 0)) [
      | inl z ↦
          let start : StartsWild s =
            subst (λ k. StartsWild (drop k s)) (zero_of g.start z) (st.wild w) in
          rw z (
            below_param-IsBuilt l g.typ _ _ down w
              (with_info-IsOrdered H (λ i. record i { tail = g.tail }) n b.ordered)
              (statics-with_info H (λ i. record i { tail = g.tail }) n
                ∙ childless H s 0 n b.bare start)
              d)
      | inr z ↦
          let same = info_of-with_info H (cut_info g s) n in
          rw z (
            below_static-IsBuilt l g (with_info H (cut_info g s) n) _ down
              (with_info-IsOrdered H (cut_info g s) n b.ordered)
              (subst (IsEntry H) (sym same) (cut-IsEntry l g s n z st b))
              (ap (λ (i : Info H). i.label) same ∙ b.label)
              (statics-with_info H (cut_info g s) n ∙ childless H s g.start n b.bare (st.wild w))
              (st.wild w) d)
    ]

    rex_info : Str → (Str → Bool) → Info H → Info H
    rex_info rexpat rex i = record i { prefix = rexpat; rex = some rex }

    rex-IsStart :
        (l : ℕ) (s rexpat : Str) (rex : Str → Bool) (n : Node H)
        → IsStart H l s n
        → IsStart H l s (with_info H (rex_info rexpat rex) n)
    unfolding rex_info with_info
    rex-IsStart l s rexpat rex (node i st re pa ca) b = record {
      ordered = b.ordered;
      label = b.label;
      place = b.place;
      bare = b.bare;
    }

    with_rex-IsBuilt :
        (l : ℕ) (g : Segment) (s : Str) (n : Node H) (down : Node H → Str → Built H)
        (o : Option (Str → Bool))
        → is_static g.typ ≡ false
        → Starts s g
        → IsStart H l s n
        → IsDown H down
        → IsBuilt H l (with_rex H compile g.rexpat o n (λ c. placed H compile g c s finish down))
    unfolding with_rex rex_info
    with_rex-IsBuilt l g s n down none w st b d = tt
    with_rex-IsBuilt l g s n down (some rex) w st b d =
        placed-IsBuilt l g s _ down w st (rex-IsStart l s g.rexpat rex n b) d

    static-IsBuilt :
        (l : ℕ) (g : Segment) (s : Str) (n : Node H)
        → is_static g.typ ≡ true
        → Starts s g
        → IsStart H l s n
        → HasPrefix H s n
        → IsBuilt H l (finished H nt_static (finish n))
    unfolding finished
    static-IsBuilt l g s n t st b (inl w) = absurd (ground (arith, (st.at_once w).0, t))
    static-IsBuilt l g s n t st b (inr pre) = elim (b.place) [
      | inl w ↦ absurd (ground (arith, (st.at_once w).0, t))
      | inr (r, e, no_tail) ↦
          let entry : IsEntry H (info_of H n) = record {
            rest = r;
            first = pre ∙ e ∙ ap (λ c. c ∷ r) (sym b.label);
            no_tail = no_tail;
            plain = subst IsPlain (sym pre) (st.plain t);
          } in
          (keeps.ordered n b.ordered, keeps.entry n entry, keeps.label n ∙ b.label)
    ]

    by_type-IsBuilt :
        (l : ℕ) (typ : NodeType) (g : Segment) (s : Str) (n : Node H)
        (down : Node H → Str → Built H)
        → g.typ ≡ typ
        → Starts s g
        → IsStart H l s n
        → HasPrefix H s n
        → IsDown H down
        → IsBuilt H l (by_type H compile typ g n s finish down)
    unfolding by_type
    by_type-IsBuilt l nt_static g s n down e st b h d =
        static-IsBuilt l g s n (ap is_static e) st b h
    by_type-IsBuilt l nt_regexp g s n down e st b h d =
        with_rex-IsBuilt l g s n down (compile g.rexpat) (ap is_static e) st b d
    by_type-IsBuilt l nt_param g s n down e st b h d =
        placed-IsBuilt l g s n down (ap is_static e) st b d
    by_type-IsBuilt l nt_catch_all g s n down e st b h d =
        placed-IsBuilt l g s n down (ap is_static e) st b d

    by_segment-IsBuilt :
        (l : ℕ) (p : Parsed) (s : Str) (n : Node H) (down : Node H → Str → Built H)
        → OnSegment (Starts s) p
        → IsStart H l s n
        → HasPrefix H s n
        → IsDown H down
        → IsBuilt H l (by_segment H compile p n s finish down)
    unfolding by_segment
    by_segment-IsBuilt l (segment g) s n down st b h d =
        by_type-IsBuilt l g.typ g s n down refl st b h d
    by_segment-IsBuilt l wildcard_first s n down st b h d = tt
    by_segment-IsBuilt l no_closing s n down st b h d = tt
    by_segment-IsBuilt l wildcard_inside s n down st b h d = tt

    -- What is built for a pattern is ordered, and a static node has the label that was asked for.
    pub build-IsBuilt :
        (fuel l : ℕ) (s : Str) (n : Node H)
        → IsStart H l s n
        → HasPrefix H s n
        → IsBuilt H l (build H compile fuel n s finish)
    unfolding build
    build-IsBuilt zero l s n b h = tt
    build-IsBuilt (suc fuel) l s n b h =
        by_segment-IsBuilt l (pat_next_segment s) s n _ (pat_next_segment-Starts s) b h
          (λ c r m b' h'. build-IsBuilt fuel c (c ∷ r) m b' h')
