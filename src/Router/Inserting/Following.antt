-- ===== src/Router/Inserting/Following.antt =====
-- The step of an insertion at a node: an edge that is followed, a child that is new.
use api_firewall.Base.{
  ℕ, ◌<◌, ◌≡◌, ◌≢◌, refl, sym, subst, ◌⊎◌, inl, inr, Bool, true, false, ◌||◌, Bool-cases, Option,
  none, some, List, ◌∷◌, Str, ◌==◌, arith,
}
use api_firewall.Web.{Actions}
use api_firewall.Router.{Info, Node, node, Nodes, add_node, info_of}
use api_firewall.Router.Segments.{
  NodeType, nt_static, nt_regexp, nt_param, nt_catch_all, is_static, Segment, Parsed, segment,
  wildcard_first, no_closing, wildcard_inside,
}
use api_firewall.Router.Segments.Starts.{StartsWild, Starts, OnSegment}
use api_firewall.Router.Groups.Sorting.{Lacks, Above, IsAscending, AllNodes}
use api_firewall.Router.Groups.Order.{IsEntry, IsOrdered, AllOrdered, statics}
use api_firewall.Router.Building.{InsertError}
use api_firewall.Router.Inserting.{matches, keep_first, or_new, choose, follow}
use api_firewall.Router.Inserting.Stays.{Stays, Stays-refl}
use api_firewall.Router.Inserting.Splitting.{new_child-Stays}

module _ (H : Type 0) where
  abbrev pub Edge : Type 0
  Edge = Option (Nodes H × Option InsertError)

  abbrev pub Entries : Nodes H → Type 0
  Entries = AllNodes H (λ n. IsEntry H (info_of H n))

  -- A static group after its edge was followed, or without an edge.
  abbrev pub FoundStatic : ℕ → Nodes H → Edge → Type 0
  FoundStatic c ns none = Lacks H c ns
  FoundStatic c ns (some (ns', e)) =
      AllOrdered H ns'
      × Entries ns'
      × ((l : ℕ) → Above H l ns → Above H l ns')
      × (IsAscending H ns → IsAscending H ns')

  abbrev pub FoundOther : Edge → Type 0
  FoundOther none = Unit
  FoundOther (some (ns, e)) = AllOrdered H ns

  pub changed-static :
      (c : ℕ) (n : Node H) (ns : Nodes H) (here : Node H × Option InsertError)
      → AllOrdered H ns
      → IsEntry H (info_of H n)
      → Entries ns
      → Stays H n here.0
      → FoundStatic c (add_node n ns) (some (add_node here.0 ns, here.1))
  changed-static c n ns here a q es s = (
    (s.ordered, a),
    (s.entry q, es),
    λ l p. (subst (λ k. l < k) (sym s.label) p.0, p.1),
    λ p. (subst (λ k. Above H k ns) (sym s.label) p.0, p.1),
  )

  same_info-Stays :
      (i : Info H) (st st' re re' pa pa' ca ca' : Nodes H)
      → IsOrdered H (node i st' re' pa' ca')
      → Stays H (node i st re pa ca) (node i st' re' pa' ca')
  same_info-Stays i st st' re re' pa pa' ca ca' o = record {
    ordered = o;
    entry = λ e. e;
    label = refl;
  }

  pub is_wild : (c : ℕ) → (c == b'{' || c == b'*') ≡ true → (c ≡ b'{') ⊎ (c ≡ b'*')
  is_wild c e = elim (Bool-cases (c == b'{')) [
    | inl h ↦ inl (ground (arith, h))
    | inr h ↦ inr (ground (arith, h, e))
  ]

  module _ (compile : Str → Option (Str → Bool)) (methods : List ℕ) (method : ℕ)
      (actions : Option Actions) (handler : H) (pattern : Str) where
    pub kept-static :
        (c : ℕ) (n : Node H) (ns : Nodes H) (rest : Edge)
        → IsOrdered H n
        → IsEntry H (info_of H n)
        → (info_of H n).label ≢ c
        → FoundStatic c ns rest
        → FoundStatic c
            (add_node n ns)
            (keep_first H compile methods method actions handler pattern n rest)
    unfolding keep_first
    kept-static c n ns none o q ne l = (ne, l)
    kept-static c n ns (some (ns', e)) o q ne (a, es, up, asc) =
        ((o, a), (q, es), λ l p. (p.0, up l p.1), λ p. (up _ p.0, asc p.1))

    pub kept-other :
        (n : Node H) (rest : Edge)
        → IsOrdered H n
        → FoundOther rest
        → FoundOther (keep_first H compile methods method actions handler pattern n rest)
    unfolding keep_first
    kept-other n none o f = tt
    kept-other n (some (ns, e)) o f = (o, f)

    or_new-static :
        (n : Node H) (c : ℕ) (g : Segment) (t : Str) (put : Nodes H → Node H) (x : Edge)
        → IsOrdered H n
        → StartsWild (c ∷ t) ⊎ (g.tail ≡ 0)
        → ((ns : Nodes H) (e : Option InsertError)
            → FoundStatic c (statics H n) (some (ns, e))
            → Stays H n (put ns))
        → FoundStatic c (statics H n) x
        → Stays H n (or_new H compile methods method actions handler pattern n c g (c ∷ t) put x).0
    unfolding or_new
    or_new-static n c g t put none o w p f =
        new_child-Stays H compile methods method actions handler pattern n c g t o f w
    or_new-static n c g t put (some (ns, e)) o w p f = p ns e f

    or_new-other :
        (n : Node H) (c : ℕ) (g : Segment) (t : Str) (put : Nodes H → Node H) (x : Edge)
        → IsOrdered H n
        → StartsWild (c ∷ t) ⊎ (g.tail ≡ 0)
        → ((ns : Nodes H) → AllOrdered H ns → Stays H n (put ns))
        → Lacks H c (statics H n)
        → FoundOther x
        → Stays H n (or_new H compile methods method actions handler pattern n c g (c ∷ t) put x).0
    unfolding or_new
    or_new-other n c g t put none o w p l f =
        new_child-Stays H compile methods method actions handler pattern n c g t o l w
    or_new-other n c g t put (some (ns, e)) o w p l f = p ns f

    pub follow_static-Stays :
        (n : Node H) (c : ℕ) (g : Segment) (t : Str) (edge : NodeType → Edge)
        → IsOrdered H n
        → StartsWild (c ∷ t) ⊎ (g.tail ≡ 0)
        → FoundStatic c (statics H n) (edge nt_static)
        → Stays H n
            (follow H compile methods method actions handler pattern nt_static n c g (c ∷ t) edge).0
    unfolding follow
    follow_static-Stays (node i st re pa ca) c g t edge (up, es, a, b, p, q) w f =
        or_new-static (node i st re pa ca) c g t _ (edge nt_static) (up, es, a, b, p, q) w
          (λ ns e r.
            let (a', es', above, asc) = r in
            same_info-Stays i st ns re re pa pa ca ca (asc up, es', a', b, p, q))
          f

    follow_wild-Stays :
        (typ : NodeType) (n : Node H) (c : ℕ) (g : Segment) (t : Str) (edge : NodeType → Edge)
        → is_static typ ≡ false
        → IsOrdered H n
        → Lacks H c (statics H n)
        → StartsWild (c ∷ t) ⊎ (g.tail ≡ 0)
        → FoundOther (edge nt_regexp)
        → FoundOther (edge nt_param)
        → FoundOther (edge nt_catch_all)
        → Stays H n
            (follow H compile methods method actions handler pattern typ n c g (c ∷ t) edge).0
    unfolding follow
    follow_wild-Stays nt_static n c g t edge s o l w fr fp fc = absurd (ground (arith, s))
    follow_wild-Stays nt_regexp (node i st re pa ca) c g t edge s (up, es, a, b, p, q) l w fr fp
          fc =
        or_new-other (node i st re pa ca) c g t _ (edge nt_regexp) (up, es, a, b, p, q) w
          (λ ns r. same_info-Stays i st st re ns pa pa ca ca (up, es, a, r, p, q)) l fr
    follow_wild-Stays nt_param (node i st re pa ca) c g t edge s (up, es, a, b, p, q) l w fr fp fc =
        or_new-other (node i st re pa ca) c g t _ (edge nt_param) (up, es, a, b, p, q) w
          (λ ns r. same_info-Stays i st st re re pa ns ca ca (up, es, a, b, r, q)) l fp
    follow_wild-Stays nt_catch_all (node i st re pa ca) c g t edge s (up, es, a, b, p, q) l w fr fp
          fc =
        or_new-other (node i st re pa ca) c g t _ (edge nt_catch_all) (up, es, a, b, p, q) w
          (λ ns r. same_info-Stays i st st re re pa pa ca ns (up, es, a, b, p, r)) l fc

    -- The pattern starts with a parameter or the wildcard.
    pub choose_wild-Stays :
        (p : Parsed) (n : Node H) (c : ℕ) (t : Str) (edge : Segment → NodeType → Edge)
        → IsOrdered H n
        → Lacks H c (statics H n)
        → StartsWild (c ∷ t)
        → OnSegment (Starts (c ∷ t)) p
        → ((g : Segment)
            → FoundOther (edge g nt_regexp)
              × FoundOther (edge g nt_param)
              × FoundOther (edge g nt_catch_all))
        → Stays H n
            (choose H compile methods method actions handler pattern n p (λ g.
              follow H compile methods method actions handler pattern g.typ n c g
                (c ∷ t)
                (edge g))).0
    unfolding choose
    choose_wild-Stays (segment g) n c t edge o l w st f =
        let (fr, fp, fc) = f g in
        follow_wild-Stays g.typ n c g t (edge g) (st.at_once w).0 o l (inl w) fr fp fc
    choose_wild-Stays wildcard_first n c t edge o l w st f = Stays-refl H n o
    choose_wild-Stays no_closing n c t edge o l w st f = Stays-refl H n o
    choose_wild-Stays wildcard_inside n c t edge o l w st f = Stays-refl H n o

    pub matches-label :
        (c : ℕ) (g : Segment) (i : Info H)
        → i.tail ≡ 0
        → g.tail ≡ 0
        → matches H compile methods method actions handler pattern nt_static c g i ≡ (i.label == c)
    unfolding matches
    matches-label c g i e f =
        let tails : (i.tail == g.tail) ≡ true = ground (arith, e, f) in
        elim (Bool-cases (i.label == c)) [ inl h ↦ rw (h, tails) refl | inr h ↦ rw h refl ]
