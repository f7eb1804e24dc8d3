-- ===== src/Router/Building/Joining.antt =====
-- What addChild builds above a child: the child is joined to its parent in order.
use api_firewall.Base.{
  ℕ, ◌≡◌, ◌≢◌, refl, sym, ap, subst, ◌∙◌, ◌⊎◌, inl, inr, false, Option, [], ◌∷◌, Str, All, drop,
  arith, All-drop,
}
use api_firewall.Router.{Info, Node, no_nodes, info_of}
use api_firewall.Router.Segments.{NodeType, nt_static, nt_regexp, nt_param, nt_catch_all, is_static}
use api_firewall.Router.Segments.Starts.{StartsWild, IsPlain}
use api_firewall.Router.Groups.{fresh}
use api_firewall.Router.Groups.Sorting.{Lacks}
use api_firewall.Router.Groups.Order.{
  IsEntry, IsOrdered, Fits, statics, add_to_group-IsOrdered, info_of-add_to_group,
}
use api_firewall.Router.Building.{InsertError, Built, built, not_built, above}

module _ (H : Type 0) where
  -- A node that is built for a label.
  abbrev pub IsBuilt : ℕ → Built H → Type 0
  IsBuilt l (built nt_static n e) =
      IsOrdered H n × IsEntry H (info_of H n) × ((info_of H n).label ≡ l)
  IsBuilt l (built nt_regexp n e) = IsOrdered H n
  IsBuilt l (built nt_param n e) = IsOrdered H n
  IsBuilt l (built nt_catch_all n e) = IsOrdered H n
  IsBuilt l (not_built e) = Unit

  -- A child that is to be built for the pattern `s`, up to its prefix.
  pub record IsStart (l : ℕ) (s : Str) (n : Node H) : Type 0 where
    pub ordered : IsOrdered H n
    pub label : (info_of H n).label ≡ l
    pub place : StartsWild s ⊎ ((r : Str) × (s ≡ l ∷ r) × ((info_of H n).tail ≡ 0))
    pub bare : (statics H n ≡ no_nodes) ⊎ IsPlain s

  -- The prefix of a child for a pattern that is static.
  abbrev pub HasPrefix : Str → Node H → Type 0
  HasPrefix s n = StartsWild s ⊎ ((info_of H n).prefix ≡ s)

  abbrev pub IsDown : (Node H → Str → Built H) → Type 0
  IsDown down =
      (c : ℕ) (r : Str) (n : Node H)
      → IsStart c (c ∷ r) n
      → HasPrefix (c ∷ r) n
      → IsBuilt c (down n (c ∷ r))

  pub plain_wild : (s : Str) (k : ℕ) → IsPlain s → StartsWild (drop k s) → ⊥
  plain_wild s k (p, q) (c, t, e, w) =
      let a = subst (All (λ a. a ≢ b'{')) e (All-drop _ k s p) in
      let b = subst (All (λ a. a ≢ b'*')) e (All-drop _ k s q) in
      elim w [ inl h ↦ a.0 h | inr h ↦ b.0 h ]

  -- A wild pattern has a child with no static children.
  pub childless :
      (s : Str) (k : ℕ) (n : Node H)
      → (statics H n ≡ no_nodes) ⊎ IsPlain s
      → StartsWild (drop k s)
      → statics H n ≡ no_nodes
  childless s k n (inl e) w = e
  childless s k n (inr p) w = absurd (plain_wild s k p w)

  pub inner-Fits :
      (t : NodeType) (c : ℕ) (inner n : Node H) (e : Option InsertError)
      → IsBuilt c (built t inner e)
      → statics H n ≡ no_nodes
      → IsOrdered H inner × Fits H t inner n
  inner-Fits nt_static c inner n e (o, q, l) k =
      (o, (q, subst (Lacks H (info_of H inner).label) (sym k) tt))
  inner-Fits nt_regexp c inner n e o k = (o, tt)
  inner-Fits nt_param c inner n e o k = (o, tt)
  inner-Fits nt_catch_all c inner n e o k = (o, tt)

  pub wild-IsBuilt :
      (l : ℕ) (typ : NodeType) (n : Node H) (e : Option InsertError)
      → is_static typ ≡ false
      → IsOrdered H n
      → IsBuilt l (built typ n e)
  wild-IsBuilt l nt_static n e t o = absurd (ground (arith, t))
  wild-IsBuilt l nt_regexp n e t o = o
  wild-IsBuilt l nt_param n e t o = o
  wild-IsBuilt l nt_catch_all n e t o = o

  pub above_wild :
      (l c : ℕ) (typ : NodeType) (n : Node H) (b : Built H)
      → is_static typ ≡ false
      → IsOrdered H n
      → statics H n ≡ no_nodes
      → IsBuilt c b
      → IsBuilt l (above H typ n b)
  unfolding above
  above_wild l c typ n (built t inner e) w o k b =
      let (oi, f) = inner-Fits t c inner n e b k in
      wild-IsBuilt l typ _ e w (add_to_group-IsOrdered H t inner n oi o f)
  above_wild l c typ n (not_built e) w o k b = tt

  pub above_static :
      (l c : ℕ) (n : Node H) (b : Built H)
      → IsOrdered H n
      → IsEntry H (info_of H n)
      → (info_of H n).label ≡ l
      → statics H n ≡ no_nodes
      → IsBuilt c b
      → IsBuilt l (above H nt_static n b)
  unfolding above
  above_static l c n (built t inner e) o q h k b =
      let (oi, f) = inner-Fits t c inner n e b k in
      let same = info_of-add_to_group H t inner n in
      (
        add_to_group-IsOrdered H t inner n oi o f,
        subst (IsEntry H) (sym same) q,
        ap (λ (i : Info H). i.label) same ∙ h,
      )
  above_static l c n (not_built e) o q h k b = tt

  pub fresh-IsStart : (c : ℕ) (r : Str) → IsStart c (c ∷ r) (fresh H c 0 (c ∷ r))
  fresh-IsStart c r = record {
    ordered = (tt, tt, tt, tt, tt, tt);
    label = refl;
    place = inr (r, refl, refl);
    bare = inl refl;
  }

  pub wild-IsStart :
      (c tail : ℕ) (r : Str) → StartsWild (c ∷ r) → IsStart c (c ∷ r) (fresh H c tail [])
  wild-IsStart c tail r w = record {
    ordered = (tt, tt, tt, tt, tt, tt);
    label = refl;
    place = inl w;
    bare = inl refl;
  }
