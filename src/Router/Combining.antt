-- ===== src/Router/Combining.antt =====
-- How the steps of the search combine.
use api_firewall.Base.{
  ℕ, ◌-◌, ◌≡◌, refl, sym, ap, subst, ◌∙◌, ◌⊎◌, inl, inr, Option, none, some, List, [], ◌∷◌, ◌++◌,
  Str, length, take,
}
use api_firewall.Router.{
  Endpoint, Info, Node, info_of, Search, served, leaf, at_leaf, settle_leaf, then_try, try_rest,
  push, pop, cut_back, find_route,
}
use api_firewall.Router.Values.{append-[], append_assoc, take-append, length-append_one}
use api_firewall.Router.Matching.{Matches, Keys, Found}

module _ (H : Type 0) where
  module _ (m : ℕ) where
    pub Found-same :
        (P : List Str → Info H → Type 0) (s t : Search H) (r : Search H × Option (Info H))
        → (t.values ≡ s.values) × (t.keys ≡ s.keys)
        → Found H m P t r
        → Found H m P s r
    unfolding Found
    Found-same P s t (u, some o) (e, k) (vs, p, values, keys) =
        (vs, p, rw (sym e) values, subst (λ ks. Keys H m o ks u.keys) k keys)
    Found-same P s t (u, none) (e, k) (values, keys) = (values ∙ e, keys ∙ k)

    pub Found-mono :
        (P Q : List Str → Info H → Type 0) (s : Search H) (r : Search H × Option (Info H))
        → ((vs : List Str) (o : Info H) → P vs o → Q vs o)
        → Found H m P s r
        → Found H m Q s r
    unfolding Found
    Found-mono P Q s (u, some o) f (vs, p, values, keys) = (vs, f vs o p, values, keys)
    Found-mono P Q s (u, none) f x = x

    pub Found-then_try :
        (P : List Str → Info H → Type 0) (s : Search H) (r : Search H × Option (Info H))
        (f : Search H → Search H × Option (Info H))
        → Found H m P s r
        → ((t : Search H) → Found H m P t (f t))
        → Found H m P s (then_try H r f)
    unfolding Found then_try
    Found-then_try P s (u, some o) f x y = x
    Found-then_try P s (u, none) f x y = Found-same P s u (f u) x (y u)

    pub Found-none : (P : List Str → Info H → Type 0) (s : Search H) → Found H m P s (s, none)
    unfolding Found
    Found-none P s = (refl, refl)

    Found-settle_leaf :
        (P : List Str → Info H → Type 0) (s : Search H) (i : Info H) (es : List (ℕ × Endpoint H))
        (x : Option (Endpoint H))
        → i.endpoints ≡ some es
        → served H es m ≡ x
        → P [] i
        → Found H m P s (settle_leaf H i es s x)
    unfolding Found settle_leaf
    Found-settle_leaf P s i es none e q p = (refl, refl)
    Found-settle_leaf P s i es (some x) e q p = (
      [],
      p,
      sym (append-[] s.values),
      record { table = es; endpoint = x; is_leaf = e; is_served = q; joined = refl },
    )

    Found-at_leaf :
        (P : List Str → Info H → Type 0) (s : Search H) (i : Info H)
        (es : Option (List (ℕ × Endpoint H)))
        → i.endpoints ≡ es
        → P [] i
        → Found H m P s (at_leaf H i es m s)
    unfolding at_leaf
    Found-at_leaf P s i none e p = Found-none P s
    Found-at_leaf P s i (some es) e p = Found-settle_leaf P s i es (served H es m) e refl p

    pub Found-leaf :
        (P : List Str → Info H → Type 0) (s : Search H) (rest : Str) (i : Info H)
        → (rest ≡ [] → P [] i)
        → Found H m P s (leaf H rest i m s)
    unfolding leaf
    Found-leaf P s (b ∷ rest) i p = Found-none P s
    Found-leaf P s [] i p = Found-at_leaf P s i i.endpoints refl (p refl)

    -- A node that ends a path, or has a way below it.
    abbrev pub Below : Node H → Str → List Str → Info H → Type 0
    Below n rest vs o = ((rest ≡ []) × (vs ≡ []) × (o ≡ info_of H n)) ⊎ Matches H n rest vs o

    -- The search below a node, for which the theorem holds.
    abbrev pub Sound : Node H → Type 0
    Sound n = (rest : Str) (t : Search H) → Found H m (Matches H n rest) t (find_route H n m rest t)

    pub Found-rest :
        (n : Node H) (rest : Str) (s : Search H)
        → Sound n
        → Found H m
            (Below n rest)
            s
            (try_rest H (some rest) (info_of H n) m s (λ x t. find_route H n m x t))
    unfolding try_rest
    Found-rest n rest s sound =
        Found-then_try (Below n rest) s _ _
          (Found-leaf (Below n rest) s rest (info_of H n) (λ e. inl (e, refl, refl)))
          (λ t.
            Found-mono (Matches H n rest) (Below n rest) t (find_route H n m rest t)
              (λ vs o x. inr x) (sound rest t))

    -- The value that was pushed stands in front of those found below it.
    abbrev pub Front : Str → (List Str → Info H → Type 0) → List Str → Info H → Type 0
    Front v P ws o = (vs : List Str) × (ws ≡ v ∷ vs) × P vs o

    pub Found-cut_back :
        (P : List Str → Info H → Type 0) (v : Str) (s : Search H) (r : Search H × Option (Info H))
        → Found H m P (push H v s) r
        → Found H m (Front v P) s (cut_back H (length s.values) r)
    unfolding Found cut_back push
    Found-cut_back P v s (u, some o) (vs, p, values, keys) =
        (v ∷ vs, (vs, refl, p), values ∙ append_assoc s.values v vs, keys)
    Found-cut_back P v s (u, none) (values, keys) =
        (ap (λ xs. take (length s.values) xs) values ∙ take-append s.values v, keys)

    pub Found-pop :
        (P : List Str → Info H → Type 0) (v : Str) (s : Search H) (r : Search H × Option (Info H))
        → Found H m P (push H v s) r
        → Found H m (Front v P) s (pop H r)
    unfolding Found pop push
    Found-pop P v s (u, some o) (vs, p, values, keys) =
        (v ∷ vs, (vs, refl, p), values ∙ append_assoc s.values v vs, keys)
    Found-pop P v s (u, none) (values, keys) = (
      ap (λ xs. take (length xs - 1) xs) values
          ∙ ap (λ n. take n (s.values ++ v ∷ [])) (length-append_one s.values v)
          ∙ take-append s.values v,
      keys,
    )
