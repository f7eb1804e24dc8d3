-- ===== src/Router/Values.antt =====
-- The values that a parameter node takes from a path.
use api_firewall.Base.{
  ℕ, zero, suc, ◌-◌, ◌≡◌, refl, sym, ap, subst, ◌∙◌, Bool, true, inl, inr, Option, none, some, List,
  [], ◌∷◌, ◌++◌, Str, length, take, drop, has_prefix, index_byte, arith, Bool-cases, Option-cases,
}
use api_firewall.Router.{Info, cut, segment_end, accept_cut, whole, fits}

take-drop : (p : ℕ) (x : Str) → x ≡ take p x ++ drop p x
take-drop zero x = refl
take-drop (suc p) [] = refl
take-drop (suc p) (b ∷ x) = ap (λ t. b ∷ t) (take-drop p x)

pub append-[] : (vs : List Str) → vs ++ [] ≡ vs
append-[] [] = refl
append-[] (v ∷ vs) = ap (λ t. v ∷ t) (append-[] vs)

pub append_assoc : (us : List Str) (v : Str) (vs : List Str) → (us ++ v ∷ []) ++ vs ≡ us ++ v ∷ vs
append_assoc [] v vs = refl
append_assoc (u ∷ us) v vs = ap (λ t. u ∷ t) (append_assoc us v vs)

pub take-append : (vs : List Str) (v : Str) → take (length vs) (vs ++ v ∷ []) ≡ vs
take-append [] v = refl
take-append (u ∷ vs) v = ap (λ t. u ∷ t) (take-append vs v)

length-snoc : (vs : List Str) (v : Str) → length (vs ++ v ∷ []) ≡ suc (length vs)
length-snoc [] v = refl
length-snoc (u ∷ vs) v = ap suc (length-snoc vs v)

pub length-append_one : (vs : List Str) (v : Str) → length (vs ++ v ∷ []) - 1 ≡ length vs
length-append_one [] v = refl
length-append_one (u ∷ vs) v = omega (arith, length-snoc vs v)

pub prefix-split : (x p : Str) → has_prefix x p ≡ true → x ≡ p ++ drop (length p) x
unfolding has_prefix
prefix-split x [] e = refl
prefix-split [] (b ∷ p) e = absurd (ground arith)
prefix-split (a ∷ x) (b ∷ p) e =
    let same : a ≡ b = ground arith in
    let rest : has_prefix x p ≡ true = ground arith in
    rw same (ap (λ t. b ∷ t) (prefix-split x p rest))

-- What follows a value: nothing, or the tail of the node.
abbrev pub Ends : ℕ → Str → Type 0
Ends tail [] = Unit
Ends tail (b ∷ rest) = b ≡ tail

index_byte-Ends : (x : Str) (c p : ℕ) → index_byte x c ≡ some p → Ends c (drop p x)
unfolding index_byte
index_byte-Ends [] c p e = absurd (ground arith)
index_byte-Ends (a ∷ x) c zero e = ground arith
index_byte-Ends (a ∷ x) c (suc p) e = ground (arith, index_byte-Ends x c p)

drop-length : (x : Str) → drop (length x) x ≡ []
drop-length [] = refl
drop-length (b ∷ x) = drop-length x

module _ (H : Type 0) where
  -- The value `v` that a parameter node takes from the front of the path, with `rest` behind it: it
  -- ends the path or is followed by the node's tail, and fits the regular expression or has no slash.
  pub record IsValue (is_regexp : Bool) (info : Info H) (path v rest : Str) : Type 0 where
    pub parts : path ≡ v ++ rest
    pub ends : Ends info.tail rest
    pub fit : fits is_regexp info.rex v ≡ true

  segment_end-Ends :
      (is_regexp : Bool) (tail : ℕ) (path : Str) (p : ℕ)
      → segment_end is_regexp tail path (index_byte path tail) ≡ some p
      → Ends tail (drop p path)
  unfolding segment_end whole
  segment_end-Ends is_regexp tail path p e = elim (Option-cases (index_byte path tail)) [
    | inl q ↦
        let at_end : p ≡ length path = ground arith in
        rw at_end (subst (Ends tail) (sym (drop-length path)) tt)
    | inr (k, q) ↦ let same : k ≡ p = ground arith in index_byte-Ends path tail p (q ∙ ap some same)
  ]

  accept_cut-some :
      (is_regexp : Bool) (info : Info H) (path : Str) (o : Option ℕ) (p : ℕ)
      → accept_cut H is_regexp info path o ≡ some p
      → (o ≡ some p) × (fits is_regexp info.rex (take p path) ≡ true)
  unfolding accept_cut
  accept_cut-some is_regexp info path none p e = absurd (ground arith)
  accept_cut-some is_regexp info path (some k) p e =
      elim (Bool-cases (fits is_regexp info.rex (take k path))) [
        | inl f ↦ let same : k ≡ p = ground arith in (ap some same, rw (sym same) f)
        | inr f ↦ absurd (ground arith)
      ]

  pub cut-IsValue :
      (is_regexp : Bool) (info : Info H) (path : Str) (p : ℕ)
      → cut H is_regexp info path ≡ some p
      → IsValue is_regexp info path (take p path) (drop p path)
  unfolding cut
  cut-IsValue is_regexp info path p e =
      let (at_p, fit) = accept_cut-some is_regexp info path _ p e in
      record {
        parts = take-drop p path;
        ends = segment_end-Ends is_regexp info.tail path p at_p;
        fit = fit;
      }
