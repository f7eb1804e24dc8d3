-- ===== src/Router/Segments/Starts.antt =====
-- Where the segment that is not static stands in a pattern.
use api_firewall.Base.{
  ℕ, zero, suc, ◌-◌, ◌≤◌, ◌≡◌, ◌≢◌, refl, sym, ap, ◌∙◌, ◌⊎◌, inl, inr, true, false, Bool-cases,
  Option, none, some, [], ◌∷◌, Str, index_byte, length, All, take, drop, ltb, arith, All-take,
}
use api_firewall.Router.Segments.{
  keys, keys_loop, keys_step, pat_param_keys, is_static, Segment, Parsed, segment, wildcard_first,
  no_closing, wildcard_inside, keyed, param_at, param_segment, whole_static, rest_segment, next_at,
  pat_next_segment,
}

-- The pattern starts with a parameter or with the wildcard.
abbrev pub StartsWild : Str → Type 0
StartsWild s = (c : ℕ) × (t : Str) × (s ≡ c ∷ t) × ((c ≡ b'{') ⊎ (c ≡ b'*'))

abbrev pub IsPlain : Str → Type 0
IsPlain s = All (λ a. a ≢ b'{') s × All (λ a. a ≢ b'*') s

pub record Starts (s : Str) (g : Segment) : Type 0 where
  pub at_once : StartsWild s → (is_static g.typ ≡ false) × (g.start ≡ 0)
  pub wild : is_static g.typ ≡ false → StartsWild (drop g.start s)
  pub plain : is_static g.typ ≡ true → IsPlain s
  pub before : IsPlain (take g.start s)

index_byte-none : (s : Str) (c : ℕ) → index_byte s c ≡ none → All (λ a. a ≢ c) s
unfolding index_byte
index_byte-none [] c e = tt
index_byte-none (a ∷ s) c e = (ground arith, index_byte-none s c (ground arith))

index_byte-take :
    (s : Str) (c i k : ℕ) → index_byte s c ≡ some i → k ≤ i → All (λ a. a ≢ c) (take k s)
unfolding index_byte
index_byte-take s c i zero e h = tt
index_byte-take [] c i (suc k) e h = tt
index_byte-take (a ∷ s) c zero (suc k) e h = absurd (omega (arith, h))
index_byte-take (a ∷ s) c (suc i) (suc k) e h =
    (ground arith, index_byte-take s c i k (ground arith) (omega (arith, h)))

index_byte-drop : (s : Str) (c i : ℕ) → index_byte s c ≡ some i → (t : Str) × (drop i s ≡ c ∷ t)
unfolding index_byte
index_byte-drop [] c i e = absurd (ground arith)
index_byte-drop (a ∷ s) c zero e = (s, ground arith)
index_byte-drop (a ∷ s) c (suc i) e = index_byte-drop s c i (ground arith)

index_byte-first : (c : ℕ) (t : Str) → index_byte (c ∷ t) c ≡ some 0
unfolding index_byte
index_byte-first c t = ground arith

index_byte-here : (s : Str) (c d : ℕ) (t : Str) → s ≡ c ∷ t → c ≡ d → index_byte s d ≡ some 0
index_byte-here s c d t e k =
    ap (λ u. index_byte u d) (e ∙ ap (λ a. a ∷ t) k) ∙ index_byte-first d t

-- What holds of the segment, if there is one.
abbrev pub OnSegment : (Segment → Type 0) → Parsed → Type 0
OnSegment P (segment g) = P g
OnSegment P wildcard_first = Unit
OnSegment P no_closing = Unit
OnSegment P wildcard_inside = Unit

abbrev StandsAt : ℕ → Segment → Type 0
StandsAt ps g = (is_static g.typ ≡ false) × (g.start ≡ ps)

keyed-StandsAt : (key : Str) (tail ps pe : ℕ) (o : Option ℕ) → StandsAt ps (keyed key tail ps pe o)
unfolding keyed
keyed-StandsAt key tail ps pe none = (refl, refl)
keyed-StandsAt key tail ps pe (some i) = (refl, refl)

param_at-StandsAt : (s : Str) (ps : ℕ) (o : Option ℕ) → OnSegment (StandsAt ps) (param_at s ps o)
unfolding param_at
param_at-StandsAt s ps none = tt
param_at-StandsAt s ps (some i) = keyed-StandsAt _ _ ps _ (index_byte _ b':')

-- With the first brace at `ps`; the pattern starts with none where it is further on.
braced :
    (s : Str) (ps : ℕ) (p : Parsed)
    → index_byte s b'{' ≡ some ps
    → (StartsWild s → ps ≡ 0)
    → All (λ a. a ≢ b'*') (take ps s)
    → OnSegment (StandsAt ps) p
    → OnSegment (Starts s) p
braced s ps (segment g) b z star (t, e) = record {
  plain = λ u. absurd (ground (arith, t, u));
  before = rw e (index_byte-take s b'{' ps ps b (omega arith), star);
  at_once = λ w. (t, e ∙ z w);
  wild = λ u.
      let (rest, d) = index_byte-drop s b'{' ps b in
      (b'{', rest, ap (λ k. drop k s) e ∙ d, inl refl);
}
braced s ps wildcard_first b z star t = tt
braced s ps no_closing b z star t = tt
braced s ps wildcard_inside b z star t = tt

first_brace :
    (s : Str) (ps : ℕ)
    → index_byte s b'{' ≡ some ps
    → index_byte s b'*' ≡ none
    → StartsWild s
    → ps ≡ 0
first_brace s ps b w (c, t, e, inl k) =
    let here = index_byte-here s c b'{' t e k in ground (arith, sym b ∙ here)
first_brace s ps b w (c, t, e, inr k) =
    let here = index_byte-here s c b'*' t e k in absurd (ground (arith, sym w ∙ here))

before_star :
    (s : Str) (ps ws : ℕ)
    → index_byte s b'{' ≡ some ps
    → index_byte s b'*' ≡ some ws
    → ltb ws ps ≡ false
    → StartsWild s
    → ps ≡ 0
before_star s ps ws b w l (c, t, e, inl k) =
    let here = index_byte-here s c b'{' t e k in ground (arith, sym b ∙ here)
before_star s ps ws b w l (c, t, e, inr k) =
    let here = index_byte-here s c b'*' t e k in ground (arith, sym w ∙ here, l)

not_wild : (s : Str) → index_byte s b'{' ≡ none → index_byte s b'*' ≡ none → StartsWild s → ⊥
not_wild s b w (c, t, e, inl k) =
    let here = index_byte-here s c b'{' t e k in ground (arith, sym b ∙ here)
not_wild s b w (c, t, e, inr k) =
    let here = index_byte-here s c b'*' t e k in ground (arith, sym w ∙ here)

first_star :
    (s : Str) (ws : ℕ)
    → index_byte s b'{' ≡ none
    → index_byte s b'*' ≡ some ws
    → StartsWild s
    → ws ≡ 0
first_star s ws b w (c, t, e, inl k) =
    let here = index_byte-here s c b'{' t e k in absurd (ground (arith, sym b ∙ here))
first_star s ws b w (c, t, e, inr k) =
    let here = index_byte-here s c b'*' t e k in ground (arith, sym w ∙ here)

star_free : (s : Str) (k : ℕ) → index_byte s b'*' ≡ none → All (λ a. a ≢ b'*') (take k s)
star_free s k e = All-take _ k s (index_byte-none s b'*' e)

brace_free : (s : Str) (k : ℕ) → index_byte s b'{' ≡ none → All (λ a. a ≢ b'{') (take k s)
brace_free s k e = All-take _ k s (index_byte-none s b'{' e)

next_at-Starts :
    (s : Str) (b w : Option ℕ)
    → index_byte s b'{' ≡ b
    → index_byte s b'*' ≡ w
    → OnSegment (Starts s) (next_at s b w)
unfolding next_at param_segment whole_static rest_segment
next_at-Starts s none none p q = record {
  at_once = λ w. absurd (not_wild s p q w);
  wild = λ u. absurd (ground (arith, u));
  plain = λ u. (index_byte-none s b'{' p, index_byte-none s b'*' q);
  before = (tt, tt);
}
next_at-Starts s (some ps) none p q =
    braced s ps _ p (first_brace s ps p q) (star_free s ps q) (param_at-StandsAt s ps _)
next_at-Starts s (some ps) (some ws) p q = elim (Bool-cases (ltb ws ps)) [
  | inl l ↦ rw l tt
  | inr l ↦ rw l (
      braced s ps _ p (before_star s ps ws p q l)
        (index_byte-take s b'*' ws ps q (ground (arith, l))) (param_at-StandsAt s ps _))
]
next_at-Starts s none (some ws) p q = elim (Bool-cases (ltb ws (length s - 1))) [
  | inl l ↦ rw l tt
  | inr l ↦ rw l (record {
    at_once = λ w. (refl, first_star s ws p q w);
    wild = λ u. let (rest, d) = index_byte-drop s b'*' ws q in (b'*', rest, d, inr refl);
    plain = λ u. absurd (ground (arith, u));
    before = (brace_free s ws p, index_byte-take s b'*' ws ws q (omega arith));
  })
]

-- A pattern that starts with a parameter or the wildcard has its segment there; where there is a
-- segment that is not static, there is a parameter or the wildcard.
pub pat_next_segment-Starts : (s : Str) → OnSegment (Starts s) (pat_next_segment s)
unfolding pat_next_segment
pat_next_segment-Starts s = next_at-Starts s _ _ refl refl

lacking : (s : Str) (c : ℕ) → All (λ a. a ≢ c) s → index_byte s c ≡ none
unfolding index_byte
lacking [] c p = refl
lacking (a ∷ s) c (q, p) = ground (arith, q, lacking s c p)

-- A pattern without parameters is one static segment.
pub pat_next_segment-plain : (s : Str) → IsPlain s → pat_next_segment s ≡ segment (whole_static s)
unfolding pat_next_segment next_at
pat_next_segment-plain s (p, q) = rw (lacking s b'{' p, lacking s b'*' q) refl

-- A pattern without parameters has no keys.
pub pat_param_keys-plain : (s : Str) → IsPlain s → pat_param_keys s ≡ keys []
unfolding pat_param_keys keys_loop keys_step whole_static
pat_param_keys-plain s p =
    ap (λ g. keys_step g [] (λ e ks. keys_loop (length s) (drop e s) ks))
      (pat_next_segment-plain s p)
