-- ===== src/Router/Segments/Progress.antt =====
-- The bounds of segments, and the end of the loop over them.
use api_firewall.Base.{
  ℕ, zero, suc, ◌+◌, ◌-◌, ◌<◌, ◌≤◌, ◌≡◌, refl, sym, ◌≢◌, inl, inr, true, false, Option, none, some,
  List, [], ◌∷◌, ◌++◌, Str, str_eq, str_eq_iff, exists, index_byte-lt, length, drop, ltb, arith,
  Bool-cases,
}
use api_firewall.Router.Segments.{
  NodeType, nt_static, Segment, Parsed, segment, wildcard_first, no_closing, wildcard_inside,
  closing, keyed, param_at, param_segment, whole_static, rest_segment, next_at, pat_next_segment,
  ParamKeys, keys, bad_pattern, duplicate_key, out_of_fuel, is_static, keys_step, keys_loop,
  pat_param_keys,
}

-- What a segment tells of its pattern.
pub record IsSegment (pattern : Str) (g : Segment) : Type 0 where
  pub start_before : g.start ≤ g.finish
  pub finish_within : g.finish ≤ length pattern
  pub progress : g.typ ≢ nt_static → g.start < g.finish

closing-lt : (s : Str) (cc i : ℕ) → closing s cc ≡ some i → i < length s
unfolding closing
closing-lt [] cc i e = ground arith
closing-lt (c ∷ s) cc zero e = omega arith
closing-lt (c ∷ s) cc (suc i) e =
    ground (arith, closing-lt s (cc + 1) i, closing-lt s (cc - 1) i, closing-lt s cc i)

length-drop : (n : ℕ) (s : Str) → length (drop n s) ≡ length s - n
length-drop zero s = omega arith
length-drop (suc n) [] = omega arith
length-drop (suc n) (c ∷ s) = omega (arith, length-drop n s)

-- The segment that a parse gave, if it gave one.
abbrev Gives : (Segment → Type 0) → Parsed → Type 0
Gives P (segment g) = P g
Gives P _ = Unit

keyed-IsSegment :
    (pattern key : Str) (tail ps pe : ℕ) (o : Option ℕ)
    → ps < pe
    → pe ≤ length pattern
    → IsSegment pattern (keyed key tail ps pe o)
unfolding keyed
keyed-IsSegment pattern key tail ps pe none h k = record {
  start_before = omega arith;
  finish_within = k;
  progress = λ n. h;
}
keyed-IsSegment pattern key tail ps pe (some i) h k = record {
  start_before = omega arith;
  finish_within = k;
  progress = λ n. h;
}

param_at-Gives :
    (pattern : Str) (ps : ℕ) (o : Option ℕ)
    → ((i : ℕ) → o ≡ some i → ps + i < length pattern)
    → Gives (IsSegment pattern) (param_at pattern ps o)
unfolding param_at
param_at-Gives pattern ps none h = tt
param_at-Gives pattern ps (some i) h =
    keyed-IsSegment pattern _ _ ps (ps + i + 1) _ (omega arith) (omega (arith, h i refl))

param_segment-Gives :
    (pattern : Str) (ps : ℕ) → Gives (IsSegment pattern) (param_segment pattern ps)
unfolding param_segment
param_segment-Gives pattern ps =
    param_at-Gives pattern ps _
      (λ i e. omega (arith, closing-lt (drop ps pattern) 0 i e, length-drop ps pattern))

next_at-Gives :
    (pattern : Str) (ps ws : Option ℕ)
    → ((i : ℕ) → ws ≡ some i → i < length pattern)
    → Gives (IsSegment pattern) (next_at pattern ps ws)
unfolding next_at whole_static rest_segment
next_at-Gives pattern none none h = record {
  start_before = omega arith;
  finish_within = omega arith;
  progress = λ n. absurd (n refl);
}
next_at-Gives pattern (some ps) none h = param_segment-Gives pattern ps
next_at-Gives pattern (some ps) (some ws) h = elim (Bool-cases (ltb ws ps)) [
  | inl e ↦ rw e tt
  | inr e ↦ rw e (param_segment-Gives pattern ps)
]
next_at-Gives pattern none (some ws) h = elim (Bool-cases (ltb ws (length pattern - 1))) [
  | inl e ↦ rw e tt
  | inr e ↦ rw e (record {
    start_before = omega (arith, h ws refl);
    finish_within = omega arith;
    progress = λ n. h ws refl;
  })
]

pat_next_segment-Gives : (pattern : Str) → Gives (IsSegment pattern) (pat_next_segment pattern)
unfolding pat_next_segment
pat_next_segment-Gives pattern = next_at-Gives pattern _ _ (λ i e. index_byte-lt pattern b'*' i e)

-- No key is there twice.
abbrev pub IsDistinct : List Str → Type 0
IsDistinct [] = Unit
IsDistinct (k ∷ ks) = (exists (λ j. str_eq j k) ks ≡ false) × IsDistinct ks

str_eq_sym : (s t : Str) → str_eq s t ≡ false → str_eq t s ≡ false
str_eq_sym s t e = elim (Bool-cases (str_eq t s)) [
  | inl same ↦
      let back : str_eq s t ≡ true = (str_eq_iff s t).1 (sym ((str_eq_iff t s).0 same)) in
      absurd (ground arith)
  | inr other ↦ other
]

exists-append_one :
    (k g : Str) (ks : List Str)
    → exists (λ j. str_eq j k) ks ≡ false
    → str_eq g k ≡ false
    → exists (λ j. str_eq j k) (ks ++ g ∷ []) ≡ false
exists-append_one k g [] e h = ground arith
exists-append_one k g (j ∷ ks) e h = ground (arith, exists-append_one k g ks)

IsDistinct-append_one :
    (ks : List Str) (g : Str)
    → IsDistinct ks
    → exists (λ j. str_eq j g) ks ≡ false
    → IsDistinct (ks ++ g ∷ [])
IsDistinct-append_one [] g d e = (refl, tt)
IsDistinct-append_one (k ∷ ks) g (k_new, d) e =
    let apart : str_eq k g ≡ false = ground arith in
    let later : exists (λ j. str_eq j g) ks ≡ false = ground arith in
    (exists-append_one k g ks k_new (str_eq_sym k g apart), IsDistinct-append_one ks g d later)

-- The keys were found, each once, or there is an error to tell of.
abbrev pub IsAnswer : ParamKeys → Type 0
IsAnswer (keys ks) = IsDistinct ks
IsAnswer (bad_pattern p) = Unit
IsAnswer (duplicate_key k) = Unit
IsAnswer out_of_fuel = ⊥

is_static_lem : (typ : NodeType) → is_static typ ≡ false → typ ≢ nt_static
is_static_lem typ e s = absurd (ground arith)

keys_step-IsAnswer :
    (pattern : Str) (p : Parsed) (ks : List Str) (loop : ℕ → List Str → ParamKeys)
    → Gives (IsSegment pattern) p
    → IsDistinct ks
    → ((e : ℕ) (ks' : List Str)
        → 0 < e
        → e ≤ length pattern
        → IsDistinct ks'
        → IsAnswer (loop e ks'))
    → IsAnswer (keys_step p ks loop)
unfolding keys_step
keys_step-IsAnswer pattern (segment g) ks loop s d next = elim (Bool-cases (is_static g.typ)) [
  | inl e ↦ rw e d
  | inr e ↦ elim (Bool-cases (exists (λ k. str_eq k g.key) ks)) [
    | inl q ↦ rw (e, q) tt
    | inr q ↦
        rw (e, q)
          (next g.finish (ks ++ g.key ∷ []) (omega (arith, s.progress (is_static_lem g.typ e)))
            s.finish_within (IsDistinct-append_one ks g.key d q))
  ]
]
keys_step-IsAnswer pattern wildcard_first ks loop s d next = tt
keys_step-IsAnswer pattern no_closing ks loop s d next = tt
keys_step-IsAnswer pattern wildcard_inside ks loop s d next = tt

keys_loop-IsAnswer :
    (fuel : ℕ) (pattern : Str) (ks : List Str)
    → length pattern < fuel
    → IsDistinct ks
    → IsAnswer (keys_loop fuel pattern ks)
unfolding keys_loop
keys_loop-IsAnswer zero pattern ks h d = elim h [ ]
keys_loop-IsAnswer (suc fuel) pattern ks h d =
    keys_step-IsAnswer pattern (pat_next_segment pattern) ks _ (pat_next_segment-Gives pattern) d
      (λ e ks' pos within d'.
        keys_loop-IsAnswer fuel (drop e pattern) ks' (omega (arith, length-drop e pattern)) d')

-- The loop over the segments of a pattern ends: it finds the parameter keys, each of them once, or
-- reports a bad segment or a key that is there twice.
pub pat_param_keys-IsAnswer : (pattern : Str) → IsAnswer (pat_param_keys pattern)
unfolding pat_param_keys
pat_param_keys-IsAnswer pattern =
    keys_loop-IsAnswer (suc (length pattern)) pattern [] (omega arith) tt
