-- ===== src/Base/Text/Plain.antt =====
-- Strings of bytes above the space: nothing is trimmed from them, and without the separator they
-- are parts of a split.
use Prim.Native.Nat.{ℕ, ◌<◌}
use mathlib.Core.Path.{◌≡◌, refl, sym, ap, subst, ◌∙◌}
use mathlib.Core.Bool.{true, false}
use mathlib.Core.List.{[], ◌∷◌, ◌++◌, reverse, reverse-cons, reverse-reverse}
use native.Mathlib.Omega.{arith}
use api_firewall.Base.Tests.{◌==◌}
use api_firewall.Base.Lists.{All, All-append, append_nil, append_assoc}
use api_firewall.Base.Text.{Str, is_space, trim_left, trim_space, split, split_from}

abbrev pub IsPlain : Str → Type 0
IsPlain = All (λ c. 32 < c)

reverse-IsPlain : (s : Str) → IsPlain s → IsPlain (reverse s)
reverse-IsPlain [] p = tt
reverse-IsPlain (c ∷ s) (q, p) =
    subst IsPlain (sym (reverse-cons c s))
      (All-append _ (reverse s) (c ∷ []) (reverse-IsPlain s p) (q, tt))

trim_left_lem : (s : Str) → IsPlain s → trim_left s ≡ s
unfolding trim_left is_space
trim_left_lem [] p = refl
trim_left_lem (c ∷ s) (q, p) = ground arith

pub trim_space_lem : (s : Str) → IsPlain s → trim_space s ≡ s
unfolding trim_space
trim_space_lem s p =
    ap (λ t. reverse (trim_left (reverse t))) (trim_left_lem s p)
    ∙ ap reverse (trim_left_lem (reverse s) (reverse-IsPlain s p))
    ∙ reverse-reverse s

eq_refl : (c : ℕ) → (c == c) ≡ true
eq_refl c = ground arith

split_from-part :
    (cur s rest : Str) (c : ℕ)
    → All (λ a. (a == c) ≡ false) s
    → split_from cur (s ++ c ∷ rest) c ≡ (cur ++ s) ∷ split rest c
unfolding split_from split
split_from-part cur [] rest c p = rw (eq_refl c) (ap (λ t. t ∷ split rest c) (sym (append_nil cur)))
split_from-part cur (a ∷ s) rest c (q, p) = rw q (
    split_from-part (cur ++ a ∷ []) s rest c p
    ∙ ap (λ t. t ∷ split rest c) (append_assoc cur (a ∷ []) s))

split_from-last :
    (cur s : Str) (c : ℕ) → All (λ a. (a == c) ≡ false) s → split_from cur s c ≡ (cur ++ s) ∷ []
unfolding split_from
split_from-last cur [] c p = ap (λ t. t ∷ []) (sym (append_nil cur))
split_from-last cur (a ∷ s) c (q, p) =
    rw q (split_from-last (cur ++ a ∷ []) s c p ∙ ap (λ t. t ∷ []) (append_assoc cur (a ∷ []) s))

pub split-part :
    (s rest : Str) (c : ℕ)
    → All (λ a. (a == c) ≡ false) s
    → split (s ++ c ∷ rest) c ≡ s ∷ split rest c
unfolding split
split-part s rest c p = split_from-part [] s rest c p

pub split-last : (s : Str) (c : ℕ) → All (λ a. (a == c) ≡ false) s → split s c ≡ s ∷ []
unfolding split
split-last s c p = split_from-last [] s c p
