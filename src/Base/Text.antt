-- ===== src/Base/Text.antt =====
-- Go strings: lists of bytes, with the functions of package strings that the code calls. Case
-- mapping is that of ASCII; a byte from 128 on is left as it is.
pub mod Plain
use Prim.Native.Char.{code}
use Prim.Native.Nat.{ℕ, zero, suc, ◌+◌, ◌-◌, ◌<◌}
use Prim.Native.String.{String}
use mathlib.Core.Path.{◌≡◌, refl}
use mathlib.Core.Logic.{◌↔◌}
use mathlib.Core.Bool.{Bool, true, false, ◌&&◌, ◌||◌}
use mathlib.Core.Option.{Option, none, some}
use mathlib.Core.List.{List, [], ◌∷◌, ◌++◌, map, reverse}
use native.Mathlib.Omega.{arith}
use api_firewall.Base.Tests.{leb, ◌==◌, if◌then◌else◌}
use api_firewall.Base.Lists.{length, drop}

abbrev pub Str : Type 0
Str = List ℕ

-- A literal of the source, as its bytes.
abbrev pub bytes : String → Str
bytes String.[] = []
bytes (String.◌∷◌ c s) = code c ∷ bytes s

-- `s == t`
unfoldable pub str_eq : Str → Str → Bool
str_eq [] [] = true
str_eq (a ∷ s) (b ∷ t) = a == b && str_eq s t
str_eq _ _ = false

pub str_eq_iff : (s t : Str) → (str_eq s t ≡ true) ↔ (s ≡ t)
unfolding str_eq
str_eq_iff [] [] = ground arith
str_eq_iff [] (b ∷ t) = ground arith
str_eq_iff (a ∷ s) [] = ground arith
str_eq_iff (a ∷ s) (b ∷ t) = ground (arith, str_eq_iff s t)

pub str_eq_refl : (s : Str) → str_eq s s ≡ true
str_eq_refl s = (str_eq_iff s s).1 refl

lower_byte : ℕ → ℕ
lower_byte c = if leb b'A' c && leb c b'Z' then c + 32 else c

-- `strings.ToLower`
unfoldable pub to_lower : Str → Str
unfolding lower_byte
to_lower = map lower_byte

upper_byte : ℕ → ℕ
upper_byte c = if leb b'a' c && leb c b'z' then c - 32 else c

-- `strings.ToUpper`
unfoldable pub to_upper : Str → Str
unfolding upper_byte
to_upper = map upper_byte

-- `strings.EqualFold`
unfoldable pub equal_fold : Str → Str → Bool
unfolding to_lower str_eq
equal_fold s t = str_eq (to_lower s) (to_lower t)

-- `strings.HasPrefix`
unfoldable pub has_prefix : Str → Str → Bool
has_prefix s [] = true
has_prefix [] (b ∷ t) = false
has_prefix (a ∷ s) (b ∷ t) = a == b && has_prefix s t

-- `strings.HasSuffix`
unfoldable pub has_suffix : Str → Str → Bool
unfolding has_prefix
has_suffix s t = has_prefix (reverse s) (reverse t)

-- `strings.TrimPrefix`
unfoldable pub trim_prefix : Str → Str → Str
unfolding has_prefix
trim_prefix s p = if has_prefix s p then drop (length p) s else s

-- `strings.IndexByte`; `none` is -1
unfoldable pub index_byte : Str → ℕ → Option ℕ
index_byte [] c = none
index_byte (a ∷ s) c =
    if a == c then some 0 else elim (index_byte s c) [ none ↦ none | some i ↦ some (suc i) ]

pub index_byte-lt : (s : Str) (c i : ℕ) → index_byte s c ≡ some i → i < length s
unfolding index_byte
index_byte-lt [] c i h = ground arith
index_byte-lt (a ∷ s) c zero h = ground arith
index_byte-lt (a ∷ s) c (suc i) h = ground (arith, index_byte-lt s c i)

-- `strings.Split(s, sep)[0]` for a one-byte separator
unfoldable pub split_first : Str → ℕ → Str
split_first [] c = []
split_first (a ∷ s) c = if a == c then [] else a ∷ split_first s c

-- `strings.Split` for a one-byte separator, with the current part in front.
split_from : Str → Str → ℕ → List Str
split_from cur [] c = cur ∷ []
split_from cur (a ∷ s) c =
    let closed = cur ∷ split_from [] s c in
    let longer = split_from (cur ++ a ∷ []) s c in if a == c then closed else longer

unfoldable pub split : Str → ℕ → List Str
unfolding split_from
split s c = split_from [] s c

is_space : ℕ → Bool
is_space c = c == 32 || leb 9 c && leb c 13

trim_left : Str → Str
trim_left [] = []
trim_left (a ∷ s) = if is_space a then trim_left s else a ∷ s

-- `strings.TrimSpace`
unfoldable pub trim_space : Str → Str
unfolding trim_left is_space
trim_space s = reverse (trim_left (reverse (trim_left s)))
