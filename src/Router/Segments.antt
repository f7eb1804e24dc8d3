-- ===== src/Router/Segments.antt =====
-- `patNextSegment` and `patParamKeys` of internal/platform/router/tree.go: the pieces of a route
-- pattern, and the parameter keys in it.
pub mod Progress
pub mod Starts
use api_firewall.Base.{
  ℕ, zero, suc, ◌+◌, ◌-◌, ◌<◌, ◌≤◌, ◌≡◌, refl, sym, ap, ◌∙◌, ◌≢◌, ◌⊎◌, inl, inr, Bool, true, false,
  ◌&&◌, ◌||◌, not, Option, none, some, List, [], ◌∷◌, ◌++◌, Str, bytes, str_eq, str_eq_iff,
  str_eq_refl, exists, index_byte, index_byte-lt, get_or, length, take, drop, ltb, ◌==◌,
  if◌then◌else◌, arith, All, Bool-cases, Option-cases,
}
use api_firewall.Router.{slash}

pub data NodeType : Type 0 where
  nt_static nt_regexp nt_param nt_catch_all : NodeType

pub record Segment : Type 0 where
  pub typ : NodeType
  pub key : Str
  pub rexpat : Str
  pub tail : ℕ
  pub start : ℕ
  pub finish : ℕ

pub data Parsed : Type 0 where
  segment : Segment → Parsed
  wildcard_first : Parsed
  no_closing : Parsed
  wildcard_inside : Parsed

-- The index of the `}` that closes the braces open, `cc` of them so far.
closing : Str → ℕ → Option ℕ
closing [] cc = none
closing (c ∷ s) cc =
    let deeper = closing s (cc + 1) in
    let higher = closing s (cc - 1) in
    let same = closing s cc in
    let next : Option ℕ → Option ℕ = λ o. elim o [ none ↦ none | some i ↦ some (suc i) ] in
    if c == b'{'
    then next deeper
    else if c == b'}'
    then (if cc - 1 == 0 then some 0 else next higher)
    else next same

-- The regular expression is anchored at both ends.
anchor : Str → Str
anchor [] = []
anchor (c ∷ r) =
    let r' = if c == b'^' then c ∷ r else b'^' ∷ c ∷ r in
    if get_or r' (length r' - 1) 0 == b'$' then r' else r' ++ b'$' ∷ []

-- The segment of a parameter whose key may have a regular expression behind a colon.
keyed : Str → ℕ → ℕ → ℕ → Option ℕ → Segment
unfolding anchor
keyed key tail ps pe none = record {
  typ = nt_param;
  key = key;
  rexpat = [];
  tail = tail;
  start = ps;
  finish = pe;
}
keyed key tail ps pe (some i) = record {
  typ = nt_regexp;
  key = take i key;
  rexpat = anchor (drop (suc i) key);
  tail = tail;
  start = ps;
  finish = pe;
}

-- With the closing brace at `i` behind the opening one.
param_at : Str → ℕ → Option ℕ → Parsed
unfolding keyed
param_at pattern ps none = no_closing
param_at pattern ps (some i) =
    let key = take (i - 1) (drop (ps + 1) pattern) in
    segment (keyed key (get_or pattern (ps + i + 1) slash) ps (ps + i + 1) (index_byte key b':'))

param_segment : Str → ℕ → Parsed
unfolding param_at closing
param_segment pattern ps = param_at pattern ps (closing (drop ps pattern) 0)

unfoldable pub whole_static : Str → Segment
whole_static pattern = record {
  typ = nt_static;
  key = [];
  rexpat = [];
  tail = 0;
  start = 0;
  finish = length pattern;
}

rest_segment : Str → ℕ → Segment
rest_segment pattern ws = record {
  typ = nt_catch_all;
  key = bytes "*";
  rexpat = [];
  tail = 0;
  start = ws;
  finish = length pattern;
}

next_at : Str → Option ℕ → Option ℕ → Parsed
unfolding param_segment whole_static rest_segment
next_at pattern none none = segment (whole_static pattern)
next_at pattern (some ps) none = param_segment pattern ps
next_at pattern (some ps) (some ws) = if ltb ws ps then wildcard_first else param_segment pattern ps
next_at pattern none (some ws) =
    if ltb ws (length pattern - 1) then wildcard_inside else segment (rest_segment pattern ws)

-- `patNextSegment`
unfoldable pub pat_next_segment : Str → Parsed
unfolding next_at
pat_next_segment pattern = next_at pattern (index_byte pattern b'{') (index_byte pattern b'*')

pub data ParamKeys : Type 0 where
  keys : List Str → ParamKeys
  bad_pattern : Parsed → ParamKeys
  duplicate_key : Str → ParamKeys
  out_of_fuel : ParamKeys

abbrev pub is_static : NodeType → Bool
is_static nt_static = true
is_static _ = false

-- One round of the loop, with the rest of it.
keys_step : Parsed → List Str → (ℕ → List Str → ParamKeys) → ParamKeys
keys_step (segment g) ks loop =
    if is_static g.typ
    then keys ks
    else if exists (λ k. str_eq k g.key) ks
    then duplicate_key g.key
    else loop g.finish (ks ++ g.key ∷ [])
keys_step bad ks loop = bad_pattern bad

keys_loop : ℕ → Str → List Str → ParamKeys
unfolding keys_step pat_next_segment
keys_loop zero pat ks = out_of_fuel
keys_loop (suc fuel) pat ks =
    keys_step (pat_next_segment pat) ks (λ e ks'. keys_loop fuel (drop e pat) ks')

-- `patParamKeys`; each round takes a byte of the pattern at least, so the fuel is enough.
unfoldable pub pat_param_keys : Str → ParamKeys
unfolding keys_loop
pat_param_keys pattern = keys_loop (suc (length pattern)) pattern []
