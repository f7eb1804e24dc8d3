-- ===== src/ApiServer/Ids.antt =====
-- cmd/api-firewall/internal/handlers/api/app.go, getWallarmSchemaID: the schemas that a request names
-- in a header. Ids are int values of a 64-bit platform. The loop over the map of the schemas that are
-- loaded takes them in any order, which is the parameter `arrange`.
pub mod Printing
use api_firewall.Base.{
  ℕ, zero, suc, ◌+◌, ◌*◌, ◌-◌, ◌^◌, ◌<◌, Bool, true, false, ◌&&◌, ◌||◌, not, Option, none, some,
  List, [], ◌∷◌, ◌++◌, Str, bytes, split, trim_space, exists, ltb, leb, ◌==◌, if◌then◌else◌,
}
use api_firewall.Storage.{Storage, is_loaded}

pub data ℤ : Type 0 where
  pos : ℕ → ℤ
  negsuc : ℕ → ℤ

is_digit : ℕ → Bool
is_digit c = leb b'0' c && leb c b'9'

unfoldable pub digits_value : ℕ → Str → Option ℕ
unfolding is_digit
digits_value n [] = some n
digits_value n (c ∷ s) =
    let rest = digits_value (n * 10 + (c - b'0')) s in if is_digit c then rest else none

parse_digits : Str → Option ℕ
unfolding digits_value
parse_digits [] = none
parse_digits (c ∷ s) = digits_value 0 (c ∷ s)

positive : Option ℕ → Option ℤ
positive none = none
positive (some n) = if ltb n (2 ^ 63) then some (pos n) else none

negative : Option ℕ → Option ℤ
negative none = none
negative (some zero) = some (pos 0)
negative (some (suc n)) = if ltb n (2 ^ 63) then some (negsuc n) else none

-- `strconv.Atoi`
unfoldable pub atoi : Str → Option ℤ
unfolding parse_digits positive negative
atoi [] = none
atoi (c ∷ s) =
    if c == b'-'
    then negative (parse_digits s)
    else if c == b'+'
    then positive (parse_digits s)
    else positive (parse_digits (c ∷ s))

pub data SchemaIds : Type 0 where
  identified : List ℕ → List ℤ → SchemaIds  -- those that are loaded, and the others
  not_ready : SchemaIds
  header_missing : SchemaIds
  parsing_failed : SchemaIds

unfoldable pub has_id : List ℕ → ℕ → Bool
has_id ids id = exists (λ i. i == id) ids

-- An id joins the keys of the map.
unfoldable pub add_key : List ℕ → ℕ → List ℕ
unfolding has_id
add_key ids id = if has_id ids id then ids else ids ++ id ∷ []

module _ (s : Storage) where
  unfoldable pub sort_in : ℤ → List ℕ × List ℤ → List ℕ × List ℤ
  unfolding add_key
  sort_in (pos id) (found, not_found) =
      if is_loaded s id then (add_key found id, not_found) else (found, not_found ++ pos id ∷ [])
  sort_in (negsuc n) (found, not_found) = (found, not_found ++ negsuc n ∷ [])

  -- The loop over the parts of the header.
  unfoldable pub scan_ids : List Str → List ℕ × List ℤ → Option (List ℕ × List ℤ)
  unfolding sort_in atoi
  scan_ids [] acc = some acc
  scan_ids (part ∷ parts) acc = elim (atoi (trim_space part)) [
    | none ↦ none
    | some id ↦ scan_ids parts (sort_in id acc)
  ]

  module _ (arrange : List ℕ → List ℕ) where
    arranged : Option (List ℕ × List ℤ) → SchemaIds
    arranged none = parsing_failed
    arranged (some (found, not_found)) = identified (arrange found) not_found

    identify : Str → SchemaIds
    unfolding scan_ids arranged
    identify [] = header_missing
    identify (c ∷ header) = arranged (scan_ids (split (c ∷ header) b',') ([], []))

    -- `getWallarmSchemaID`
    unfoldable pub get_wallarm_schema_id : Str → SchemaIds
    unfolding identify
    get_wallarm_schema_id header = if s.is_ready then identify header else not_ready
