-- ===== src/Validator/MediaType.antt =====
-- internal/platform/validator/internal.go: the parsing of media types.
use api_firewall.Base.{
  suc, not, none, some, [], ◌∷◌, Str, str_eq, exists, index_byte, split_first, trim_space, drop,
  ◌==◌, if◌then◌else◌,
}

-- The part from the last plus sign on, if there is one.
from_plus : Str → Str
from_plus [] = []
from_plus (b ∷ s) =
    let later = from_plus s in
    if not (str_eq later []) then later else if b == b'+' then b ∷ s else []

before_semicolon : Str → Str
before_semicolon s = if exists (λ b. b == b';') s then trim_space (split_first s b';') else s

subtype_of : Str → Str
subtype_of s = elim (index_byte s b'/') [ none ↦ [] | some i ↦ drop (suc i) s ]

-- `parseMediaType`
unfoldable pub parse_media_type : Str → Str × Str
unfolding from_plus before_semicolon subtype_of
parse_media_type content_type =
    let media_type = before_semicolon content_type in
    (media_type, from_plus (subtype_of media_type))
