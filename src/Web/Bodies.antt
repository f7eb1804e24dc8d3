-- ===== src/Web/Bodies.antt =====
-- internal/platform/web/response.go: the readers of a compressed body. The decompressors are
-- parameters; a reader is the bytes that it yields.
use api_firewall.Base.{
  Bool, true, false, ◌&&◌, List, [], ◌∷◌, Str, bytes, str_eq, exists, if◌then◌else◌,
}
use api_firewall.Web.{Error, zlib_header, encoding_unsupported}

pub data Body : Type 0 where
  readable : Str → Body
  unreadable : Error → Body

-- `BodyUncompressed` for a content encoding, and `flate.NewReader`.
pub record Codec : Type 0 where
  pub uncompress : Str → Str → Body
  pub inflate : Str → Str

abbrev pub supported_encodings : List Str
supported_encodings = bytes "gzip" ∷ bytes "deflate" ∷ bytes "br" ∷ []

is_zlib_header : Error → Bool
is_zlib_header zlib_header = true
is_zlib_header _ = false

-- The retry of a deflate body without the zlib header (RFC 1951).
retry : Codec → Str → Str → Body → Body
unfolding is_zlib_header
retry codec raw encoding (readable b) = readable b
retry codec raw encoding (unreadable e) =
    if is_zlib_header e && str_eq encoding (bytes "deflate")
    then readable (codec.inflate raw)
    else unreadable e

-- `GetDecompressedResponseBody` and `GetDecompressedRequestBody`, which differ in the body's owner.
unfoldable pub get_decompressed : Codec → Str → Str → Body
unfolding retry
get_decompressed codec raw encoding =
    if str_eq encoding []
    then readable raw
    else if exists (λ s. str_eq s encoding) supported_encodings
    then retry codec raw encoding (codec.uncompress encoding raw)
    else unreadable encoding_unsupported
