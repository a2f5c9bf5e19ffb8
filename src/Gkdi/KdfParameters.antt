-- ===== src/Gkdi/KdfParameters.antt =====
-- class KDFParameters of src/dpapi_ng/_gkdi.py.
use dpapi_ng.Base.{
  ℕ, ◌-◌, ◌^◌, ◌<◌, ◌≡◌, ◌||◌, not, [], ◌∷◌, ◌++◌, length, slice, take, drop, leb, bytes_eq,
  if◌then◌else◌, Result, ok, err, value_error, not_implemented, ◌>>=◌, All,
}
use dpapi_ng.Bytes.{Bytes, join, from_le, to_bytes}
use dpapi_ng.Bytes.RoundTrip.{to_bytes-ok, from_le-le_bytes}
use dpapi_ng.Bytes.Text.{Text, text, encode_utf16, decode_utf16, IsChar, decode_utf16-utf16_bytes}
use dpapi_ng.Bytes.Names.{name_bytes, encode-name, name_long, take-name}
use dpapi_ng.Crypto.{HashAlgorithm, sha1, sha256, sha384, sha512}

pub record KdfParameters : Type 0 where
  pub hash_name : Text

-- KDFParameters.hash_algorithm
unfoldable pub hash_algorithm : KdfParameters → Result HashAlgorithm
hash_algorithm p =
    if bytes_eq p.hash_name (text "SHA1")
    then ok sha1
    else if bytes_eq p.hash_name (text "SHA256")
    then ok sha256
    else if bytes_eq p.hash_name (text "SHA384")
    then ok sha384
    else if bytes_eq p.hash_name (text "SHA512")
    then ok sha512
    else err not_implemented

abbrev magic : Bytes
magic = 0 ∷ 0 ∷ 0 ∷ 0 ∷ 1 ∷ 0 ∷ 0 ∷ 0 ∷ []

abbrev reserved : Bytes
reserved = 0 ∷ 0 ∷ 0 ∷ 0 ∷ []

unfoldable pub pack : KdfParameters → Result Bytes
pack p = do
  b_hash_name ← encode_utf16 (p.hash_name ++ (0 ∷ []))
  b_length ← to_bytes 4 (length b_hash_name)
  ok (join (magic ∷ b_length ∷ reserved ∷ b_hash_name ∷ []))

-- `view[a : a + n - k]`: where the upper bound is below the lower one the slice is empty
abbrev slice_less : ℕ → ℕ → ℕ → Bytes → Bytes
slice_less a n k view = if leb k n then take (n - k) (drop a view) else []

unfoldable pub unpack : Bytes → Result KdfParameters
unpack view =
    if not (bytes_eq (slice 0 8 view) magic) || not (bytes_eq (slice 12 16 view) reserved)
    then err value_error
    else do
      hash_name ← decode_utf16 (slice_less 16 (from_le (slice 8 12 view)) 2 view)
      ok (record { hash_name = hash_name })

-- KDFParameters.unpack(kdf_parameters).hash_algorithm
unfoldable pub named_algorithm : Bytes → Result HashAlgorithm
named_algorithm kdf_parameters = do p ← unpack kdf_parameters; hash_algorithm p

-- KDF parameters with an encodable hash name shorter than 4 GiB are packed without an error, and
-- unpack returns them unchanged.
pub unpack-pack_kdf_parameters :
    (p : KdfParameters)
    → All IsChar p.hash_name
    → length (name_bytes p.hash_name) < 256 ^ 4
    → (pack p >>= unpack) ≡ ok p
unfolding pack unpack
unpack-pack_kdf_parameters p chars fits = rw (
  encode-name p.hash_name chars,
  to_bytes-ok 4 _ fits,
  from_le-le_bytes 4 (length (name_bytes p.hash_name)) fits,
  name_long p.hash_name,
  take-name p.hash_name [],
  decode_utf16-utf16_bytes p.hash_name chars,
)
