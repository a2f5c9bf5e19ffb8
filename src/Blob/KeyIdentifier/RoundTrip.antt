-- ===== src/Blob/KeyIdentifier/RoundTrip.antt =====
-- KeyIdentifier of src/dpapi_ng/_blob.py: the bytes of pack, read by unpack.
use dpapi_ng.Base.{◌^◌, ◌<◌, ◌≡◌, [], ◌∷◌, length, All, take-append, drop-append, ok, ◌>>=◌}
use dpapi_ng.Bytes.{Bytes, join, le_bytes}
use dpapi_ng.Bytes.RoundTrip.{from_le-le_bytes, to_bytes-ok}
use dpapi_ng.Bytes.Uuid.{IsUuid, bytes_le, uuid_from_bytes_le-bytes_le}
use dpapi_ng.Bytes.Text.{Text, IsChar}
use dpapi_ng.Bytes.Names.{name_bytes, encode-name, decode-name}
use dpapi_ng.Blob.KeyIdentifier.{KeyIdentifier, magic, pack, unpack_names, unpack}

pub record IsValid (k : KeyIdentifier) : Type 0 where
  pub version : k.version < 256 ^ 4
  pub flags : k.flags < 256 ^ 4
  pub l0 : k.l0 < 256 ^ 4
  pub l1 : k.l1 < 256 ^ 4
  pub l2 : k.l2 < 256 ^ 4
  pub root_key_identifier : IsUuid k.root_key_identifier
  pub key_info : length k.key_info < 256 ^ 4
  pub domain_name : All IsChar k.domain_name
  pub domain_len : length (name_bytes k.domain_name) < 256 ^ 4
  pub forest_name : All IsChar k.forest_name
  pub forest_len : length (name_bytes k.forest_name) < 256 ^ 4

unfoldable pub layout : KeyIdentifier → Bytes
layout k = join (
    le_bytes 4 k.version
    ∷ magic
    ∷ le_bytes 4 k.flags
    ∷ le_bytes 4 k.l0
    ∷ le_bytes 4 k.l1
    ∷ le_bytes 4 k.l2
    ∷ bytes_le k.root_key_identifier
    ∷ le_bytes 4 (length k.key_info)
    ∷ le_bytes 4 (length (name_bytes k.domain_name))
    ∷ le_bytes 4 (length (name_bytes k.forest_name))
    ∷ k.key_info
    ∷ name_bytes k.domain_name
    ∷ name_bytes k.forest_name
    ∷ [])

pub pack-layout : (k : KeyIdentifier) → IsValid k → pack k ≡ ok (layout k)
unfolding pack layout
pack-layout k h = rw (
  encode-name k.domain_name h.domain_name,
  encode-name k.forest_name h.forest_name,
  to_bytes-ok 4 k.version h.version,
  to_bytes-ok 4 k.flags h.flags,
  to_bytes-ok 4 k.l0 h.l0,
  to_bytes-ok 4 k.l1 h.l1,
  to_bytes-ok 4 k.l2 h.l2,
  to_bytes-ok 4 _ h.key_info,
  to_bytes-ok 4 _ h.domain_len,
  to_bytes-ok 4 _ h.forest_len,
)

unpack_names_lem :
    (key_info : Bytes) (domain forest : Text)
    → All IsChar domain
    → All IsChar forest
    → unpack_names
        (length key_info)
        (length (name_bytes domain))
        (length (name_bytes forest))
        (join (key_info ∷ name_bytes domain ∷ name_bytes forest ∷ []))
      ≡ ok (key_info, domain, forest)
unfolding unpack_names
unpack_names_lem key_info domain forest hd hf = rw (
  take-append key_info,
  drop-append key_info,
  decode-name domain _ hd,
  drop-append (name_bytes domain),
  decode-name forest _ hf,
)

pub unpack-layout : (k : KeyIdentifier) → IsValid k → unpack (layout k) ≡ ok k
unfolding unpack layout
unpack-layout k h = rw (
  uuid_from_bytes_le-bytes_le k.root_key_identifier h.root_key_identifier,
  from_le-le_bytes 4 (length k.key_info) h.key_info,
  from_le-le_bytes 4 (length (name_bytes k.domain_name)) h.domain_len,
  from_le-le_bytes 4 (length (name_bytes k.forest_name)) h.forest_len,
  unpack_names_lem k.key_info k.domain_name k.forest_name h.domain_name h.forest_name,
  from_le-le_bytes 4 k.version h.version,
  from_le-le_bytes 4 k.flags h.flags,
  from_le-le_bytes 4 k.l0 h.l0,
  from_le-le_bytes 4 k.l1 h.l1,
  from_le-le_bytes 4 k.l2 h.l2,
)

-- A key identifier whose numbers fit 32 bits, whose names are encodable and whose parts are
-- shorter than 4 GiB is packed without an error, and unpack returns it unchanged.
pub unpack-pack_key_identifier : (k : KeyIdentifier) → IsValid k → (pack k >>= unpack) ≡ ok k
unpack-pack_key_identifier k h = rw (pack-layout k h) (unpack-layout k h)
