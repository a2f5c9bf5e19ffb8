-- ===== src/Blob/KeyIdentifier.antt =====
-- class KeyIdentifier of src/dpapi_ng/_blob.py: the structure that names a group key.
pub mod RoundTrip
use dpapi_ng.Base.{
  ℕ, ◌+◌, ◌-◌, ◌%◌, ◌^◌, ◌<◌, ◌≡◌, refl, ap, arith, Bool, not, List, [], ◌∷◌, ◌++◌, append_assoc,
  length, length-append, slice, take, drop, take_less, All, take-append, drop-append, ◌==◌,
  bytes_eq, if◌then◌else◌, Result, ok, err, ◌>>=◌, value_error,
}
use dpapi_ng.Bytes.{Bytes, join, le_bytes, from_le, to_bytes}
use dpapi_ng.Bytes.RoundTrip.{from_le-le_bytes, to_bytes-ok}
use dpapi_ng.Bytes.Uuid.{Uuid, IsUuid, bytes_le, uuid_from_bytes_le, uuid_from_bytes_le-bytes_le}
use dpapi_ng.Bytes.Text.{Text, encode_utf16, decode_utf16, IsChar, utf16_bytes}
use dpapi_ng.Bytes.Names.{name_bytes, encode-name, decode-name}

pub record KeyIdentifier : Type 0 where
  pub version : ℕ
  pub flags : ℕ
  pub l0 : ℕ
  pub l1 : ℕ
  pub l2 : ℕ
  pub root_key_identifier : Uuid
  pub key_info : Bytes
  pub domain_name : Text
  pub forest_name : Text

abbrev pub magic : Bytes
magic = 0x4b ∷ 0x44 ∷ 0x53 ∷ 0x4b ∷ []

-- flags & 1
unfoldable pub is_public_key : KeyIdentifier → Bool
is_public_key k = not (k.flags % 2 == 0)

unfoldable pub pack : KeyIdentifier → Result Bytes
pack k = do
  b_domain_name ← encode_utf16 (k.domain_name ++ (0 ∷ []))
  b_forest_name ← encode_utf16 (k.forest_name ++ (0 ∷ []))
  b_version ← to_bytes 4 k.version
  b_flags ← to_bytes 4 k.flags
  b_l0 ← to_bytes 4 k.l0
  b_l1 ← to_bytes 4 k.l1
  b_l2 ← to_bytes 4 k.l2
  key_info_len ← to_bytes 4 (length k.key_info)
  domain_len ← to_bytes 4 (length b_domain_name)
  forest_len ← to_bytes 4 (length b_forest_name)
  ok (
      join (
        b_version
        ∷ magic
        ∷ b_flags
        ∷ b_l0
        ∷ b_l1
        ∷ b_l2
        ∷ bytes_le k.root_key_identifier
        ∷ key_info_len
        ∷ domain_len
        ∷ forest_len
        ∷ k.key_info
        ∷ b_domain_name
        ∷ b_forest_name
        ∷ []))

-- The part of `unpack` behind the fixed fields, where the views have their variable lengths.
unpack_names : ℕ → ℕ → ℕ → Bytes → Result (Bytes × Text × Text)
unpack_names key_info_len domain_len forest_len view = do
  let key_info = take key_info_len view
  let view' = drop key_info_len view
  domain ← decode_utf16 (take_less domain_len 2 view')
  let view'' = drop domain_len view'
  forest ← decode_utf16 (take_less forest_len 2 view'')
  ok (key_info, domain, forest)

unfoldable pub unpack : Bytes → Result KeyIdentifier
unfolding unpack_names
unpack view = if not (bytes_eq (slice 4 8 view) magic) then err value_error else do
  root ← uuid_from_bytes_le (slice 24 40 view)
  (key_info, domain, forest) ←
      unpack_names (from_le (slice 40 44 view)) (from_le (slice 44 48 view))
        (from_le (slice 48 52 view)) (drop 52 view)
  ok (record {
    version = from_le (slice 0 4 view);
    flags = from_le (slice 8 12 view);
    l0 = from_le (slice 12 16 view);
    l1 = from_le (slice 16 20 view);
    l2 = from_le (slice 20 24 view);
    root_key_identifier = root;
    key_info = key_info;
    domain_name = domain;
    forest_name = forest;
  })
