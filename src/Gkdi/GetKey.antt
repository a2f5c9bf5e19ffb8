-- ===== src/Gkdi/GetKey.antt =====
-- class GetKey of src/dpapi_ng/_gkdi.py: the request for a key, and the answer to it.
pub mod RoundTrip
pub mod Response
use dpapi_ng.Base.{
  ℕ, ◌+◌, ◌-◌, ◌%◌, ◌^◌, ◌<◌, ◌≡◌, refl, arith, Bool, true, false, not, List, [], ◌∷◌, ◌++◌, length,
  replicate, length-replicate, slice, take, drop, take_last, drop_last, drop-add, drop-replicate,
  take-append, drop-append, if◌then◌else◌, ◌==◌, bytes_eq, Option, none, some, Result, ok, err,
  ◌>>=◌, value_error, ℤ, pos, negsuc, length-append,
}
use dpapi_ng.Bytes.{Bytes, join, le_bytes, from_le, to_bytes, to_bytes_signed, from_le_signed}
use dpapi_ng.Bytes.RoundTrip.{
  from_le-le_bytes, to_bytes-ok, InRange32, signed_bytes32, to_bytes_signed-ok,
  from_le_signed-signed_bytes32,
}
use dpapi_ng.Bytes.Uuid.{Uuid, IsUuid, bytes_le, uuid_from_bytes_le, uuid_from_bytes_le-bytes_le}
use dpapi_ng.Gkdi.Envelope.{GroupKeyEnvelope}
use dpapi_ng.Gkdi.Envelope.Pack as Envelope

pub record GetKey : Type 0 where
  pub target_sd : Bytes
  pub root_key_id : Option Uuid
  pub l0_key_id : ℤ
  pub l1_key_id : ℤ
  pub l2_key_id : ℤ

-- -n % 8
abbrev pub padding8 : ℕ → ℕ
padding8 n = (8 - n % 8) % 8

abbrev pub referent : Bytes
referent = 0 ∷ 0 ∷ 2 ∷ 0 ∷ 0 ∷ 0 ∷ 0 ∷ 0 ∷ []

abbrev pub null_pointer : Bytes
null_pointer = 0 ∷ 0 ∷ 0 ∷ 0 ∷ 0 ∷ 0 ∷ 0 ∷ 0 ∷ []

-- The pointer pRootKeyID
abbrev pub b_root_key : Option Uuid → Bytes
b_root_key none = null_pointer
b_root_key (some id) = referent ++ bytes_le id

-- GetKey.pack
unfoldable pub pack : GetKey → Result Bytes
pack k = do
  target_sd_len ← to_bytes 8 (length k.target_sd)
  b_l0 ← to_bytes_signed 4 k.l0_key_id
  b_l1 ← to_bytes_signed 4 k.l1_key_id
  b_l2 ← to_bytes_signed 4 k.l2_key_id
  ok (
      join (
        target_sd_len
        ∷ target_sd_len
        ∷ k.target_sd
        ∷ replicate (padding8 (length k.target_sd)) 0
        ∷ b_root_key k.root_key_id
        ∷ b_l0
        ∷ b_l1
        ∷ b_l2
        ∷ []))

-- The pointer read back, with the view behind it
unfoldable pub unpack_root_key : Bytes → Result (Option Uuid × Bytes)
unpack_root_key view =
    if bytes_eq (slice 0 8 view) null_pointer
    then ok (none, drop 8 view)
    else do id ← uuid_from_bytes_le (slice 8 24 view); ok (some id, drop 24 view)

-- int.from_bytes with signed=True of a slice, which may be shorter than asked for
abbrev pub signed_of : Bytes → ℤ
signed_of bs = from_le_signed (length bs) bs

-- GetKey.unpack
unfoldable pub unpack : Bytes → Result GetKey
unpack view = do
  let target_sd_len = from_le (slice 0 4 view)
  let target_sd = slice 16 (16 + target_sd_len) view
  let view1 = drop (16 + target_sd_len + padding8 target_sd_len) view
  (root_key_id, view2) ← unpack_root_key view1
  ok (record {
    target_sd = target_sd;
    root_key_id = root_key_id;
    l0_key_id = signed_of (slice 0 4 view2);
    l1_key_id = signed_of (slice 4 8 view2);
    l2_key_id = signed_of (slice 8 12 view2);
  })

-- GetKey.unpack_response
unfoldable pub unpack_response : Bytes → Result GroupKeyEnvelope
unpack_response view =
    let hresult = from_le (take_last 4 view) in
    let view1 = drop_last 4 view in
    if not (hresult == 0)
    then err value_error
    else let key_length = from_le (slice 0 4 view1) in
      let view2 = drop 8 view1 in Envelope.unpack (slice 16 (16 + key_length) view2)
