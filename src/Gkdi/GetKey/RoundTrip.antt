-- ===== src/Gkdi/GetKey/RoundTrip.antt =====
-- GetKey of src/dpapi_ng/_gkdi.py: the bytes of pack, read by unpack.
use dpapi_ng.Base.{
  ℕ, ◌+◌, ◌-◌, ◌^◌, ◌<◌, ◌≡◌, refl, arith, [], ◌++◌, length, replicate, slice, take, drop, drop-add,
  drop-replicate, take-append, drop-append, Option, none, some, ok, ◌>>=◌, ℤ, pos, negsuc,
}
use dpapi_ng.Bytes.{Bytes, le_bytes}
use dpapi_ng.Bytes.RoundTrip.{
  from_le-le_bytes, to_bytes-ok, InRange32, signed_bytes32, to_bytes_signed-ok,
  from_le_signed-signed_bytes32,
}
use dpapi_ng.Bytes.Uuid.{Uuid, IsUuid, uuid_from_bytes_le-bytes_le}
use dpapi_ng.Gkdi.GetKey.{GetKey, padding8, b_root_key, pack, unpack_root_key, signed_of, unpack}

pub record FitsRequest (k : GetKey) : Type 0 where
  pub target_sd : length k.target_sd < 256 ^ 4
  pub root_key_id : elim k.root_key_id as (λ _. Type 0) [ none ↦ Unit {0} | some id ↦ IsUuid id ]
  pub l0_key_id : InRange32 k.l0_key_id
  pub l1_key_id : InRange32 k.l1_key_id
  pub l2_key_id : InRange32 k.l2_key_id

numbers_layout : GetKey → Bytes
numbers_layout k =
    signed_bytes32 k.l0_key_id ++ (signed_bytes32 k.l1_key_id ++ (signed_bytes32 k.l2_key_id ++ []))

take-signed : (z : ℤ) (rest : Bytes) → take 4 (signed_bytes32 z ++ rest) ≡ signed_bytes32 z
take-signed (pos n) rest = refl
take-signed (negsuc n) rest = refl

signed_of-signed_bytes32 : (z : ℤ) → InRange32 z → signed_of (signed_bytes32 z) ≡ z
signed_of-signed_bytes32 (pos n) h = from_le_signed-signed_bytes32 (pos n) h
signed_of-signed_bytes32 (negsuc n) h = from_le_signed-signed_bytes32 (negsuc n) h

drop-signed : (z : ℤ) (rest : Bytes) → drop 4 (signed_bytes32 z ++ rest) ≡ rest
drop-signed (pos n) rest = refl
drop-signed (negsuc n) rest = refl

-- The three indices, each read at its place.
numbers-read :
    (k : GetKey)
    → FitsRequest k
    → (signed_of (slice 0 4 (numbers_layout k)) ≡ k.l0_key_id)
      × (signed_of (slice 4 8 (numbers_layout k)) ≡ k.l1_key_id)
      × (signed_of (slice 8 12 (numbers_layout k)) ≡ k.l2_key_id)
unfolding numbers_layout
numbers-read k h =
    let view = numbers_layout k in
    let step : drop 8 view ≡ drop 4 (drop 4 view) = drop-add 4 4 view in
    (
      rw (take-signed k.l0_key_id) (signed_of-signed_bytes32 k.l0_key_id h.l0_key_id),
      rw (drop-signed k.l0_key_id, take-signed k.l1_key_id)
          (signed_of-signed_bytes32 k.l1_key_id h.l1_key_id),
      rw (step, drop-signed k.l0_key_id, drop-signed k.l1_key_id, take-signed k.l2_key_id [])
          (signed_of-signed_bytes32 k.l2_key_id h.l2_key_id),
    )

-- The request as it is written.
layout : GetKey → Bytes
layout k =
    le_bytes 8 (length k.target_sd)
    ++ (le_bytes 8 (length k.target_sd)
        ++ (k.target_sd
            ++ (replicate (padding8 (length k.target_sd)) 0
                ++ (b_root_key k.root_key_id ++ numbers_layout k))))

pack-layout : (k : GetKey) → FitsRequest k → pack k ≡ ok (layout k)
unfolding pack layout numbers_layout
pack-layout k h = rw (
  to_bytes-ok 8 (length k.target_sd) (omega (arith, h.target_sd)),
  to_bytes_signed-ok k.l0_key_id h.l0_key_id,
  to_bytes_signed-ok k.l1_key_id h.l1_key_id,
  to_bytes_signed-ok k.l2_key_id h.l2_key_id,
)

root_key-read :
    (id : Option Uuid) (rest : Bytes)
    → elim id as (λ _. Type 0) [ none ↦ Unit {0} | some id ↦ IsUuid id ]
    → unpack_root_key (b_root_key id ++ rest) ≡ ok (id, rest)
unfolding unpack_root_key
root_key-read none rest h = refl
root_key-read (some id) rest h = rw (uuid_from_bytes_le-bytes_le id h)

unpack-layout : (k : GetKey) → FitsRequest k → unpack (layout k) ≡ ok k
unfolding unpack layout
unpack-layout k h =
    let n = length k.target_sd in
    let e : 16 + n - 16 ≡ n = omega arith in
    let (l0, l1, l2) = numbers-read k h in
    rw (
      from_le-le_bytes 4 n h.target_sd,
      e,
      drop-add (16 + n) (padding8 n),
      drop-add 16 n,
      take-append k.target_sd,
      drop-append k.target_sd,
      drop-replicate {A = ℕ} (padding8 n) 0 _,
      root_key-read k.root_key_id (numbers_layout k) h.root_key_id,
      l0,
      l1,
      l2,
    )

-- A GetKey request whose descriptor is shorter than 4 GiB and whose indices are signed 32-bit
-- integers is packed without an error, and unpack returns it unchanged, with and without a root
-- key.
pub unpack-pack_get_key : (k : GetKey) → FitsRequest k → (pack k >>= unpack) ≡ ok k
unpack-pack_get_key k h = rw (pack-layout k h) (unpack-layout k h)
