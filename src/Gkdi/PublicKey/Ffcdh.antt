-- ===== src/Gkdi/PublicKey/Ffcdh.antt =====
-- class FFCDHParameters and class FFCDHKey of src/dpapi_ng/_gkdi.py.
use dpapi_ng.Base.{
  ℕ, ◌+◌, ◌-◌, ◌^◌, ◌<◌, ◌≡◌, arith, not, [], ◌∷◌, length, slice, take, drop, drop-add,
  if◌then◌else◌, bytes_eq, Result, ok, err, ◌>>=◌, value_error,
}
use dpapi_ng.Bytes.{Bytes, join, from_le, from_be, to_bytes, to_bytes_be}
use dpapi_ng.Bytes.RoundTrip.{
  from_le-le_bytes, to_bytes-ok, to_bytes_be-ok, from_be-be_bytes, length-be_bytes, take-be_bytes,
  drop-be_bytes,
}

pub record FfcdhParameters : Type 0 where
  pub key_length : ℕ
  pub field_order : ℕ
  pub generator : ℕ

pub record FfcdhKey : Type 0 where
  pub key_length : ℕ
  pub field_order : ℕ
  pub generator : ℕ
  pub public_key : ℕ

abbrev parameters_magic : Bytes
parameters_magic = 0x44 ∷ 0x48 ∷ 0x50 ∷ 0x4d ∷ []

abbrev key_magic : Bytes
key_magic = 0x44 ∷ 0x48 ∷ 0x50 ∷ 0x42 ∷ []

-- FFCDHParameters.pack
unfoldable pub pack_parameters : FfcdhParameters → Result Bytes
pack_parameters p = do
  b_field_order ← to_bytes_be p.key_length p.field_order
  b_generator ← to_bytes_be p.key_length p.generator
  b_length ← to_bytes 4 (12 + length b_field_order + length b_generator)
  b_key_length ← to_bytes 4 p.key_length
  ok (join (b_length ∷ parameters_magic ∷ b_key_length ∷ b_field_order ∷ b_generator ∷ []))

-- FFCDHParameters.unpack
unfoldable pub unpack_parameters : Bytes → Result FfcdhParameters
unpack_parameters view =
    if not (bytes_eq (slice 4 8 view) parameters_magic)
    then err value_error
    else let key_length = from_le (slice 8 12 view) in
      let field_order = slice 12 (12 + key_length) view in
      let generator = slice (12 + key_length) (12 + key_length + key_length) view in
      ok (record {
        key_length = key_length;
        field_order = from_be field_order;
        generator = from_be generator;
      })

-- FFCDHKey.pack
unfoldable pub pack_key : FfcdhKey → Result Bytes
pack_key k = do
  b_field_order ← to_bytes_be k.key_length k.field_order
  b_generator ← to_bytes_be k.key_length k.generator
  b_pub_key ← to_bytes_be k.key_length k.public_key
  b_key_length ← to_bytes 4 k.key_length
  ok (join (key_magic ∷ b_key_length ∷ b_field_order ∷ b_generator ∷ b_pub_key ∷ []))

-- FFCDHKey.unpack
unfoldable pub unpack_key : Bytes → Result FfcdhKey
unpack_key view =
    if not (bytes_eq (slice 0 4 view) key_magic)
    then err value_error
    else let key_length = from_le (slice 4 8 view) in
      let field_order = slice 8 (8 + key_length) view in
      let view1 = drop (8 + key_length) view in
      let generator = take key_length view1 in
      let view2 = drop key_length view1 in
      let public_key = take key_length view2 in
      ok (record {
        key_length = key_length;
        field_order = from_be field_order;
        generator = from_be generator;
        public_key = from_be public_key;
      })

pub record FitsParameters (p : FfcdhParameters) : Type 0 where
  pub total : 12 + p.key_length + p.key_length < 256 ^ 4
  pub field_order : p.field_order < 256 ^ p.key_length
  pub generator : p.generator < 256 ^ p.key_length

pub record FitsKey (k : FfcdhKey) : Type 0 where
  pub key_length : k.key_length < 256 ^ 4
  pub field_order : k.field_order < 256 ^ k.key_length
  pub generator : k.generator < 256 ^ k.key_length
  pub public_key : k.public_key < 256 ^ k.key_length

-- DH parameters whose numbers fit the key length, and whose structure is shorter than 4 GiB, are
-- packed without an error, and unpack returns them unchanged.
pub unpack-pack_parameters :
    (p : FfcdhParameters) → FitsParameters p → (pack_parameters p >>= unpack_parameters) ≡ ok p
unfolding pack_parameters unpack_parameters
unpack-pack_parameters p h =
    let n = p.key_length in
    let e : 12 + n - 12 ≡ n = omega arith in
    let f : 12 + n + n - (12 + n) ≡ n = omega arith in
    rw (
      to_bytes_be-ok n p.field_order h.field_order,
      to_bytes_be-ok n p.generator h.generator,
      length-be_bytes n p.field_order,
      length-be_bytes n p.generator,
      to_bytes-ok 4 (12 + n + n) h.total,
      to_bytes-ok 4 n (omega (arith, h.total)),
      from_le-le_bytes 4 n (omega (arith, h.total)),
      drop-add 12 n,
      e,
      f,
      take-be_bytes n p.field_order,
      drop-be_bytes n p.field_order,
      take-be_bytes n p.generator [],
      from_be-be_bytes n p.field_order h.field_order,
      from_be-be_bytes n p.generator h.generator,
    )

-- A DH public key whose numbers fit its key length, which fits 32 bits, is packed without an
-- error, and unpack returns it unchanged.
pub unpack-pack_key : (k : FfcdhKey) → FitsKey k → (pack_key k >>= unpack_key) ≡ ok k
unfolding pack_key unpack_key
unpack-pack_key k h =
    let n = k.key_length in
    let e : 8 + n - 8 ≡ n = omega arith in
    rw (
      to_bytes_be-ok n k.field_order h.field_order,
      to_bytes_be-ok n k.generator h.generator,
      to_bytes_be-ok n k.public_key h.public_key,
      to_bytes-ok 4 n h.key_length,
      from_le-le_bytes 4 n h.key_length,
      drop-add 8 n,
      e,
      take-be_bytes n k.field_order,
      drop-be_bytes n k.field_order,
      take-be_bytes n k.generator,
      drop-be_bytes n k.generator,
      take-be_bytes n k.public_key [],
      from_be-be_bytes n k.field_order h.field_order,
      from_be-be_bytes n k.generator h.generator,
      from_be-be_bytes n k.public_key h.public_key,
    )
