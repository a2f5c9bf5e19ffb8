-- ===== src/Gkdi/PublicKey/Ecdh.antt =====
-- class ECDHKey of src/dpapi_ng/_gkdi.py. A curve is named by a string, as in the source.
use dpapi_ng.Base.{
  ℕ, ◌+◌, ◌-◌, ◌^◌, ◌<◌, ◌≡◌, refl, arith, ◌⊎◌, inl, inr, [], ◌∷◌, slice, take, drop, drop-add,
  if◌then◌else◌, ◌==◌, bytes_eq, Result, ok, err, ◌>>=◌, value_error, key_error, Option, some, none,
}
use dpapi_ng.Bytes.{Bytes, join, from_le, from_be, to_bytes, to_bytes_be}
use dpapi_ng.Bytes.RoundTrip.{
  from_le-le_bytes, to_bytes-ok, to_bytes_be-ok, from_be-be_bytes, take-be_bytes, drop-be_bytes,
}
use dpapi_ng.Bytes.Text.{Text, text}
use dpapi_ng.Crypto.{HashAlgorithm, sha256, sha384, sha512}

pub record EcdhKey : Type 0 where
  pub curve_name : Text
  pub key_length : ℕ
  pub x : ℕ
  pub y : ℕ

-- The curve objects of `cryptography`.
pub data EllipticCurve : Type 0 where
  secp256r1 secp384r1 secp521r1 : EllipticCurve

-- ECDHKey.curve_and_hash
unfoldable pub curve_and_hash : EcdhKey → Result (EllipticCurve × HashAlgorithm)
curve_and_hash k =
    if bytes_eq k.curve_name (text "P256")
    then ok (secp256r1, sha256)
    else if bytes_eq k.curve_name (text "P384")
    then ok (secp384r1, sha384)
    else if bytes_eq k.curve_name (text "P521")
    then ok (secp521r1, sha512)
    else err key_error

-- The dictionary of `pack`.
unfoldable pub curve_bytes : Text → Option Bytes
curve_bytes name =
    if bytes_eq name (text "P256")
    then some (0x45 ∷ 0x43 ∷ 0x4b ∷ 0x31 ∷ [])
    else if bytes_eq name (text "P384")
    then some (0x45 ∷ 0x43 ∷ 0x4b ∷ 0x33 ∷ [])
    else if bytes_eq name (text "P521")
    then some (0x45 ∷ 0x43 ∷ 0x4b ∷ 0x35 ∷ [])
    else none

-- The dictionary of `unpack`.
unfoldable pub curve_of_id : ℕ → Option Text
curve_of_id curve_id =
    if curve_id == 0x314b4345
    then some (text "P256")
    else if curve_id == 0x334b4345
    then some (text "P384")
    else if curve_id == 0x354b4345
    then some (text "P521")
    else none

abbrev pub or_value_error : {A : Type 0} → Option A → Result A
or_value_error none = err value_error
or_value_error (some a) = ok a

-- ECDHKey.pack
unfoldable pub pack_ecdh : EcdhKey → Result Bytes
pack_ecdh k = do
  b_x ← to_bytes_be k.key_length k.x
  b_y ← to_bytes_be k.key_length k.y
  b_curve ← or_value_error (curve_bytes k.curve_name)
  b_key_length ← to_bytes 4 k.key_length
  ok (join (b_curve ∷ b_key_length ∷ b_x ∷ b_y ∷ []))

-- ECDHKey.unpack
unfoldable pub unpack_ecdh : Bytes → Result EcdhKey
unpack_ecdh view = do
  curve ← or_value_error (curve_of_id (from_le (slice 0 4 view)))
  let length = from_le (slice 4 8 view)
  let x = slice 8 (8 + length) view
  let y = take length (drop (8 + length) view)
  ok (record { curve_name = curve; key_length = length; x = from_be x; y = from_be y })

-- The curves of MS-GKDI 2.2.3.2.
abbrev pub IsCurve : Text → Type 0
IsCurve name = (name ≡ text "P256") ⊎ ((name ≡ text "P384") ⊎ (name ≡ text "P521"))

pub record FitsEcdh (k : EcdhKey) : Type 0 where
  pub curve_name : IsCurve k.curve_name
  pub key_length : k.key_length < 256 ^ 4
  pub x : k.x < 256 ^ k.key_length
  pub y : k.y < 256 ^ k.key_length

-- Four bytes that stand for a curve.
record CurveId (name : Text) : Type 0 where
  b0 : ℕ
  b1 : ℕ
  b2 : ℕ
  b3 : ℕ
  written : curve_bytes name ≡ some (b0 ∷ b1 ∷ b2 ∷ b3 ∷ [])
  read : curve_of_id (from_le (b0 ∷ b1 ∷ b2 ∷ b3 ∷ [])) ≡ some name

curve_id : (name : Text) → IsCurve name → CurveId name
unfolding curve_bytes curve_of_id from_le
curve_id name (inl e) =
    rw e (record { b0 = 0x45; b1 = 0x43; b2 = 0x4b; b3 = 0x31; written = refl; read = refl })
curve_id name (inr (inl e)) =
    rw e (record { b0 = 0x45; b1 = 0x43; b2 = 0x4b; b3 = 0x33; written = refl; read = refl })
curve_id name (inr (inr e)) =
    rw e (record { b0 = 0x45; b1 = 0x43; b2 = 0x4b; b3 = 0x35; written = refl; read = refl })

-- An ECDH key of one of the curves P256, P384 and P521 whose coordinates fit its key length,
-- which fits 32 bits, is packed without an error, and unpack returns it unchanged.
pub unpack-pack_ecdh : (k : EcdhKey) → FitsEcdh k → (pack_ecdh k >>= unpack_ecdh) ≡ ok k
unfolding pack_ecdh unpack_ecdh
unpack-pack_ecdh k h =
    let n = k.key_length in
    let e : 8 + n - 8 ≡ n = omega arith in
    let c = curve_id k.curve_name h.curve_name in
    rw (
      to_bytes_be-ok n k.x h.x,
      to_bytes_be-ok n k.y h.y,
      c.written,
      to_bytes-ok 4 n h.key_length,
      c.read,
      from_le-le_bytes 4 n h.key_length,
      drop-add 8 n,
      e,
      take-be_bytes n k.x,
      drop-be_bytes n k.x,
      take-be_bytes n k.y [],
      from_be-be_bytes n k.x h.x,
      from_be-be_bytes n k.y h.y,
    )
