-- ===== src/Bytes/RoundTrip.antt =====
-- int.to_bytes and int.from_bytes of the standard library together.
use native.Mathlib.Nat.{pow-suc}
use mathlib.Core.List.{reverse-reverse, reverse-cons}
use dpapi_ng.Base.{
  ℕ, zero, suc, ◌-◌, ◌*◌, ◌/◌, ◌%◌, ◌^◌, ◌<◌, ◌≤◌, ◌≡◌, refl, ap, arith, List, [], ◌∷◌, ◌++◌,
  reverse, length, take, drop, take-append, drop-append, length-append, ok, err, overflow_error, ℤ,
  pos, negsuc, lt→ltb, ge→ltb, All,
}
use dpapi_ng.Bytes.{
  Bytes, le_bytes, from_le, from_be, to_bytes, to_bytes_be, to_bytes_signed, from_le_signed,
}

abbrev pub IsByte : ℕ → Type 0
IsByte b = b < 256

pub from_le-le_bytes : (width v : ℕ) → v < 256 ^ width → from_le (le_bytes width v) ≡ v
unfolding from_le
from_le-le_bytes zero v h = omega arith
from_le-le_bytes (suc width) v h =
    omega (
      arith,
      pow-suc 256 width,
      from_le-le_bytes width (v / 256) (omega (arith, pow-suc 256 width)),
    )

pub length-le_bytes : (width v : ℕ) → length (le_bytes width v) ≡ width
length-le_bytes zero v = refl
length-le_bytes (suc width) v = omega (arith, length-le_bytes width (v / 256))

pub length-reverse : (xs : List ℕ) → length (reverse xs) ≡ length xs
length-reverse [] = refl
length-reverse (x ∷ xs) = rw (reverse-cons, length-append) (omega (arith, length-reverse xs))

pub from_be-be_bytes : (width v : ℕ) → v < 256 ^ width → from_be (reverse (le_bytes width v)) ≡ v
unfolding from_be
from_be-be_bytes width v h = rw reverse-reverse (from_le-le_bytes width v h)

-- A number that fits is written in exactly `width` bytes.
pub to_bytes-ok : (width v : ℕ) → v < 256 ^ width → to_bytes width v ≡ ok (le_bytes width v)
unfolding to_bytes
to_bytes-ok width v h = rw (lt→ltb _ _ h)

pub to_bytes-overflow : (width v : ℕ) → 256 ^ width ≤ v → to_bytes width v ≡ err overflow_error
unfolding to_bytes
to_bytes-overflow width v h = rw (ge→ltb _ _ h)

pub to_bytes_be-ok :
    (width v : ℕ) → v < 256 ^ width → to_bytes_be width v ≡ ok (reverse (le_bytes width v))
unfolding to_bytes_be
to_bytes_be-ok width v h = rw (lt→ltb _ _ h)

-- Whatever to_bytes writes is read back.
pub from_le-to_bytes : (width v : ℕ) {bs : Bytes} → to_bytes width v ≡ ok bs → from_le bs ≡ v
unfolding to_bytes
from_le-to_bytes width v h = ground (arith, from_le-le_bytes width v)

pub le_bytes-IsByte : (width v : ℕ) → All IsByte (le_bytes width v)
le_bytes-IsByte zero v = tt
le_bytes-IsByte (suc width) v = (omega arith, le_bytes-IsByte width (v / 256))

abbrev pub InRange32 : ℤ → Type 0
InRange32 (pos n) = n < 2 ^ 31
InRange32 (negsuc n) = n < 2 ^ 31

-- The four bytes of a signed integer in range.
abbrev pub signed_bytes32 : ℤ → Bytes
signed_bytes32 (pos n) = le_bytes 4 n
signed_bytes32 (negsuc n) = le_bytes 4 (256 ^ 4 - 1 - n)

pub to_bytes_signed-ok : (z : ℤ) → InRange32 z → to_bytes_signed 4 z ≡ ok (signed_bytes32 z)
unfolding to_bytes_signed
to_bytes_signed-ok (pos n) h = rw (lt→ltb (2 * n) (256 ^ 4) (omega arith))
to_bytes_signed-ok (negsuc n) h = rw (lt→ltb (2 * n) (256 ^ 4) (omega arith))

pub from_le_signed-signed_bytes32 : (z : ℤ) → InRange32 z → from_le_signed 4 (signed_bytes32 z) ≡ z
unfolding from_le_signed
from_le_signed-signed_bytes32 (pos n) h =
    rw (from_le-le_bytes 4 n (omega arith), lt→ltb (2 * n) (256 ^ 4) (omega arith))
from_le_signed-signed_bytes32 (negsuc n) h =
    rw
      (
        from_le-le_bytes 4 (256 ^ 4 - 1 - n) (omega arith),
        ge→ltb (2 * (256 ^ 4 - 1 - n)) (256 ^ 4) (omega arith),
      )
      (ap negsuc (omega arith))

-- A big-endian field at the head of a sequence.
pub length-be_bytes : (width v : ℕ) → length (reverse (le_bytes width v)) ≡ width
length-be_bytes width v = rw (length-reverse (le_bytes width v), length-le_bytes width v)

pub take-be_bytes :
    (width v : ℕ) (rest : Bytes)
    → take width (reverse (le_bytes width v) ++ rest) ≡ reverse (le_bytes width v)
take-be_bytes width v rest =
    rw (length-be_bytes width v) at (take-append (reverse (le_bytes width v)) rest)

pub drop-be_bytes :
    (width v : ℕ) (rest : Bytes) → drop width (reverse (le_bytes width v) ++ rest) ≡ rest
drop-be_bytes width v rest =
    rw (length-be_bytes width v) at (drop-append (reverse (le_bytes width v)) rest)

-- One byte.
pub to_bytes-byte : (v : ℕ) → v < 256 → to_bytes 1 v ≡ ok (v ∷ [])
to_bytes-byte v h =
    let e : v % 256 ≡ v = omega arith in
    let f : v < 256 ^ 1 = omega arith in rw (to_bytes-ok 1 v f, e)
