-- ===== src/Bytes.antt =====
-- Byte strings: int.to_bytes and int.from_bytes of the standard library, slices of a known layout,
-- and uuid.UUID.
pub mod RoundTrip
pub mod Uuid
pub mod Text
pub mod Names
pub mod Utf8
use dpapi_ng.Base.{
  ℕ, zero, suc, ◌+◌, ◌-◌, ◌*◌, ◌/◌, ◌%◌, ◌^◌, ◌<◌, List, [], ◌∷◌, ◌++◌, reverse, ltb, if◌then◌else◌,
  Result, ok, err, overflow_error, ℤ, pos, negsuc,
}

abbrev pub Bytes : Type 0
Bytes = List ℕ

-- b"".join(parts)
abbrev pub join : List Bytes → Bytes
join [] = []
join (part ∷ parts) = part ++ join parts

-- The lowest `width` bytes of a number, lowest first.
abbrev pub le_bytes : ℕ → ℕ → Bytes
le_bytes zero v = []
le_bytes (suc width) v = v % 256 ∷ le_bytes width (v / 256)

-- int.from_bytes(bs, byteorder="little")
unfoldable pub from_le : Bytes → ℕ
from_le [] = 0
from_le (b ∷ bs) = b + 256 * from_le bs

-- int.from_bytes(bs, byteorder="big")
unfoldable pub from_be : Bytes → ℕ
from_be bs = from_le (reverse bs)

-- v.to_bytes(width, byteorder="little") of a number that is not negative
unfoldable pub to_bytes : ℕ → ℕ → Result Bytes
to_bytes width v = if ltb v (256 ^ width) then ok (le_bytes width v) else err overflow_error

-- v.to_bytes(width, byteorder="big")
unfoldable pub to_bytes_be : ℕ → ℕ → Result Bytes
to_bytes_be width v =
    if ltb v (256 ^ width) then ok (reverse (le_bytes width v)) else err overflow_error

-- v.to_bytes(width, byteorder="little", signed=True): two's complement
unfoldable pub to_bytes_signed : ℕ → ℤ → Result Bytes
to_bytes_signed width (pos n) =
    if ltb (2 * n) (256 ^ width) then ok (le_bytes width n) else err overflow_error
to_bytes_signed width (negsuc n) =
    if ltb (2 * n) (256 ^ width)
    then ok (le_bytes width (256 ^ width - 1 - n))
    else err overflow_error

-- int.from_bytes(bs, byteorder="little", signed=True) of `width` bytes
unfoldable pub from_le_signed : ℕ → Bytes → ℤ
from_le_signed width bs =
    let v = from_le bs in if ltb (2 * v) (256 ^ width) then pos v else negsuc (256 ^ width - 1 - v)
