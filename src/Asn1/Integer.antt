-- ===== src/Asn1/Integer.antt =====
-- _pack_asn1_integer and _read_asn1_integer of src/dpapi_ng/_asn1.py: two's complement, high octet
-- first.
pub mod RoundTrip
pub mod Carry
use dpapi_ng.Base.{
  ℕ, zero, suc, ◌+◌, ◌-◌, ◌*◌, ◌/◌, ◌%◌, Bool, true, false, ◌&&◌, ltb, ◌==◌, Option, none, some,
  List, [], ◌∷◌, ◌++◌, map, reverse, if◌then◌else◌, ℤ, pos, negsuc, Result, ok, err, ◌>>=◌,
  value_error, index_error, out_of_fuel,
}
use dpapi_ng.Bytes.{Bytes}
use dpapi_ng.Asn1.Tag.{Asn1Tag, Asn1Header, universal_tag, integer, enumerated}
use dpapi_ng.Asn1.Header.{pack_asn1}
use dpapi_ng.Asn1.Validate.{validate_tag}

-- tag or a default
abbrev pub or_tag : Option Asn1Tag → Asn1Tag → Asn1Tag
or_tag (some tag) default = tag
or_tag none default = default

-- 0xFF - octet for a negative value
abbrev pub inverted : Bool → ℕ → ℕ
inverted is_negative octet = if is_negative then 255 - octet else octet

-- while value > limit, and the octet behind the loop: lowest octet first
unfoldable pub integer_loop : Bool → ℕ → ℕ → ℕ → Bytes → Result Bytes
integer_loop is_negative limit zero value b_int = err out_of_fuel
integer_loop is_negative limit (suc fuel) value b_int =
    let rest =
      integer_loop is_negative limit fuel (value / 256)
        (b_int ++ (inverted is_negative (value % 256) ∷ [])) in
    if ltb limit value then rest else ok (b_int ++ (inverted is_negative value % 256 ∷ []))

-- Adds one, lowest octet first; a carry out of the last octet is lost.
unfoldable pub increment : Bytes → Bytes
increment [] = []
increment (val ∷ b_int) = if ltb val 255 then (val + 1) ∷ b_int else 0 ∷ increment b_int

-- b_int[-1] == 0x7F
abbrev pub ends_7f : Bytes → Bool
ends_7f [] = false
ends_7f (b ∷ []) = b == 127
ends_7f (b ∷ c ∷ bs) = ends_7f (c ∷ bs)

-- The content octets of an integer
unfoldable pub integer_octets : ℤ → Result Bytes
integer_octets (pos n) = do b_int ← integer_loop false 127 (suc n) n []; ok (reverse b_int)
integer_octets (negsuc n) = do
  b_int ← integer_loop true 128 (suc (suc n)) (suc n) []
  let b_int' = increment b_int
  ok (reverse (if ends_7f b_int' then b_int' ++ (255 ∷ []) else b_int'))

unfoldable pub pack_integer : ℤ → Option Asn1Tag → Result Bytes
pack_integer value tag = do
  b_int ← integer_octets value
  pack_asn1 (or_tag tag (universal_tag integer false)) b_int

unfoldable pub pack_enumerated : ℤ → Option Asn1Tag → Result Bytes
pack_enumerated value tag = pack_integer value (some (or_tag tag (universal_tag enumerated false)))

-- b_int[i - 1] += 1: an octet is at most 255
abbrev bump : Bytes → Result Bytes
bump [] = err value_error
bump (b ∷ bs) = if b == 255 then err value_error else ok ((b + 1) ∷ bs)

-- The loop that adds one to the inverted octets, here lowest first: it ends in its first round.
unfoldable pub add_one : Bytes → Result Bytes
add_one [] = ok []
add_one (b ∷ bs) = if b == 255 then (do bs' ← bump bs; ok (0 ∷ bs')) else ok ((b + 1) ∷ bs)

-- int_value = (int_value << 8) | val
unfoldable pub value_from : ℕ → Bytes → ℕ
value_from int_value [] = int_value
value_from int_value (val ∷ b_int) = value_from (int_value * 256 + val) b_int

abbrev pub negative : ℕ → ℤ
negative zero = pos 0
negative (suc n) = negsuc n

unfoldable pub integer_of : Bytes → Result ℤ
integer_of [] = err index_error
integer_of (b ∷ b_int) = if b / 128 % 2 == 0 then ok (pos (value_from 0 (b ∷ b_int))) else do
  magnitude ← add_one (reverse (map (λ octet. 255 - octet) (b ∷ b_int)))
  ok (negative (value_from 0 (reverse magnitude)))

unfoldable pub read_integer : Bytes → Option Asn1Tag → Option Asn1Header → Result (ℤ × ℕ)
read_integer view tag header = do
  (raw_int, consumed) ← validate_tag view tag (universal_tag integer false) header
  int_value ← integer_of raw_int
  ok (int_value, consumed)

-- The tag of the header, where that is given, or the ENUMERATED tag
abbrev enumerated_tag : Option Asn1Header → Asn1Tag
enumerated_tag (some header) = header.tag
enumerated_tag none = universal_tag enumerated false

unfoldable pub read_enumerated : Bytes → Option Asn1Tag → Option Asn1Header → Result (ℤ × ℕ)
read_enumerated view tag header =
    read_integer view (some (or_tag tag (enumerated_tag header))) header
