-- ===== src/Asn1/Integer/Carry.antt =====
-- _read_asn1_integer of src/dpapi_ng/_asn1.py on a negative integer with two zero octets at its end.
use mathlib.Core.List.{reverse-append, map-append}
use dpapi_ng.Base.{
  ℕ, ◌-◌, ◌/◌, ◌%◌, ◌<◌, ◌≤◌, ◌≡◌, refl, arith, false, ◌==◌, [], ◌∷◌, ◌++◌, map, length, none, err,
  value_error,
}
use dpapi_ng.Bytes.{Bytes}
use dpapi_ng.Asn1.Header.LengthOctets.{FitsLength}
use dpapi_ng.Asn1.Tag.{universal_tag, integer}
use dpapi_ng.Asn1.Validate.{tlv, validate_tag-tlv}
use dpapi_ng.Asn1.Integer.{add_one, integer_of, read_integer}
use dpapi_ng.Asn1.Integer.RoundTrip.{integer-IsTag}

integer_of-carry :
    (b : ℕ) (bs : Bytes)
    → 128 ≤ b
    → b < 256
    → integer_of ((b ∷ bs) ++ (0 ∷ 0 ∷ [])) ≡ err value_error
unfolding integer_of add_one
integer_of-carry b bs h k =
    let high : (b / 128 % 2 == 0) ≡ false = ground arith in
    rw (
      high,
      map-append (λ octet. 255 - octet) (b ∷ bs) (0 ∷ 0 ∷ []),
      reverse-append (map (λ octet. 255 - octet) (b ∷ bs)) (255 ∷ 255 ∷ []),
    )

-- An INTEGER shorter than 2 ^ 64 whose first octet has the sign bit and whose last two octets are
-- zero, a negative multiple of 65536, is a ValueError of _read_asn1_integer, whatever follows it.
pub read_integer-carry :
    (b : ℕ) (bs rest : Bytes)
    → 128 ≤ b
    → b < 256
    → FitsLength (length ((b ∷ bs) ++ (0 ∷ 0 ∷ [])))
    → read_integer (tlv (universal_tag integer false) ((b ∷ bs) ++ (0 ∷ 0 ∷ [])) ++ rest) none none
      ≡ err value_error
unfolding read_integer
read_integer-carry b bs rest h k fits = rw (
  validate_tag-tlv (universal_tag integer false) ((b ∷ bs) ++ (0 ∷ 0 ∷ [])) rest none _ none
      integer-IsTag fits tt refl,
  integer_of-carry b bs h k,
)
