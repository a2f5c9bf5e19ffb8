-- ===== src/Asn1/Integer/RoundTrip.antt =====
-- _pack_asn1_integer of src/dpapi_ng/_asn1.py followed by _read_asn1_integer.
use native.Mathlib.Nat.{pow-suc, pow-zero, mul_assoc, add-mul, mul_right_comm}
use dpapi_ng.Base.{
  ℕ, zero, suc, ◌+◌, ◌*◌, ◌/◌, ◌%◌, ◌^◌, ◌<◌, ◌≤◌, ◌≡◌, refl, ap, ◌∙◌, arith, true, false, inl, inr,
  Bool-cases, ltb, ◌==◌, [], ◌∷◌, ◌++◌, append_assoc, reverse, length, if◌then◌else◌, pos, ok, none,
}
use dpapi_ng.Bytes.{Bytes, le_bytes, from_le, from_be}
use dpapi_ng.Bytes.RoundTrip.{length-be_bytes, from_be-be_bytes}
use dpapi_ng.Asn1.Header.LengthOctets.{from_be-cons}
use dpapi_ng.Asn1.Integer.{
  integer_loop, integer_octets, value_from, integer_of, pack_integer, read_integer,
}
use dpapi_ng.Asn1.Header.LengthOctets.{FitsLength}
use dpapi_ng.Asn1.Header.RoundTrip.{IsTag}
use dpapi_ng.Asn1.Tag.{universal_tag, integer}
use dpapi_ng.Asn1.Validate.{tlv, validate_tag-tlv, pack_asn1-tlv}

-- The rounds of the loop for a number that is not negative, and the octet behind them.
unfoldable pub more_octets : ℕ → ℕ → ℕ
more_octets zero n = 0
more_octets (suc fuel) n =
    let more = suc (more_octets fuel (n / 256)) in if ltb 127 n then more else 0

loop-le_bytes :
    (fuel n : ℕ) (octets : Bytes)
    → n < fuel
    → integer_loop false 127 fuel n octets ≡ ok (octets ++ le_bytes (suc (more_octets fuel n)) n)
unfolding integer_loop more_octets
loop-le_bytes zero n octets h = absurd (omega arith)
loop-le_bytes (suc fuel) n octets h = elim (Bool-cases (ltb 127 n)) [
  | inl more ↦ rw (
    more,
    loop-le_bytes fuel (n / 256) (octets ++ (n % 256 ∷ [])) (ground arith),
    append_assoc octets (n % 256 ∷ []),
  )
  | inr last ↦ rw last
]

-- The highest octet is below 128.
more_octets-fits : (fuel n : ℕ) → n < fuel → n < 128 * 256 ^ more_octets fuel n
unfolding more_octets
more_octets-fits zero n h = absurd (omega arith)
more_octets-fits (suc fuel) n h = elim (Bool-cases (ltb 127 n)) [
  | inl more ↦
      let ih = more_octets-fits fuel (n / 256) (ground arith) in
      rw (more, pow-suc 256 (more_octets fuel (n / 256))) (omega arith)
  | inr last ↦ let le : n ≤ 127 = ground arith in rw last (omega arith)
]

pub value_from-from_be :
    (bs : Bytes) (acc : ℕ) → value_from acc bs ≡ acc * 256 ^ length bs + from_be bs
unfolding value_from
value_from-from_be [] acc = unfold from_be from_le in rw (pow-zero 256) (omega arith)
value_from-from_be (b ∷ bs) acc =
    rw (value_from-from_be bs (acc * 256 + b), from_be-cons b bs, pow-suc 256 (length bs))
      (rw
        (
          add-mul (acc * 256) b (256 ^ length bs),
          mul_right_comm acc 256 (256 ^ length bs),
          ← mul_assoc acc (256 ^ length bs) 256,
        )
        (omega arith))

abbrev digits_of : ℕ → Bytes
digits_of n = le_bytes (suc (more_octets (suc n) n)) n

-- The content octets of a number that is not negative.
unfoldable pub octets_of : ℕ → Bytes
octets_of n = reverse (digits_of n)

pub integer_octets-pos : (n : ℕ) → integer_octets (pos n) ≡ ok (octets_of n)
unfolding integer_octets octets_of
integer_octets-pos n = rw (loop-le_bytes (suc n) n [] (omega arith))

-- The first octet of a sequence whose value is below half of its range.
low_head : (b : ℕ) (bs : Bytes) (k : ℕ) → length bs ≡ k → from_be (b ∷ bs) < 128 * 256 ^ k → b < 128
low_head b bs k e h =
    let e' : b * 256 ^ k + from_be bs < 128 * 256 ^ k = rw (from_be-cons b bs, e) at h in
    grind arith

integer_of-low :
    (bs : Bytes) (k : ℕ)
    → length bs ≡ suc k
    → from_be bs < 128 * 256 ^ k
    → integer_of bs ≡ ok (pos (from_be bs))
unfolding integer_of
integer_of-low [] k e h = absurd (omega arith)
integer_of-low (b ∷ bs) k e h =
    let low = low_head b bs k (omega arith) h in
    let plain : (b / 128 % 2 == 0) ≡ true = ground arith in
    let z : value_from 0 (b ∷ bs) ≡ from_be (b ∷ bs) =
      value_from-from_be (b ∷ bs) 0 ∙ omega arith in
    rw (plain, z)

abbrev rounds : ℕ → ℕ
rounds n = more_octets (suc n) n

digits_fit : (n : ℕ) → n < 256 ^ suc (rounds n)
digits_fit n = rw (pow-suc 256 (rounds n)) (omega (arith, more_octets-fits (suc n) n (omega arith)))

-- What is written for a number is read back.
pub integer_of-octets_of : (n : ℕ) → integer_of (octets_of n) ≡ ok (pos n)
unfolding octets_of
integer_of-octets_of n =
    let value = from_be-be_bytes (suc (rounds n)) n (digits_fit n) in
    integer_of-low (reverse (digits_of n)) (rounds n) (length-be_bytes (suc (rounds n)) n)
      (rw value (more_octets-fits (suc n) n (omega arith)))
    ∙ ap (λ (t : ℕ). ok (pos t)) value

more_octets-le : (fuel n w : ℕ) → n < 256 ^ w → more_octets fuel n ≤ w
unfolding more_octets
more_octets-le zero n w h = omega arith
more_octets-le (suc fuel) n zero h =
    let e : n ≡ 0 = omega (arith, pow-zero 256) in rw e (omega arith)
more_octets-le (suc fuel) n (suc w) h = elim (Bool-cases (ltb 127 n)) [
  | inl more ↦
      let ih = more_octets-le fuel (n / 256) w (omega (arith, pow-suc 256 w)) in
      rw more (omega arith)
  | inr last ↦ rw last (omega arith)
]

pub length-octets_of : (n w : ℕ) → n < 256 ^ w → length (octets_of n) ≤ suc w
unfolding octets_of
length-octets_of n w h =
    rw (length-be_bytes (suc (rounds n)) n) (omega (arith, more_octets-le (suc n) n w h))

-- The encoding of a number that is not negative.
unfoldable pub integer_tlv : ℕ → Bytes
integer_tlv n = tlv (universal_tag integer false) (octets_of n)

pub integer-IsTag : IsTag (universal_tag integer false)
integer-IsTag = record { tag_class = omega arith; known = refl }

pub pack_integer-tlv : (n : ℕ) → pack_integer (pos n) none ≡ ok (integer_tlv n)
unfolding pack_integer integer_tlv
pack_integer-tlv n =
    rw (
      integer_octets-pos n,
      pack_asn1-tlv (universal_tag integer false) (octets_of n) (omega arith),
    )

pub read_integer-tlv :
    (n w : ℕ) (rest : Bytes)
    → n < 256 ^ w
    → FitsLength (suc w)
    → read_integer (integer_tlv n ++ rest) none none ≡ ok (pos n, length (integer_tlv n))
unfolding read_integer integer_tlv
read_integer-tlv n w rest h fits =
    let fits' : FitsLength (length (octets_of n)) = omega (arith, length-octets_of n w h) in
    rw (
      validate_tag-tlv (universal_tag integer false) (octets_of n) rest none _ none integer-IsTag
          fits' tt refl,
      integer_of-octets_of n,
    )

-- For a number that is not negative and below 256 ^ w, with w + 1 below 2 ^ 64, and whatever
-- follows: _pack_asn1_integer succeeds, and _read_asn1_integer returns the number and the number
-- of octets that were packed.
pub read_integer-pack_integer :
    (n w : ℕ) (rest : Bytes)
    → n < 256 ^ w
    → FitsLength (suc w)
    → (packed : Bytes) × (pack_integer (pos n) none ≡ ok packed)
      × (read_integer (packed ++ rest) none none ≡ ok (pos n, length packed))
read_integer-pack_integer n w rest h fits =
    (integer_tlv n, pack_integer-tlv n, read_integer-tlv n w rest h fits)
