-- ===== src/Asn1/OctetNumber/RoundTrip.antt =====
-- _pack_asn1_octet_number of src/dpapi_ng/_asn1.py followed by _unpack_asn1_octet_number.
use mathlib.Core.List.{reverse-append, reverse-cons, reverse-reverse}
use dpapi_ng.Base.{
  ℕ, zero, suc, ◌+◌, ◌*◌, ◌/◌, ◌%◌, ◌<◌, ◌≡◌, refl, arith, true, false, Bool-cases, inl, inr, ◌==◌,
  [], ◌∷◌, ◌++◌, append-nil, append_assoc, reverse, length, length-append, if◌then◌else◌, ok,
}
use dpapi_ng.Bytes.{Bytes}
use dpapi_ng.Asn1.OctetNumber.{pack_loop, pack_octet_number, unpack_from, unpack_octet_number}

-- The octets in front of the last one: all have the MSB set.
unfoldable pub high_octets : ℕ → ℕ → Bytes
high_octets zero n = []
high_octets (suc fuel) n =
    let rest = high_octets fuel (n / 128) in if n == 0 then [] else rest ++ ((n % 128 + 128) ∷ [])

loop-high :
    (fuel n o : ℕ) (os : Bytes)
    → n < fuel
    → pack_loop fuel n (o ∷ os) ≡ ok ((o ∷ os) ++ reverse (high_octets fuel n))
unfolding pack_loop high_octets
loop-high zero n o os h = absurd (omega arith)
loop-high (suc fuel) n o os h = elim (Bool-cases (n == 0)) [
  | inl done ↦ rw (done, append-nil)
  | inr more ↦
      let x = n % 128 + 128 in
      rw (
        more,
        loop-high fuel (n / 128) o (os ++ (x ∷ [])) (ground arith),
        append_assoc os (x ∷ []) (reverse (high_octets fuel (n / 128))),
        reverse-append (high_octets fuel (n / 128)) (x ∷ []),
      )
]

read-step :
    (n idx : ℕ) (rest : Bytes)
    → unpack_from (n / 128) idx ((n % 128 + 128) ∷ rest) ≡ unpack_from n (idx + 1) rest
unfolding unpack_from
read-step n idx rest =
    let more : ((n % 128 + 128) / 128 % 2 == 0) ≡ false = ground arith in
    let value : n / 128 * 128 + (n % 128 + 128) % 128 ≡ n = omega arith in
    let next : idx + 1 ≡ suc idx = omega arith in rw (more, value, next)

read-last :
    (n idx : ℕ) (rest : Bytes) → unpack_from (n / 128) idx ((n % 128) ∷ rest) ≡ ok (n, idx + 1)
unfolding unpack_from
read-last n idx rest =
    let done : (n % 128 / 128 % 2 == 0) ≡ true = ground arith in
    let value : n / 128 * 128 + n % 128 % 128 ≡ n = omega arith in
    let next : idx + 1 ≡ suc idx = omega arith in rw (done, value, next)

read-high :
    (fuel n : ℕ) (rest : Bytes)
    → n < fuel
    → unpack_from 0 0 (high_octets fuel n ++ rest)
      ≡ unpack_from n (length (high_octets fuel n)) rest
unfolding unpack_from high_octets
read-high zero n rest h = absurd (omega arith)
read-high (suc fuel) n rest h = elim (Bool-cases (n == 0)) [
  | inl done ↦ let e : n ≡ 0 = ground arith in rw e
  | inr more ↦
      let x = n % 128 + 128 in
      let high = high_octets fuel (n / 128) in
      rw
        (
          more,
          append_assoc high (x ∷ []) rest,
          read-high fuel (n / 128) (x ∷ rest) (ground arith),
          length-append high (x ∷ []),
        )
        (read-step n (length high) rest)
]

pack-high : (n : ℕ) → 0 < n → pack_octet_number n ≡ ok (high_octets n (n / 128) ++ ((n % 128) ∷ []))
unfolding pack_octet_number pack_loop
pack-high zero h = absurd (omega arith)
pack-high (suc n) h =
    let high = high_octets (suc n) (suc n / 128) in
    let more : (suc n == 0) ≡ false = ground arith in
    rw (
      more,
      loop-high (suc n) (suc n / 128) (suc n % 128) [] (omega arith),
      reverse-cons (suc n % 128) (reverse high),
      reverse-reverse high,
    )

-- For a number above 0, whatever follows its octets: _pack_asn1_octet_number ends with octets
-- that _unpack_asn1_octet_number reads as that number, and it reports how many they are.
pub unpack-pack_octet_number :
    (n : ℕ) (rest : Bytes)
    → 0 < n
    → (octets : Bytes) × (pack_octet_number n ≡ ok octets)
      × (unpack_octet_number (octets ++ rest) ≡ ok (n, length octets))
unfolding unpack_octet_number
unpack-pack_octet_number n rest h =
    let high = high_octets n (n / 128) in
    (
      high ++ ((n % 128) ∷ []),
      pack-high n h,
      rw
          (
            append_assoc high ((n % 128) ∷ []) rest,
            read-high n (n / 128) ((n % 128) ∷ rest) (omega arith),
            length-append high ((n % 128) ∷ []),
          )
          (read-last n (length high) rest),
    )

-- The octets of a number, which may be 0.
unfoldable pub arc_bytes : ℕ → Bytes
arc_bytes n = high_octets (suc n) (n / 128) ++ ((n % 128) ∷ [])

pub arc_bytes-eq : (n : ℕ) → arc_bytes n ≡ high_octets (suc n) (n / 128) ++ ((n % 128) ∷ [])
unfolding arc_bytes
arc_bytes-eq n = refl

pub length-arc_bytes : (n : ℕ) → 0 < length (arc_bytes n)
unfolding arc_bytes
length-arc_bytes n = omega (arith, length-append (high_octets (suc n) (n / 128)) ((n % 128) ∷ []))

pub unpack-arc_bytes :
    (n : ℕ) (rest : Bytes)
    → unpack_octet_number (arc_bytes n ++ rest) ≡ ok (n, length (arc_bytes n))
unfolding unpack_octet_number arc_bytes
unpack-arc_bytes n rest =
    let high = high_octets (suc n) (n / 128) in
    rw
      (
        append_assoc high ((n % 128) ∷ []) rest,
        read-high (suc n) (n / 128) ((n % 128) ∷ rest) (omega arith),
        length-append high ((n % 128) ∷ []),
      )
      (read-last n (length high) rest)
