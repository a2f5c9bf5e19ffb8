-- ===== src/Asn1/Header/LengthOctets.antt =====
-- The length octets that _pack_asn1 of src/dpapi_ng/_asn1.py writes and _read_asn1_header reads.
use native.Mathlib.Nat.{pow-suc, pow-zero, mul_assoc}
use mathlib.Core.List.{reverse-cons}
use dpapi_ng.Base.{
  ℕ, zero, suc, ◌+◌, ◌*◌, ◌/◌, ◌%◌, ◌^◌, ◌<◌, ◌≤◌, ◌≡◌, ap, ◌∙◌, arith, true, false, inl, inr,
  Bool-cases, ltb, ◌==◌, [], ◌∷◌, ◌++◌, append_assoc, append-nil, reverse, length, if◌then◌else◌,
  ok,
}
use dpapi_ng.Bytes.{Bytes, le_bytes, from_le, from_be}
use dpapi_ng.Bytes.RoundTrip.{length-le_bytes, length-be_bytes, length-reverse, from_be-be_bytes}
use dpapi_ng.Asn1.Header.{length_loop, pack_length, read_length_octets, read_length}

-- The number of rounds of the loop.
unfoldable pub octet_count : ℕ → ℕ → ℕ
octet_count zero n = 0
octet_count (suc fuel) n = let more = suc (octet_count fuel (n / 256)) in if n == 0 then 0 else more

length_loop-le_bytes :
    (fuel n : ℕ) (octets : Bytes)
    → n < fuel
    → length_loop fuel n octets ≡ ok (octets ++ le_bytes (octet_count fuel n) n)
unfolding length_loop octet_count
length_loop-le_bytes zero n octets h = absurd (omega arith)
length_loop-le_bytes (suc fuel) n octets h = elim (Bool-cases (n == 0)) [
  | inl done ↦ rw (done, append-nil)
  | inr more ↦ rw (
    more,
    length_loop-le_bytes fuel (n / 256) (octets ++ (n % 256 ∷ [])) (ground arith),
    append_assoc octets (n % 256 ∷ []),
  )
]

octet_count-fits : (fuel n : ℕ) → n < fuel → n < 256 ^ octet_count fuel n
unfolding octet_count
octet_count-fits zero n h = absurd (omega arith)
octet_count-fits (suc fuel) n h = elim (Bool-cases (n == 0)) [
  | inl done ↦ let e : n ≡ 0 = ground arith in rw (done, e, pow-zero 256) (omega arith)
  | inr more ↦
      let ih = octet_count-fits fuel (n / 256) (ground arith) in
      rw (more, pow-suc 256 (octet_count fuel (n / 256))) (omega arith)
]

octet_count-le : (fuel n w : ℕ) → n < 256 ^ w → octet_count fuel n ≤ w
unfolding octet_count
octet_count-le zero n w h = omega arith
octet_count-le (suc fuel) n zero h =
    let e : n ≡ 0 = omega (arith, pow-zero 256) in rw e (omega arith)
octet_count-le (suc fuel) n (suc w) h = elim (Bool-cases (n == 0)) [
  | inl done ↦ rw done (omega arith)
  | inr more ↦
      let ih = octet_count-le fuel (n / 256) w (omega (arith, pow-suc 256 w)) in
      rw more (omega arith)
]

from_le-snoc : (xs : Bytes) (d : ℕ) → from_le (xs ++ (d ∷ [])) ≡ from_le xs + d * 256 ^ length xs
unfolding from_le
from_le-snoc [] d = rw (pow-zero 256) (omega arith)
from_le-snoc (x ∷ xs) d =
    rw (from_le-snoc xs d, pow-suc 256 (length xs), ← mul_assoc d (256 ^ length xs) 256)
      (omega arith)

pub from_be-cons : (d : ℕ) (ds : Bytes) → from_be (d ∷ ds) ≡ d * 256 ^ length ds + from_be ds
unfolding from_be
from_be-cons d ds = rw (reverse-cons, from_le-snoc (reverse ds) d, length-reverse ds) (omega arith)

read_length_octets-append :
    (ds rest : Bytes) (acc : ℕ)
    → read_length_octets (length ds) (ds ++ rest) acc ≡ ok (acc + from_be ds)
unfolding read_length_octets
read_length_octets-append [] rest acc = unfold from_be from_le in ap ok (omega arith)
read_length_octets-append (d ∷ ds) rest acc =
    read_length_octets-append ds rest (acc + d * 256 ^ length ds)
    ∙ ap ok (omega (arith, from_be-cons d ds))

-- The length octets.
abbrev count_of : ℕ → ℕ
count_of n = octet_count (suc n) n

unfoldable pub length_bytes : ℕ → Bytes
length_bytes n =
    if ltb n 128 then n ∷ [] else (count_of n + 128) ∷ reverse (le_bytes (count_of n) n)

pub pack_length-ok : (n : ℕ) → pack_length n ≡ ok (length_bytes n)
unfolding pack_length length_bytes
pack_length-ok n = elim (Bool-cases (ltb n 128)) [
  | inl short ↦ rw short
  | inr long ↦
      rw (long, length_loop-le_bytes (suc n) n [] (omega arith), length-le_bytes (count_of n) n)
]

abbrev pub FitsLength : ℕ → Type 0
FitsLength n = n < 256 ^ 8

pub length-length_bytes : (n : ℕ) → FitsLength n → length (length_bytes n) ≤ 9
unfolding length_bytes
length-length_bytes n h = elim (Bool-cases (ltb n 128)) [
  | inl short ↦ rw short (omega arith)
  | inr long ↦
      rw (long, length-be_bytes (count_of n) n) (omega (arith, octet_count-le (suc n) n 8 h))
]

octet_count-pos : (fuel n : ℕ) → 0 < n → 0 < octet_count (suc fuel) n
unfolding octet_count
octet_count-pos fuel n h = let more : (n == 0) ≡ false = ground arith in rw more (omega arith)

read_short : (n : ℕ) (rest : Bytes) → n < 128 → read_length (n ∷ rest) ≡ ok (n, 1)
unfolding read_length
read_short n rest h =
    let a : (n == 128) ≡ false = ground arith in
    let b : (n / 128 % 2 == 0) ≡ true = ground arith in rw (a, b)

read_long :
    (count : ℕ) (ds rest : Bytes)
    → 0 < count
    → count < 128
    → length ds ≡ count
    → read_length (((count + 128) ∷ ds) ++ rest) ≡ ok (from_be ds, 1 + count)
unfolding read_length
read_long count ds rest h k e =
    let a : (count + 128 == 128) ≡ false = ground arith in
    let b : ((count + 128) / 128 % 2 == 0) ≡ false = ground arith in
    let c : (count + 128) % 128 ≡ length ds = omega arith in
    let z : 0 + from_be ds ≡ from_be ds = omega arith in
    rw (a, b, c, read_length_octets-append ds rest 0, z, e)

pub read_length-length_bytes :
    (n : ℕ) (rest : Bytes)
    → FitsLength n
    → read_length (length_bytes n ++ rest) ≡ ok (n, length (length_bytes n))
unfolding length_bytes
read_length-length_bytes n rest h = elim (Bool-cases (ltb n 128)) [
  | inl short ↦ rw short (read_short n rest (ground arith))
  | inr long ↦
      let ds = reverse (le_bytes (count_of n) n) in
      let le = octet_count-le (suc n) n 8 h in
      let fits = octet_count-fits (suc n) n (omega arith) in
      let some_octet : 0 < count_of n = octet_count-pos n n (ground arith) in
      rw
        (
          long,
          read_long (count_of n) ds rest some_octet (omega arith) (length-be_bytes (count_of n) n),
          from_be-be_bytes (count_of n) n fits,
          length-be_bytes (count_of n) n,
        )
        (ap (λ (t : ℕ). ok (n, t)) (omega arith))
]
