-- ===== src/Asn1/Oid/RoundTrip.antt =====
-- _pack_asn1_object_identifier of src/dpapi_ng/_asn1.py followed by _read_asn1_object_identifier.
use mathlib.Core.List.{reverse-cons, reverse-append, reverse-reverse}
use dpapi_ng.Base.{
  ℕ, zero, suc, ◌+◌, ◌-◌, ◌*◌, ◌/◌, ◌%◌, ◌<◌, ◌≤◌, ◌≡◌, refl, ◌∙◌, arith, true, false, inl, inr,
  Bool-cases, ltb, ge→ltb, ◌==◌, List, [], ◌∷◌, ◌++◌, append_assoc, append-nil, reverse, length,
  length-append, drop, drop-append, ok, ◌>>=◌, none,
}
use dpapi_ng.Bytes.{Bytes}
use dpapi_ng.Asn1.OctetNumber.{unpack_octet_number}
use dpapi_ng.Asn1.OctetNumber.RoundTrip.{
  high_octets, arc_bytes, arc_bytes-eq, length-arc_bytes, unpack-arc_bytes,
}
use dpapi_ng.Asn1.Tag.{universal_tag, object_identifier}
use dpapi_ng.Asn1.Header.LengthOctets.{FitsLength}
use dpapi_ng.Asn1.Header.RoundTrip.{IsTag}
use dpapi_ng.Asn1.Validate.{tlv, validate_tag-tlv, pack_asn1-tlv}
use dpapi_ng.Asn1.Oid.{
  dotted, arc_loop, append_arcs, encode_arcs, encode_object_identifier, pack_object_identifier,
  read_arcs, arcs_of, read_object_identifier,
}
use dpapi_ng.Asn1.Oid.Digits.{parse_arcs-dotted}

-- The loop appends the higher octets, lowest first.
arc_loop-high :
    (fuel n : ℕ) (result : Bytes)
    → n < fuel
    → arc_loop fuel n result ≡ ok (result ++ reverse (high_octets fuel (n / 128)))
unfolding arc_loop high_octets
arc_loop-high zero n result h = absurd (omega arith)
arc_loop-high (suc fuel) n result h = elim (Bool-cases (ltb 127 n)) [
  | inl more ↦
      let x = n / 128 % 128 + 128 in
      let high : (n / 128 == 0) ≡ false = ground arith in
      rw (
        more,
        high,
        arc_loop-high fuel (n / 128) (result ++ (x ∷ [])) (ground arith),
        append_assoc result (x ∷ []) (reverse (high_octets fuel (n / 128 / 128))),
        reverse-append (high_octets fuel (n / 128 / 128)) (x ∷ []),
      )
  | inr last ↦ let low : (n / 128 == 0) ≡ true = ground arith in rw (last, low, append-nil)
]

abbrev pub arcs_bytes : List ℕ → Bytes
arcs_bytes [] = []
arcs_bytes (a ∷ arcs) = arc_bytes a ++ arcs_bytes arcs

arcs_bytes-snoc :
    (arcs : List ℕ) (a : ℕ) → arcs_bytes (arcs ++ (a ∷ [])) ≡ arcs_bytes arcs ++ arc_bytes a
arcs_bytes-snoc [] a = append-nil (arc_bytes a)
arcs_bytes-snoc (b ∷ arcs) a =
    rw (arcs_bytes-snoc arcs a, append_assoc (arc_bytes b) (arcs_bytes arcs) (arc_bytes a))

reverse-arc_bytes :
    (n : ℕ) → reverse (arc_bytes n) ≡ n % 128 ∷ reverse (high_octets (suc n) (n / 128))
reverse-arc_bytes n =
    rw (arc_bytes-eq n, reverse-append (high_octets (suc n) (n / 128)) (n % 128 ∷ []))

append_arcs-reverse :
    (arcs : List ℕ) (result : Bytes)
    → append_arcs arcs result ≡ ok (result ++ reverse (arcs_bytes (reverse arcs)))
unfolding append_arcs
append_arcs-reverse [] result = rw append-nil
append_arcs-reverse (a ∷ arcs) result = rw (
  arc_loop-high (suc a) a (result ++ (a % 128 ∷ [])) (omega arith),
  append_assoc result (a % 128 ∷ []) (reverse (high_octets (suc a) (a / 128))),
  append_arcs-reverse arcs (result ++ (a % 128 ∷ reverse (high_octets (suc a) (a / 128)))),
  reverse-cons a arcs,
  arcs_bytes-snoc (reverse arcs) a,
  reverse-append (arcs_bytes (reverse arcs)) (arc_bytes a),
  reverse-arc_bytes a,
  append_assoc result (a % 128 ∷ reverse (high_octets (suc a) (a / 128)))
      (reverse (arcs_bytes (reverse arcs))),
)

-- An identifier that the encoder takes and whose first two numbers share one octet.
pub record IsOid (a b : ℕ) : Type 0 where
  pub first : a ≤ 39
  pub second : b ≤ 39
  pub octet : 40 * a + b < 128

abbrev pub oid_octets : ℕ → ℕ → List ℕ → Bytes
oid_octets a b arcs = (40 * a + b) ∷ arcs_bytes arcs

first_octet : (n : ℕ) → n < 128 → arc_bytes n ≡ n ∷ []
first_octet n h =
    let low : n / 128 ≡ 0 = omega arith in
    let same : n % 128 ≡ n = omega arith in
    arc_bytes-eq n ∙ rw (low, same) (unfold high_octets in refl)

pub encode_arcs-ok :
    (a b : ℕ) (arcs : List ℕ) → IsOid a b → encode_arcs (a ∷ b ∷ arcs) ≡ ok (oid_octets a b arcs)
unfolding encode_arcs
encode_arcs-ok a b arcs h = rw (
  ge→ltb 39 a h.first,
  ge→ltb 39 b h.second,
  append_arcs-reverse (reverse ((40 * a + b) ∷ arcs)) [],
  reverse-reverse ((40 * a + b) ∷ arcs),
  reverse-reverse (arcs_bytes ((40 * a + b) ∷ arcs)),
  first_octet (40 * a + b) h.octet,
)

read_arcs-step :
    (fuel : ℕ) (xs : Bytes)
    → 0 < length xs
    → read_arcs (suc fuel) xs
      ≡ (unpack_octet_number xs >>= λ p. (read_arcs fuel (drop p.1 xs) >>= λ ids. ok (p.0 ∷ ids)))
unfolding read_arcs
read_arcs-step fuel [] h = absurd (omega arith)
read_arcs-step fuel (x ∷ xs) h = refl

read_arcs-arcs_bytes :
    (arcs : List ℕ) (fuel : ℕ)
    → length (arcs_bytes arcs) ≤ fuel
    → read_arcs fuel (arcs_bytes arcs) ≡ ok arcs
unfolding read_arcs
read_arcs-arcs_bytes [] fuel h = refl
read_arcs-arcs_bytes (a ∷ arcs) zero h =
    absurd (omega (arith, length-arc_bytes a, length-append (arc_bytes a) (arcs_bytes arcs)))
read_arcs-arcs_bytes (a ∷ arcs) (suc fuel) h =
    let long = length-arc_bytes a in
    let total = length-append (arc_bytes a) (arcs_bytes arcs) in
    rw (
      read_arcs-step fuel (arcs_bytes (a ∷ arcs)) (omega arith),
      unpack-arc_bytes a (arcs_bytes arcs),
      drop-append (arc_bytes a) (arcs_bytes arcs),
      read_arcs-arcs_bytes arcs fuel (omega arith),
    )

pub arcs_of-oid_octets :
    (a b : ℕ) (arcs : List ℕ) → IsOid a b → arcs_of (oid_octets a b arcs) ≡ ok (a ∷ b ∷ arcs)
unfolding arcs_of
arcs_of-oid_octets a b arcs h =
    let le = h.second in
    let s : (40 * a + b) % 40 ≡ b = omega arith in
    let f : (40 * a + b - b) / 40 ≡ a = omega arith in
    rw (s, f, read_arcs-arcs_bytes arcs (length (arcs_bytes arcs)) (omega arith))

unfoldable pub oid_tlv : ℕ → ℕ → List ℕ → Bytes
oid_tlv a b arcs = tlv (universal_tag object_identifier false) (oid_octets a b arcs)

pub oid-IsTag : IsTag (universal_tag object_identifier false)
oid-IsTag = record { tag_class = omega arith; known = refl }

pub pack_object_identifier-tlv :
    (a b : ℕ) (arcs : List ℕ)
    → IsOid a b
    → pack_object_identifier (dotted (a ∷ b ∷ arcs)) none ≡ ok (oid_tlv a b arcs)
unfolding pack_object_identifier encode_object_identifier oid_tlv
pack_object_identifier-tlv a b arcs h = rw (
  parse_arcs-dotted a (b ∷ arcs),
  encode_arcs-ok a b arcs h,
  pack_asn1-tlv (universal_tag object_identifier false) (oid_octets a b arcs) (omega arith),
)

pub read_object_identifier-tlv :
    (a b : ℕ) (arcs : List ℕ) (rest : Bytes)
    → IsOid a b
    → FitsLength (length (oid_octets a b arcs))
    → read_object_identifier (oid_tlv a b arcs ++ rest) none none
      ≡ ok (dotted (a ∷ b ∷ arcs), length (oid_tlv a b arcs))
unfolding read_object_identifier oid_tlv
read_object_identifier-tlv a b arcs rest h fits = rw (
  validate_tag-tlv (universal_tag object_identifier false) (oid_octets a b arcs) rest none _ none
      oid-IsTag fits tt refl,
  arcs_of-oid_octets a b arcs h,
)

-- For an object identifier of two numbers of at most 39 that share an octet below 128 and any
-- others, shorter than 2 ^ 64, and whatever follows: _pack_asn1_object_identifier takes its
-- dotted text, and _read_asn1_object_identifier returns that text and the number of octets that
-- were packed.
pub read-pack_object_identifier :
    (a b : ℕ) (arcs : List ℕ) (rest : Bytes)
    → IsOid a b
    → FitsLength (length (oid_octets a b arcs))
    → (packed : Bytes) × (pack_object_identifier (dotted (a ∷ b ∷ arcs)) none ≡ ok packed)
      × (read_object_identifier (packed ++ rest) none none
          ≡ ok (dotted (a ∷ b ∷ arcs), length packed))
read-pack_object_identifier a b arcs rest h fits = (
  oid_tlv a b arcs,
  pack_object_identifier-tlv a b arcs h,
  read_object_identifier-tlv a b arcs rest h fits,
)
