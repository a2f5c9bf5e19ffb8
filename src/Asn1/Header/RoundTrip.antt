-- ===== src/Asn1/Header/RoundTrip.antt =====
-- _pack_asn1 of src/dpapi_ng/_asn1.py followed by _read_asn1_header.
use dpapi_ng.Base.{
  ℕ, suc, ◌+◌, ◌*◌, ◌/◌, ◌%◌, ◌<◌, ◌≤◌, ◌≡◌, refl, arith, Bool, true, false, inl, inr, Bool-cases,
  not, ◌&&◌, ltb, ◌==◌, [], ◌∷◌, ◌++◌, append_assoc, length, length-append, drop-append, lt→ltb,
  ge→ltb, subst, if◌then◌else◌, Result, ok, err,
}
use dpapi_ng.Bytes.{Bytes}
use dpapi_ng.Asn1.OctetNumber.{pack_octet_number, unpack_octet_number}
use dpapi_ng.Asn1.OctetNumber.RoundTrip.{unpack-pack_octet_number}
use dpapi_ng.Asn1.Tag.{Asn1Tag, Asn1Header, universal, last_type_number, IsLowTag}
use dpapi_ng.Asn1.Header.{
  identifier_octet, pack_identifier, pack_asn1, read_tag_number, read_header,
}
use dpapi_ng.Asn1.Header.LengthOctets.{
  length_bytes, pack_length-ok, FitsLength, length-length_bytes, read_length-length_bytes,
}

-- What a tag has to satisfy for _read_asn1_header to take it: a class in range, and a universal
-- tag's number is one of TypeTagNumber.
pub record IsTag (t : Asn1Tag) : Type 0 where
  pub tag_class : t.tag_class < 4
  pub known : (t.tag_class == universal) && ltb last_type_number t.tag_number ≡ false

-- The identifier octets: those that the packing returns.
abbrev or_empty : Result Bytes → Bytes
or_empty (ok bs) = bs
or_empty (err e) = []

unfoldable pub identifier_bytes : Asn1Tag → Bytes
identifier_bytes t = or_empty (pack_identifier t)

-- The first octet holds the class, the kind and the low bits.
octet_parts :
    (tag_class low : ℕ) (constructed : Bool) (o : ℕ)
    → tag_class < 4
    → low < 32
    → o ≡ tag_class * 64 + (if constructed then 32 else 0) + low
    → (o / 64 % 4 ≡ tag_class) × (not (o / 32 % 2 == 0) ≡ constructed) × (o % 32 ≡ low)
octet_parts tag_class low true o h k e =
    let e' : o ≡ tag_class * 64 + 32 + low = e in (omega arith, ground arith, omega arith)
octet_parts tag_class low false o h k e =
    let e' : o ≡ tag_class * 64 + 0 + low = e in (omega arith, ground arith, omega arith)

-- The octets of a high tag number are read whatever follows them.
read-high_number :
    (n : ℕ) (octets rest : Bytes)
    → 0 < n
    → pack_octet_number n ≡ ok octets
    → unpack_octet_number (octets ++ rest) ≡ ok (n, length octets)
read-high_number n octets rest h packed =
    let (octets', packed', e) = unpack-pack_octet_number n rest h in
    let same : octets' ≡ octets = cc in
    subst (λ os. unpack_octet_number (os ++ rest) ≡ ok (n, length os)) same e

-- The identifier octets of a tag: the first one, those behind it, and what the reader finds.
abbrev Shape : Asn1Tag → ℕ → Bytes → Type 0
Shape t octet others =
    (pack_identifier t ≡ ok (octet ∷ others))
    × ((rest : Bytes)
        → read_tag_number octet (others ++ rest) ≡ ok (t.tag_number, suc (length others)))
    × (octet / 64 % 4 ≡ t.tag_class)
    × (not (octet / 32 % 2 == 0) ≡ t.is_constructed)

low-Shape :
    (t : Asn1Tag)
    → t.tag_class < 4
    → t.tag_number < 31
    → Shape t (identifier_octet t t.tag_number) []
unfolding pack_identifier read_tag_number
low-Shape t h k =
    let o = identifier_octet t t.tag_number in
    let (c, p, n) = octet_parts t.tag_class t.tag_number t.is_constructed o h (omega arith) refl in
    let low : (o % 32 == 31) ≡ false = ground arith in
    (rw (ge→ltb 3 t.tag_class (omega arith), lt→ltb t.tag_number 31 k), λ rest. rw (low, n), c, p)

high-Shape :
    (t : Asn1Tag) (octets : Bytes)
    → t.tag_class < 4
    → 31 ≤ t.tag_number
    → pack_octet_number t.tag_number ≡ ok octets
    → Shape t (identifier_octet t 31) octets
unfolding pack_identifier read_tag_number
high-Shape t octets h k packed =
    let o = identifier_octet t 31 in
    let (c, p, n) = octet_parts t.tag_class 31 t.is_constructed o h (omega arith) refl in
    let high : (o % 32 == 31) ≡ true = ground arith in
    let e : 1 + length octets ≡ suc (length octets) = omega arith in
    (
      rw (ge→ltb 3 t.tag_class (omega arith), ge→ltb t.tag_number 31 k, packed),
      λ rest. rw (high, read-high_number t.tag_number octets rest (omega arith) packed, e),
      c,
      p,
    )

identifier-Shape :
    (t : Asn1Tag) → t.tag_class < 4 → (octet : ℕ) × (others : Bytes) × Shape t octet others
identifier-Shape t h = elim (Bool-cases (ltb t.tag_number 31)) [
  | inl low ↦ (identifier_octet t t.tag_number, [], low-Shape t h (ground arith))
  | inr high ↦
      let (octets, packed, _) = unpack-pack_octet_number t.tag_number [] (ground arith) in
      (identifier_octet t 31, octets, high-Shape t octets h (ground arith) packed)
]

unfoldable pub header_bytes : Asn1Tag → ℕ → Bytes
header_bytes t n = identifier_bytes t ++ length_bytes n

-- The header that is read.
abbrev pub header_of : Asn1Tag → ℕ → Asn1Header
header_of t n = record { tag = t; tag_length = length (header_bytes t n); length = n }

pub pack_asn1-ok :
    (t : Asn1Tag) (content : Bytes)
    → t.tag_class < 4
    → pack_asn1 t content ≡ ok (header_bytes t (length content) ++ content)
unfolding pack_asn1 header_bytes identifier_bytes
pack_asn1-ok t content h =
    let (octet, others, (packed, _, _, _)) = identifier-Shape t h in
    rw (
      packed,
      pack_length-ok (length content),
      append_assoc (octet ∷ others) (length_bytes (length content)) content,
    )

pub read_header-header_bytes :
    (t : Asn1Tag) (n : ℕ) (rest : Bytes)
    → IsTag t
    → FitsLength n
    → read_header (header_bytes t n ++ rest) ≡ ok (header_of t n)
unfolding read_header header_bytes identifier_bytes
read_header-header_bytes t n rest h fits =
    let (octet, others, (packed, number, class, kind)) = identifier-Shape t h.tag_class in
    rw (
      packed,
      append_assoc others (length_bytes n) rest,
      number (length_bytes n ++ rest),
      class,
      h.known,
      drop-append (octet ∷ others) (length_bytes n ++ rest),
      read_length-length_bytes n rest fits,
      kind,
      length-append (octet ∷ others) (length_bytes n),
    )

-- A tag of one octet and a length below 2 ^ 64 take ten octets at most.
pub length-header_bytes :
    (t : Asn1Tag) (n : ℕ) → IsLowTag t → FitsLength n → length (header_bytes t n) ≤ 10
unfolding header_bytes identifier_bytes
length-header_bytes t n h fits =
    let (packed, _, _, _) = low-Shape t h.tag_class h.tag_number in
    rw packed (omega (arith, length-length_bytes n fits))

pub header_bytes_pos : (t : Asn1Tag) (n : ℕ) → t.tag_class < 4 → 0 < length (header_bytes t n)
unfolding header_bytes identifier_bytes
header_bytes_pos t n h =
    let (octet, others, (packed, _, _, _)) = identifier-Shape t h in rw packed (omega arith)

-- For a tag with a class below 4, which is no universal tag with a number above 36, a content
-- shorter than 2 ^ 64 and whatever follows: _pack_asn1 returns octets that end with the content,
-- and _read_asn1_header reads from them the tag, the number of the octets in front of the
-- content, and the length of the content.
pub read_header-pack_asn1 :
    (t : Asn1Tag) (content rest : Bytes)
    → IsTag t
    → FitsLength (length content)
    → (head : Bytes) × (pack_asn1 t content ≡ ok (head ++ content))
      × (read_header ((head ++ content) ++ rest)
          ≡ ok (record { tag = t; tag_length = length head; length = length content }))
read_header-pack_asn1 t content rest h fits = (
  header_bytes t (length content),
  pack_asn1-ok t content h.tag_class,
  rw (append_assoc (header_bytes t (length content)) content rest)
      (read_header-header_bytes t (length content) (content ++ rest) h fits),
)
