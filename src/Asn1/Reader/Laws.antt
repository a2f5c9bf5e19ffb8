-- ===== src/Asn1/Reader/Laws.antt =====
-- ASN1Reader of src/dpapi_ng/_asn1.py on packed values: each method returns the value and leaves what
-- follows it.
use dpapi_ng.Base.{
  ℕ, ◌+◌, ◌^◌, ◌<◌, ◌≡◌, refl, arith, true, false, Option, none, List, ◌∷◌, ◌++◌, length,
  drop-append, ok, pos, All,
}
use dpapi_ng.Bytes.{Bytes}
use dpapi_ng.Bytes.Text.{Text, IsChar}
use dpapi_ng.Bytes.Utf8.{utf8_bytes, decode_utf8-utf8_bytes}
use dpapi_ng.Asn1.Tag.{Asn1Tag, Asn1Header, universal_tag, octet_string, sequence, set, utf8_string}
use dpapi_ng.Asn1.Header.LengthOctets.{FitsLength}
use dpapi_ng.Asn1.Header.RoundTrip.{IsTag, header_of}
use dpapi_ng.Asn1.Validate.{tlv, wanted_tag, IsHeader, validate_tag-tlv, read_header-tlv}
use dpapi_ng.Asn1.Integer.RoundTrip.{integer_tlv, read_integer-tlv}
use dpapi_ng.Asn1.Oid.{dotted}
use dpapi_ng.Asn1.Oid.RoundTrip.{IsOid, oid_tlv, oid_octets, read_object_identifier-tlv}
use dpapi_ng.Asn1.Strings as Strings
use dpapi_ng.Asn1.Reader as Reader
use dpapi_ng.Asn1.Reader.{advance}

pub peek_header-tlv :
    (t : Asn1Tag) (content rest : Bytes)
    → IsTag t
    → FitsLength (length content)
    → Reader.peek_header (tlv t content ++ rest) ≡ ok (header_of t (length content))
unfolding Reader.peek_header
peek_header-tlv t content rest h fits = read_header-tlv t content rest h fits

module _ (t : Asn1Tag) (content rest : Bytes) (h : IsTag t) (fits : FitsLength (length content))
    (tag : Option Asn1Tag) (header : Option Asn1Header)
    (given : IsHeader t (length content) header) where
  pub read_octet_string-tlv :
      wanted_tag tag (universal_tag octet_string false) header ≡ t
      → Reader.read_octet_string tag header (tlv t content ++ rest) ≡ ok (content, rest)
  unfolding Reader.read_octet_string Strings.read_octet_string
  read_octet_string-tlv wanted = rw (
    validate_tag-tlv t content rest tag _ header h fits given wanted,
    drop-append (tlv t content) rest,
  )

  pub read_sequence-tlv :
      wanted_tag tag (universal_tag sequence true) header ≡ t
      → Reader.read_sequence tag header (tlv t content ++ rest) ≡ ok (content, rest)
  unfolding Reader.read_sequence Strings.read_sequence
  read_sequence-tlv wanted = rw (
    validate_tag-tlv t content rest tag _ header h fits given wanted,
    drop-append (tlv t content) rest,
  )

  pub read_set-tlv :
      wanted_tag tag (universal_tag set true) header ≡ t
      → Reader.read_set tag header (tlv t content ++ rest) ≡ ok (content, rest)
  unfolding Reader.read_set Strings.read_set
  read_set-tlv wanted = rw (
    validate_tag-tlv t content rest tag _ header h fits given wanted,
    drop-append (tlv t content) rest,
  )

abbrev pub utf8_tag : Asn1Tag
utf8_tag = universal_tag utf8_string false

pub utf8_tag-IsTag : IsTag utf8_tag
utf8_tag-IsTag = record { tag_class = omega arith; known = refl }

pub read_utf8_string-tlv :
    (s : Text) (rest : Bytes)
    → All IsChar s
    → FitsLength (length (utf8_bytes s))
    → Reader.read_utf8_string none none (tlv utf8_tag (utf8_bytes s) ++ rest) ≡ ok (s, rest)
unfolding Reader.read_utf8_string Strings.read_utf8_string
read_utf8_string-tlv s rest h fits = rw (
  validate_tag-tlv utf8_tag (utf8_bytes s) rest none _ none utf8_tag-IsTag fits tt refl,
  decode_utf8-utf8_bytes s h,
  drop-append (tlv utf8_tag (utf8_bytes s)) rest,
)

pub reader-integer :
    (n w : ℕ) (rest : Bytes)
    → n < 256 ^ w
    → FitsLength (w + 1)
    → Reader.read_integer none none (integer_tlv n ++ rest) ≡ ok (pos n, rest)
unfolding Reader.read_integer
reader-integer n w rest h fits =
    rw (read_integer-tlv n w rest h (omega arith), drop-append (integer_tlv n) rest)

pub reader-object_identifier :
    (a b : ℕ) (arcs : List ℕ) (rest : Bytes)
    → IsOid a b
    → FitsLength (length (oid_octets a b arcs))
    → Reader.read_object_identifier none none (oid_tlv a b arcs ++ rest)
      ≡ ok (dotted (a ∷ b ∷ arcs), rest)
unfolding Reader.read_object_identifier
reader-object_identifier a b arcs rest h fits =
    rw (read_object_identifier-tlv a b arcs rest h fits, drop-append (oid_tlv a b arcs) rest)
