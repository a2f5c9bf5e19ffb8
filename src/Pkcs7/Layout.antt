-- ===== src/Pkcs7/Layout.antt =====
-- The octets of the structures of src/dpapi_ng/_pkcs7.py, and what their unpack functions make of them.
use dpapi_ng.Base.{
  ℕ, ◌≡◌, refl, arith, Bool, true, false, none, some, [], ◌++◌, append-nil, length, ok,
}
use dpapi_ng.Bytes.{Bytes}
use dpapi_ng.Asn1.Tag.{Asn1Tag, universal_tag, sequence, set, octet_string}
use dpapi_ng.Asn1.Header.LengthOctets.{FitsLength}
use dpapi_ng.Asn1.Header.RoundTrip.{IsTag, header_of}
use dpapi_ng.Asn1.Validate.{tlv, Fits-content, Fits-left, Fits-right}
use dpapi_ng.Asn1.Named as Named
use dpapi_ng.Asn1.Named.{Oid, oid_text, oid_bytes, reader-oid}
use dpapi_ng.Asn1.Reader as Reader
use dpapi_ng.Asn1.Reader.Laws.{peek_header-tlv, read_octet_string-tlv, read_sequence-tlv}
use dpapi_ng.Pkcs7.{
  context_tag, optional_rest, unpack_algorithm, unpack_other, unpack_date, unpack_optional_other,
  unpack_kek_identifier,
}

abbrev pub sequence_tag : Asn1Tag
sequence_tag = universal_tag sequence true

abbrev pub octets_tag : Asn1Tag
octets_tag = universal_tag octet_string false

pub sequence_tag-IsTag : IsTag sequence_tag
sequence_tag-IsTag = record { tag_class = omega arith; known = refl }

pub octets_tag-IsTag : IsTag octets_tag
octets_tag-IsTag = record { tag_class = omega arith; known = refl }

pub set-IsTag : IsTag (universal_tag set true)
set-IsTag = record { tag_class = omega arith; known = refl }

pub context_tag-IsTag : (n : ℕ) (constructed : Bool) → IsTag (context_tag n constructed)
context_tag-IsTag n constructed = record { tag_class = omega arith; known = refl }

-- A plain sequence and a plain octet string at the head of a view.
pub sequence_lem :
    (content rest : Bytes)
    → FitsLength (length content)
    → Reader.read_sequence none none (tlv sequence_tag content ++ rest) ≡ ok (content, rest)
sequence_lem content rest fits =
    read_sequence-tlv sequence_tag content rest sequence_tag-IsTag fits none none tt refl

pub octets_lem :
    (content rest : Bytes)
    → FitsLength (length content)
    → Reader.read_octet_string none none (tlv octets_tag content ++ rest) ≡ ok (content, rest)
octets_lem content rest fits =
    read_octet_string-tlv octets_tag content rest octets_tag-IsTag fits none none tt refl

module _ (o : Oid) (h : Named.IsValid o) (tail rest : Bytes)
    (fits : FitsLength (length (oid_bytes o ++ tail))) where
  pub unpack_algorithm_lem :
      unpack_algorithm (tlv sequence_tag (oid_bytes o ++ tail) ++ rest)
      ≡ ok (record { algorithm = oid_text o; parameters = optional_rest tail }, rest)
  unfolding unpack_algorithm
  unpack_algorithm_lem = rw (
    sequence_lem (oid_bytes o ++ tail) rest fits,
    reader-oid o tail h (Fits-left (oid_bytes o) tail fits),
  )

  pub unpack_other_lem :
      unpack_other
        (tlv sequence_tag (oid_bytes o ++ tail) ++ rest)
        (some (header_of sequence_tag (length (oid_bytes o ++ tail))))
      ≡ ok (record { key_attr_id = oid_text o; key_attr = optional_rest tail }, rest)
  unfolding unpack_other
  unpack_other_lem = rw (
    read_sequence-tlv sequence_tag (oid_bytes o ++ tail) rest sequence_tag-IsTag fits none
        (some (header_of sequence_tag (length (oid_bytes o ++ tail)))) refl refl,
    reader-oid o tail h (Fits-left (oid_bytes o) tail fits),
  )

-- The key identifier and an attribute, without a date.
abbrev pub kek_identifier_octets : Bytes → Oid → Bytes → Bytes
kek_identifier_octets identifier o attr =
    tlv octets_tag identifier ++ tlv sequence_tag (oid_bytes o ++ attr)

pub unpack_kek_identifier_lem :
    (identifier : Bytes) (o : Oid) (attr rest : Bytes)
    → Named.IsValid o
    → FitsLength (length (kek_identifier_octets identifier o attr))
    → unpack_kek_identifier (tlv sequence_tag (kek_identifier_octets identifier o attr) ++ rest)
      ≡ ok (
        record {
          key_identifier = identifier;
          date = none;
          other = some (record { key_attr_id = oid_text o; key_attr = optional_rest attr });
        },
        rest,
      )
unfolding unpack_kek_identifier unpack_date unpack_optional_other
unpack_kek_identifier_lem identifier o attr rest h fits =
    let inner = oid_bytes o ++ attr in
    let fits_id =
      Fits-content octets_tag identifier
        (Fits-left (tlv octets_tag identifier) (tlv sequence_tag inner) fits) in
    let fits_other =
      Fits-content sequence_tag inner
        (Fits-right (tlv octets_tag identifier) (tlv sequence_tag inner) fits) in
    let peek : Reader.peek_header (tlv sequence_tag inner)
        ≡ ok (header_of sequence_tag (length inner)) =
      rw append-nil at (peek_header-tlv sequence_tag inner [] sequence_tag-IsTag fits_other) in
    let other : unpack_other (tlv sequence_tag inner) (some (header_of sequence_tag (length inner)))
        ≡ ok (record { key_attr_id = oid_text o; key_attr = optional_rest attr }, []) =
      rw append-nil at (unpack_other_lem o h attr [] fits_other) in
    rw (
      sequence_lem (kek_identifier_octets identifier o attr) rest fits,
      octets_lem identifier (tlv sequence_tag inner) fits_id,
      peek,
      other,
    )
