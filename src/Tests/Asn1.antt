-- ===== src/Tests/Asn1.antt =====
-- ASN.1 at concrete inputs.
use dpapi_ng.Base.{
  ◌≡◌, refl, arith, true, false, none, [], ◌∷◌, ◌++◌, length, ok, err, value_error, not_enough_data,
  pos, negsuc,
}
use dpapi_ng.Asn1.Tag.{universal_tag, integer}
use dpapi_ng.Asn1.Header.{pack_asn1, read_header}
use dpapi_ng.Asn1.Header.RoundTrip.{read_header-pack_asn1}
use dpapi_ng.Asn1.Validate.{tlv}
use dpapi_ng.Asn1.Integer.{pack_integer, read_integer, integer_octets, integer_loop, increment}
use dpapi_ng.Asn1.Integer.RoundTrip.{read_integer-pack_integer}
use dpapi_ng.Asn1.Integer.Carry.{read_integer-carry}
use dpapi_ng.Asn1.Oid.{dotted, pack_object_identifier, read_object_identifier}
use dpapi_ng.Asn1.Oid.RoundTrip.{read-pack_object_identifier}
use dpapi_ng.Asn1.OctetNumber.RoundTrip.{arc_bytes, high_octets}
use dpapi_ng.Pkcs7.{context_tag, unpack_kek_identifier}
use dpapi_ng.Pkcs7.Layout.{sequence_tag, octets_tag}
use dpapi_ng.Pkcs7.Optional.{unpack_kek_identifier-bare}
use dpapi_ng.Asn1.Header.{pack_identifier}
use dpapi_ng.Asn1.Header.RoundTrip.{header_bytes, identifier_bytes}
use dpapi_ng.Asn1.Header.LengthOctets.{length_bytes}
use dpapi_ng.Bytes.{Bytes}

read_header-pack_asn1_example :
    (head : Bytes) × (pack_asn1 (context_tag 31 true) (7 ∷ 8 ∷ []) ≡ ok (head ++ (7 ∷ 8 ∷ [])))
    × (read_header ((head ++ (7 ∷ 8 ∷ [])) ++ (9 ∷ []))
        ≡ ok (record { tag = context_tag 31 true; tag_length = length head; length = 2 }))
read_header-pack_asn1_example =
    read_header-pack_asn1 (context_tag 31 true) (7 ∷ 8 ∷ []) (9 ∷ [])
      (record { tag_class = omega arith; known = refl }) (omega arith)

read_integer-pack_integer_example :
    (packed : Bytes) × (pack_integer (pos 200) none ≡ ok packed)
    × (read_integer (packed ++ (5 ∷ [])) none none ≡ ok (pos 200, length packed))
read_integer-pack_integer_example =
    read_integer-pack_integer 200 1 (5 ∷ []) (omega arith) (omega arith)

-- -65536 is FF 00 00.
minus_65536 : integer_octets (negsuc 65535) ≡ ok (255 ∷ 0 ∷ 0 ∷ [])
unfolding integer_octets integer_loop increment
minus_65536 = refl

read_integer-carry_example :
    read_integer
      (tlv (universal_tag integer false) ((255 ∷ []) ++ (0 ∷ 0 ∷ [])) ++ (1 ∷ []))
      none
      none
    ≡ err value_error
read_integer-carry_example =
    read_integer-carry 255 [] (1 ∷ []) (omega arith) (omega arith) (omega arith)

read-pack_object_identifier_example :
    (packed : Bytes) × (pack_object_identifier (dotted (1 ∷ 2 ∷ 840 ∷ 113549 ∷ [])) none
      ≡ ok packed)
    × (read_object_identifier (packed ++ (4 ∷ [])) none none
        ≡ ok (dotted (1 ∷ 2 ∷ 840 ∷ 113549 ∷ []), length packed))
unfolding arc_bytes high_octets
read-pack_object_identifier_example =
    read-pack_object_identifier 1 2 (840 ∷ 113549 ∷ []) (4 ∷ [])
      (record { first = omega arith; second = omega arith; octet = omega arith }) (omega arith)

unpack_kek_identifier-bare_example :
    unpack_kek_identifier (tlv sequence_tag (tlv octets_tag (1 ∷ 2 ∷ [])) ++ (3 ∷ []))
    ≡ err not_enough_data
unfolding tlv header_bytes identifier_bytes pack_identifier length_bytes
unpack_kek_identifier-bare_example = unpack_kek_identifier-bare (1 ∷ 2 ∷ []) (3 ∷ []) (omega arith)
