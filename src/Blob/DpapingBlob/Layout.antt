-- ===== src/Blob/DpapingBlob/Layout.antt =====
-- DPAPINGBlob.pack of src/dpapi_ng/_blob.py: the octets that it returns.
use dpapi_ng.Base.{◌≡◌, refl, arith, none, some, [], ◌∷◌, ◌++◌, All, Result}
use dpapi_ng.Bytes.{Bytes}
use dpapi_ng.Bytes.Text.{Text, text, IsChar}
use dpapi_ng.Bytes.Utf8.{utf8_bytes, encode_utf8-ok}
use dpapi_ng.Asn1.Validate.{tlv}
use dpapi_ng.Asn1.Oid.{decimal_from, decimal, dotted}
use dpapi_ng.Asn1.Named as Named
use dpapi_ng.Asn1.Named.{Oid, oid_text, oid_bytes, Writes-oid}
use dpapi_ng.Asn1.Reader.Laws.{utf8_tag}
use dpapi_ng.Asn1.Writer.{Asn1Writer, push_sequence, within, write_octet_string}
use dpapi_ng.Asn1.Writer.Laws.{Writes, Writes-then, Writes-sequence, Writes-octet_string}
use dpapi_ng.Pkcs7.Layout.{sequence_tag, octets_tag, kek_identifier_octets}
use dpapi_ng.Pkcs7.Enveloped.{pair_octets, nested_octets, descriptor_octets}
use dpapi_ng.Blob.KeyIdentifier.{KeyIdentifier}
use dpapi_ng.Blob.KeyIdentifier.RoundTrip as Identifier
use dpapi_ng.Blob.DpapingBlob.{
  microsoft_software_oid, microsoft_software_systems_oid, enveloped_data_oid, data_oid, write_sid,
  write_descriptor, write_originator, write_kek_identifier,
}

abbrev pub software : Oid
software = record { first = 1; second = 3; others = 6 ∷ 1 ∷ 4 ∷ 1 ∷ 311 ∷ 74 ∷ 1 ∷ [] }

abbrev pub software_systems : Oid
software_systems = record { first = 1; second = 3; others = 6 ∷ 1 ∷ 4 ∷ 1 ∷ 311 ∷ 74 ∷ 1 ∷ 1 ∷ [] }

abbrev pub enveloped_data : Oid
enveloped_data = record { first = 1; second = 2; others = 840 ∷ 113549 ∷ 1 ∷ 7 ∷ 3 ∷ [] }

abbrev pub data_content : Oid
data_content = record { first = 1; second = 2; others = 840 ∷ 113549 ∷ 1 ∷ 7 ∷ 1 ∷ [] }

pub software-text : oid_text software ≡ microsoft_software_oid
unfolding oid_text dotted decimal decimal_from
software-text = refl

pub software_systems-text : oid_text software_systems ≡ microsoft_software_systems_oid
unfolding oid_text dotted decimal decimal_from
software_systems-text = refl

pub enveloped_data-text : oid_text enveloped_data ≡ enveloped_data_oid
unfolding oid_text dotted decimal decimal_from
enveloped_data-text = refl

pub data_content-text : oid_text data_content ≡ data_oid
unfolding oid_text dotted decimal decimal_from
data_content-text = refl

pub software-valid : Named.IsValid software
software-valid = record { first = omega arith; second = omega arith; octet = omega arith }

pub software_systems-valid : Named.IsValid software_systems
software_systems-valid = record { first = omega arith; second = omega arith; octet = omega arith }

pub enveloped_data-valid : Named.IsValid enveloped_data
enveloped_data-valid = record { first = omega arith; second = omega arith; octet = omega arith }

pub data_content-valid : Named.IsValid data_content
data_content-valid = record { first = omega arith; second = omega arith; octet = omega arith }

abbrev pub sid_type : Text
sid_type = text "SID"

-- The octets of the blocks, from the innermost one out.
abbrev pub attr_octets : Text → Bytes
attr_octets pd = tlv sequence_tag (descriptor_octets software_systems sid_type pd)

-- A sequence without a tag of its own.
pub plain_sequence :
    (block : Asn1Writer → Result Asn1Writer) (octets : Bytes)
    → Writes block octets
    → Writes (within (push_sequence none) block) (tlv sequence_tag octets)
plain_sequence block octets p = Writes-sequence none block octets (omega arith) p

write_sid_lem : (pd : Text) → All IsChar pd → Writes (write_sid pd) (pair_octets sid_type pd)
unfolding write_sid
write_sid_lem pd h = rw (encode_utf8-ok pd h) (
    Writes-then (write_octet_string (some utf8_tag) (utf8_bytes sid_type))
      (write_octet_string (some utf8_tag) (utf8_bytes pd)) (tlv utf8_tag (utf8_bytes sid_type))
      (tlv utf8_tag (utf8_bytes pd))
      (Writes-octet_string (some utf8_tag) (utf8_bytes sid_type) (omega arith))
      (Writes-octet_string (some utf8_tag) (utf8_bytes pd) (omega arith)))

write_descriptor_lem :
    (pd : Text)
    → All IsChar pd
    → Writes (write_descriptor pd) (descriptor_octets software_systems sid_type pd)
unfolding write_descriptor
write_descriptor_lem pd h =
    let s1 = plain_sequence (write_sid pd) (pair_octets sid_type pd) (write_sid_lem pd h) in
    let s2 = plain_sequence _ _ s1 in
    let s3 = plain_sequence _ _ s2 in
    rw (← software_systems-text) (
      Writes-then _ _ (oid_bytes software_systems) (nested_octets sid_type pd)
        (Writes-oid software_systems software_systems-valid) s3)

write_originator_lem :
    (pd : Text)
    → All IsChar pd
    → Writes (write_originator pd) (oid_bytes software ++ attr_octets pd)
unfolding write_originator
write_originator_lem pd h = rw (← software-text) (
    Writes-then _ _ (oid_bytes software) (attr_octets pd) (Writes-oid software software-valid)
      (plain_sequence (write_descriptor pd) _ (write_descriptor_lem pd h)))

pub write_kek_identifier_lem :
    (k : KeyIdentifier) (pd : Text)
    → Identifier.IsValid k
    → All IsChar pd
    → Writes
        (write_kek_identifier k pd)
        (kek_identifier_octets (Identifier.layout k) software (attr_octets pd))
unfolding write_kek_identifier
write_kek_identifier_lem k pd valid h = rw (Identifier.pack-layout k valid) (
    Writes-then _ _ (tlv octets_tag (Identifier.layout k))
      (tlv sequence_tag (oid_bytes software ++ attr_octets pd))
      (Writes-octet_string none (Identifier.layout k) (omega arith))
      (plain_sequence (write_originator pd) _ (write_originator_lem pd h)))
