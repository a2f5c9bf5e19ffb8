-- ===== src/Blob/DpapingBlob/Size.antt =====
-- DPAPINGBlob.pack of src/dpapi_ng/_blob.py: how long the structure is at most.
use dpapi_ng.Base.{
  ℕ, ◌+◌, ◌*◌, ◌^◌, ◌<◌, ◌≤◌, arith, Bool, true, false, [], ◌++◌, length, length-append,
}
use dpapi_ng.Bytes.{Bytes}
use dpapi_ng.Bytes.Text.{Text}
use dpapi_ng.Bytes.Utf8.{utf8_bytes}
use dpapi_ng.Asn1.Tag.{Asn1Tag, universal_tag, set, IsLowTag}
use dpapi_ng.Asn1.Header.LengthOctets.{FitsLength}
use dpapi_ng.Asn1.Header.RoundTrip.{header_bytes, identifier_bytes}
use dpapi_ng.Asn1.Header.{pack_identifier}
use dpapi_ng.Asn1.Header.LengthOctets.{length_bytes, octet_count}
use dpapi_ng.Asn1.Validate.{tlv, length-tlv}
use dpapi_ng.Asn1.Integer.RoundTrip.{integer_tlv, octets_of, more_octets}
use dpapi_ng.Asn1.Oid.RoundTrip.{oid_tlv}
use dpapi_ng.Asn1.OctetNumber.RoundTrip.{arc_bytes, high_octets}
use dpapi_ng.Asn1.Named.{Oid, oid_bytes}
use dpapi_ng.Asn1.Reader.Laws.{utf8_tag}
use dpapi_ng.Pkcs7.{context_tag}
use dpapi_ng.Pkcs7.Layout.{sequence_tag, octets_tag, kek_identifier_octets}
use dpapi_ng.Pkcs7.Recipient.{algorithm_octets, recipient_tag}
use dpapi_ng.Pkcs7.Enveloped.{content_field, pair_octets, nested_octets, descriptor_octets}
use dpapi_ng.Blob.KeyIdentifier.{KeyIdentifier}
use dpapi_ng.Blob.KeyIdentifier.RoundTrip as Identifier
use dpapi_ng.Blob.DpapingBlob.Layout.{
  software, software_systems, enveloped_data, data_content, sid_type, attr_octets,
}
use dpapi_ng.Blob.DpapingBlob.Pack.{
  inline_of, blob_recipient, blob_content, blob_enveloped, blob_octets,
}

-- A value is ten octets longer than its content at most.
tlv_bound :
    (t : Asn1Tag) (content : Bytes) (n : ℕ)
    → IsLowTag t
    → length content ≤ n
    → n < 2 ^ 40
    → length (tlv t content) ≤ n + 10
tlv_bound t content n low h k = omega (arith, length-tlv t content low (omega arith))

sequence_low : IsLowTag sequence_tag
sequence_low = omega arith

constant_bounds :
    (length (oid_bytes software) ≤ 20)
    × (length (oid_bytes software_systems) ≤ 20)
    × (length (oid_bytes enveloped_data) ≤ 20)
    × (length (oid_bytes data_content) ≤ 20)
    × (length (tlv utf8_tag (utf8_bytes sid_type)) ≤ 20)
    × (length (integer_tlv 2) ≤ 20)
    × (length (integer_tlv 4) ≤ 20)
unfolding oid_bytes oid_tlv arc_bytes high_octets tlv header_bytes identifier_bytes pack_identifier
    length_bytes octet_count integer_tlv octets_of more_octets
constant_bounds = omega arith

module _ (k : KeyIdentifier) (sd cek : Bytes) (cek_oid : Oid) (content : Bytes) (content_oid : Oid)
    (parameters : Bytes) (pd : Text) (n : ℕ) where
  -- The parts that vary have n octets together at most.
  abbrev pub IsBounded : Type 0
  IsBounded =
      length (Identifier.layout k)
        + length cek
        + length (oid_bytes cek_oid)
        + length content
        + length (oid_bytes content_oid)
        + length parameters
        + length (utf8_bytes pd)
      ≤ n

  module _ (h : IsBounded) (small : n < 2 ^ 32) where
    attr_bound : length (attr_octets pd) ≤ n + 90
    attr_bound =
        let (_, systems, _, _, sid, _, _) = constant_bounds in
        let value =
          tlv_bound utf8_tag (utf8_bytes pd) n (omega arith) (omega arith) (omega arith) in
        let pair =
          length-append (tlv utf8_tag (utf8_bytes sid_type)) (tlv utf8_tag (utf8_bytes pd)) in
        let p = pair_octets sid_type pd in
        let s1 = tlv_bound sequence_tag p (n + 30) sequence_low (omega arith) (omega arith) in
        let s2 =
          tlv_bound sequence_tag (tlv sequence_tag p) (n + 40) sequence_low (omega arith)
            (omega arith) in
        let s3 =
          tlv_bound sequence_tag (tlv sequence_tag (tlv sequence_tag p)) (n + 50) sequence_low
            (omega arith) (omega arith) in
        let all = length-append (oid_bytes software_systems) (nested_octets sid_type pd) in
        let whole =
          tlv_bound sequence_tag (descriptor_octets software_systems sid_type pd) (n + 80)
            sequence_low (omega arith) (omega arith) in
        omega arith

    abbrev identifier : Bytes
    identifier = Identifier.layout k

    abbrev kekid : Bytes
    kekid = kek_identifier_octets identifier software (attr_octets pd)

    kekid_bound : length (tlv sequence_tag kekid) ≤ 2 * n + 150
    kekid_bound =
        let (soft, _, _, _, _, _, _) = constant_bounds in
        let other = oid_bytes software ++ attr_octets pd in
        let o1 = length-append (oid_bytes software) (attr_octets pd) in
        let o2 =
          tlv_bound sequence_tag other (n + 110) sequence_low (omega (arith, attr_bound))
            (omega arith) in
        let i = tlv_bound octets_tag identifier n (omega arith) (omega arith) (omega arith) in
        let all = length-append (tlv octets_tag identifier) (tlv sequence_tag other) in
        let whole =
          tlv_bound sequence_tag kekid (2 * n + 130) sequence_low (omega arith) (omega arith) in
        omega arith

    algorithm_bound :
        (o : Oid) (ps : Bytes)
        → length (oid_bytes o) + length ps ≤ n
        → length (algorithm_octets o ps) ≤ n + 10
    algorithm_bound o ps le =
        tlv_bound sequence_tag (oid_bytes o ++ ps) n sequence_low
          (omega (arith, length-append (oid_bytes o) ps)) (omega arith)

    module _ (blob_in_envelope : Bool) where
      abbrev recipient : Bytes
      recipient = blob_recipient k sd cek cek_oid content content_oid parameters pd blob_in_envelope

      abbrev inner : Bytes
      inner = blob_content k sd cek cek_oid content content_oid parameters pd blob_in_envelope

      abbrev enveloped : Bytes
      enveloped = blob_enveloped k sd cek cek_oid content content_oid parameters pd blob_in_envelope

      recipient_bound : length recipient ≤ 4 * n + 190
      recipient_bound =
          let (_, _, _, _, _, _, four) = constant_bounds in
          let alg = algorithm_octets cek_oid [] in
          let key = tlv octets_tag cek in
          let key_le = tlv_bound octets_tag cek n (omega arith) (omega arith) (omega arith) in
          let alg_le = algorithm_bound cek_oid [] (omega arith) in
          let a = length-append alg key in
          let b = length-append (tlv sequence_tag kekid) (alg ++ key) in
          let c = length-append (integer_tlv 4) (tlv sequence_tag kekid ++ (alg ++ key)) in
          omega (arith, kekid_bound)

      field_bound : length (content_field (inline_of blob_in_envelope content)) ≤ n + 10
      field_bound =
          elim blob_in_envelope
            as (λ inside. length (content_field (inline_of inside content)) ≤ n + 10) [
              | true ↦
                  tlv_bound (context_tag 0 false) content n (omega arith) (omega arith)
                    (omega arith)
              | false ↦ omega arith
            ]

      content_bound : length inner ≤ 2 * n + 40
      content_bound =
          let (_, _, _, type_le, _, _, _) = constant_bounds in
          let alg = algorithm_octets content_oid parameters in
          let field = content_field (inline_of blob_in_envelope content) in
          let alg_le = algorithm_bound content_oid parameters (omega arith) in
          let a = length-append alg field in
          let b = length-append (oid_bytes data_content) (alg ++ field) in
          omega (arith, field_bound)

      enveloped_bound : length enveloped ≤ 6 * n + 290
      enveloped_bound =
          let (_, _, _, _, _, two, _) = constant_bounds in
          let t = universal_tag set true in
          let one = tlv recipient_tag recipient in
          let r =
            tlv_bound recipient_tag recipient (4 * n + 190) (omega arith)
              (omega (arith, recipient_bound)) (omega arith) in
          let infos = tlv_bound t one (4 * n + 200) (omega arith) (omega arith) (omega arith) in
          let c =
            tlv_bound sequence_tag inner (2 * n + 40) sequence_low (omega (arith, content_bound))
              (omega arith) in
          let a = length-append (tlv t one) (tlv sequence_tag inner) in
          let b = length-append (integer_tlv 2) (tlv t one ++ tlv sequence_tag inner) in omega arith

      -- Parts of less than 4 GiB make a blob that fits.
      pub blob_octets-Fits :
          FitsLength (
            length
              (blob_octets k sd cek cek_oid content content_oid parameters pd blob_in_envelope))
      blob_octets-Fits =
          let (_, _, oid_le, _, _, _, _) = constant_bounds in
          let t = context_tag 0 true in
          let s =
            tlv_bound sequence_tag enveloped (6 * n + 290) sequence_low
              (omega (arith, enveloped_bound)) (omega arith) in
          let outer =
            tlv_bound t (tlv sequence_tag enveloped) (6 * n + 300) (omega arith) (omega arith)
              (omega arith) in
          let a = length-append (oid_bytes enveloped_data) (tlv t (tlv sequence_tag enveloped)) in
          omega arith
