-- ===== src/Blob/DpapingBlob/Pack.antt =====
-- DPAPINGBlob.pack of src/dpapi_ng/_blob.py: the octets that it returns.
use dpapi_ng.Base.{
  ◌≡◌, refl, arith, Bool, true, false, Option, none, some, [], ◌∷◌, ◌++◌, append-nil, length,
  if◌then◌else◌, All, ok,
}
use dpapi_ng.Bytes.{Bytes}
use dpapi_ng.Bytes.Text.{Text, IsChar}
use dpapi_ng.Asn1.Header.LengthOctets.{FitsLength}
use dpapi_ng.Asn1.Validate.{tlv}
use dpapi_ng.Asn1.Integer.RoundTrip.{integer_tlv}
use dpapi_ng.Asn1.Named as Named
use dpapi_ng.Asn1.Named.{Oid, oid_text, oid_bytes, Writes-oid}
use dpapi_ng.Asn1.Writer.{root, extend, write_object_identifier, get_data}
use dpapi_ng.Asn1.Writer.Laws.{
  Writes, Writes-then, Writes-octets, Writes-nothing, Writes-sequence, Writes-set, Writes-integer,
  Writes-octet_string,
}
use dpapi_ng.Pkcs7.{context_tag, optional_rest}
use dpapi_ng.Pkcs7.Layout.{sequence_tag}
use dpapi_ng.Pkcs7.Recipient.{recipient_tag, recipient_octets}
use dpapi_ng.Pkcs7.Enveloped.{content_field, content_octets, enveloped_octets, content_info_octets}
use dpapi_ng.Blob.KeyIdentifier.{KeyIdentifier}
use dpapi_ng.Blob.KeyIdentifier.RoundTrip as Identifier
use dpapi_ng.Blob.DpapingBlob.{
  DpapingBlob, write_kek_identifier, write_recipient, octets_or_none, write_content_algorithm,
  write_content, write_content_info, write_enveloped, write_blob, pack,
}
use dpapi_ng.Blob.DpapingBlob.Layout.{
  software, enveloped_data, data_content, enveloped_data-text, data_content-text,
  enveloped_data-valid, data_content-valid, attr_octets, plain_sequence, write_kek_identifier_lem,
}

pub octets_or_none-optional_rest : (bs : Bytes) → octets_or_none (optional_rest bs) ≡ bs
octets_or_none-optional_rest [] = refl
octets_or_none-optional_rest (b ∷ bs) = refl

-- The content where it goes inside.
abbrev pub inline_of : Bool → Bytes → Option Bytes
inline_of true content = some content
inline_of false content = none

write_content_lem :
    (blob_in_envelope : Bool) (content : Bytes)
    → Writes
        (write_content blob_in_envelope content)
        (content_field (inline_of blob_in_envelope content))
write_content_lem true content =
    Writes-octet_string (some (context_tag 0 false)) content (omega arith)
write_content_lem false content = Writes-nothing

-- A blob by its parts: the object identifiers by their numbers, and the parameters of the content's
-- algorithm by their octets, none where there are no octets.
module _ (k : KeyIdentifier) (sd cek : Bytes) (cek_oid : Oid) (content : Bytes) (content_oid : Oid)
    (parameters : Bytes) where
  abbrev pub blob_of : DpapingBlob
  blob_of = record {
    key_identifier = k;
    security_descriptor = sd;
    enc_cek = cek;
    enc_cek_algorithm = oid_text cek_oid;
    enc_cek_parameters = none;
    enc_content = content;
    enc_content_algorithm = oid_text content_oid;
    enc_content_parameters = optional_rest parameters;
  }

  module _ (pd : Text) (blob_in_envelope : Bool) where
    abbrev pub blob_recipient : Bytes
    blob_recipient =
        recipient_octets 4 (Identifier.layout k) software (attr_octets pd) cek_oid [] cek

    abbrev pub blob_content : Bytes
    blob_content =
        content_octets data_content content_oid parameters (inline_of blob_in_envelope content)

    abbrev pub blob_enveloped : Bytes
    blob_enveloped = enveloped_octets blob_recipient blob_content

    abbrev pub blob_octets : Bytes
    blob_octets = content_info_octets enveloped_data (tlv sequence_tag blob_enveloped)

    -- What a blob has to satisfy to be packed: an identifier that fits, names that are encodable, and
    -- less than 2 ^ 64 octets.
    pub record IsPackable : Type 0 where
      pub identifier : Identifier.IsValid k
      pub cek_algorithm : Named.IsValid cek_oid
      pub content_algorithm : Named.IsValid content_oid
      pub descriptor : All IsChar pd
      pub size : FitsLength (length blob_octets)

    module _ (valid : IsPackable) where
      write_recipient_lem : Writes (write_recipient blob_of pd) blob_recipient
      unfolding write_recipient
      write_recipient_lem =
          let algorithm =
            plain_sequence (write_object_identifier none (oid_text cek_oid)) (oid_bytes cek_oid)
              (Writes-oid cek_oid valid.cek_algorithm) in
          let key = Writes-octet_string none cek (omega arith) in
          let kekid =
            plain_sequence (write_kek_identifier k pd) _
              (write_kek_identifier_lem k pd valid.identifier valid.descriptor) in
          rw (append-nil (oid_bytes cek_oid)) (
            Writes-then _ _ (integer_tlv 4) _ (Writes-integer 4)
              (Writes-then _ _ _ _ kekid (Writes-then _ _ _ _ algorithm key)))

      write_algorithm_lem :
          Writes
            (write_content_algorithm (oid_text content_oid) (optional_rest parameters))
            (oid_bytes content_oid ++ parameters)
      unfolding write_content_algorithm
      write_algorithm_lem = rw (octets_or_none-optional_rest parameters) (
          Writes-then _ _ _ _ (Writes-oid content_oid valid.content_algorithm)
            (Writes-octets parameters))

      write_content_info_lem : Writes (write_content_info blob_of blob_in_envelope) blob_content
      unfolding write_content_info
      write_content_info_lem =
          let algorithm = plain_sequence _ _ write_algorithm_lem in
          let last = write_content_lem blob_in_envelope content in
          rw (← data_content-text) (
            Writes-then _ _ _ _ (Writes-oid data_content data_content-valid)
              (Writes-then _ _ _ _ algorithm last))

      write_enveloped_lem : Writes (write_enveloped blob_of pd blob_in_envelope) blob_enveloped
      unfolding write_enveloped
      write_enveloped_lem =
          let one = Writes-sequence (some recipient_tag) _ _ (omega arith) write_recipient_lem in
          let infos = Writes-set _ _ one in
          let last = plain_sequence _ _ write_content_info_lem in
          Writes-then _ _ _ _ (Writes-integer 2) (Writes-then _ _ _ _ infos last)

      write_blob_lem : Writes (write_blob blob_of pd blob_in_envelope) blob_octets
      unfolding write_blob
      write_blob_lem =
          let inner = plain_sequence _ _ write_enveloped_lem in
          let outer = Writes-sequence (some (context_tag 0 true)) _ _ (omega arith) inner in
          rw (← enveloped_data-text)
            (Writes-then _ _ _ _ (Writes-oid enveloped_data enveloped_data-valid) outer)

      -- What pack returns: the structure, and the content behind it where it is not inside.
      pub pack-octets :
          pack blob_of pd blob_in_envelope
          ≡ ok (tlv sequence_tag blob_octets ++ (if blob_in_envelope then [] else content))
      unfolding pack get_data extend
      pack-octets = rw (plain_sequence _ _ write_blob_lem (root []))
