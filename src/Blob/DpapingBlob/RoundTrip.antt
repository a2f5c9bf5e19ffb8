-- ===== src/Blob/DpapingBlob/RoundTrip.antt =====
-- DPAPINGBlob.pack of src/dpapi_ng/_blob.py followed by DPAPINGBlob.unpack.
use dpapi_ng.Base.{
  ℕ, ◌<◌, ◌≡◌, refl, arith, Bool, true, false, Option, some, [], ◌∷◌, ◌++◌, append-nil, length,
  take-append, drop-append, bytes_eq_refl, if◌then◌else◌, All, ok, ◌>>=◌, pos,
}
use dpapi_ng.Bytes.{Bytes}
use dpapi_ng.Bytes.Text.{Text, IsChar}
use dpapi_ng.Asn1.Tag.{universal_tag, set}
use dpapi_ng.Asn1.Header.LengthOctets.{FitsLength}
use dpapi_ng.Asn1.Validate.{tlv, Fits-content, Fits-left, Fits-right, length-tlv_parts}
use dpapi_ng.Asn1.Integer.RoundTrip.{integer_tlv}
use dpapi_ng.Asn1.Named.{Oid, oid_text, oid_bytes}
use dpapi_ng.Asn1.Reader.Laws.{peek_header-tlv}
use dpapi_ng.Pkcs7.{
  context_tag, optional_rest, EnvelopedData, unpack_recipient, unpack_descriptor,
  unpack_encrypted_content, unpack_enveloped,
}
use dpapi_ng.Pkcs7.Layout.{sequence_tag, sequence_tag-IsTag, octets_tag, kek_identifier_octets}
use dpapi_ng.Pkcs7.Recipient.{algorithm_octets, recipient_tag, recipient_of, unpack_recipient_lem}
use dpapi_ng.Pkcs7.Enveloped.{
  descriptor_octets, content_of, unpack_encrypted_content_lem, unpack_enveloped_lem,
  unpack_content_info_lem, unpack_descriptor_lem,
}
use dpapi_ng.Blob.KeyIdentifier.{KeyIdentifier}
use dpapi_ng.Blob.KeyIdentifier.RoundTrip as Identifier
use dpapi_ng.Blob.DpapingBlob.{
  microsoft_software_oid, pack, content_or, unpack, only_recipient, target_sd, descriptor_attr,
}
use dpapi_ng.Blob.DpapingBlob.Layout.{
  software, software_systems, sid_type, software-text, software_systems-text,
  software_systems-valid, enveloped_data, data_content, software-valid, enveloped_data-text,
  enveloped_data-valid, data_content-valid, attr_octets,
}
use dpapi_ng.Blob.DpapingBlob.Pack.{
  octets_or_none-optional_rest, inline_of, blob_of, blob_recipient, blob_content, blob_enveloped,
  blob_octets, IsPackable, pack-octets,
}

sid_chars : All IsChar sid_type
sid_chars =
    let plain_char : (c : ℕ) → c < 0x80 → IsChar c =
      λ c h. record { below = omega arith; plain = ground arith } in
    (plain_char 83 (omega arith), (plain_char 73 (omega arith), (plain_char 68 (omega arith), tt)))

-- The content of a packed blob is what is inside, or what is behind.
content_found :
    (blob_in_envelope : Bool) (content : Bytes)
    → content_or (inline_of blob_in_envelope content) (if blob_in_envelope then [] else content)
      ≡ content
content_found true [] = refl
content_found true (b ∷ bs) = refl
content_found false content = refl

module _ (k : KeyIdentifier) (sd cek : Bytes) (cek_oid : Oid) (content : Bytes) (content_oid : Oid)
    (parameters : Bytes) (pd : Text) (blob_in_envelope : Bool)
    (valid : IsPackable k sd cek cek_oid content content_oid parameters pd blob_in_envelope) where
  abbrev recipient : Bytes
  recipient = blob_recipient k sd cek cek_oid content content_oid parameters pd blob_in_envelope

  abbrev inner_content : Bytes
  inner_content = blob_content k sd cek cek_oid content content_oid parameters pd blob_in_envelope

  abbrev enveloped : Bytes
  enveloped = blob_enveloped k sd cek cek_oid content content_oid parameters pd blob_in_envelope

  abbrev octets : Bytes
  octets = blob_octets k sd cek cek_oid content content_oid parameters pd blob_in_envelope

  abbrev infos : Bytes
  infos = tlv (universal_tag set true) (tlv recipient_tag recipient)

  fits_enveloped : FitsLength (length enveloped)
  fits_enveloped =
      let t = context_tag 0 true in
      Fits-content sequence_tag enveloped (
        Fits-content t (tlv sequence_tag enveloped)
          (Fits-right (oid_bytes enveloped_data) (tlv t (tlv sequence_tag enveloped)) valid.size))

  fits_behind : FitsLength (length (infos ++ tlv sequence_tag inner_content))
  fits_behind = Fits-right (integer_tlv 2) (infos ++ tlv sequence_tag inner_content) fits_enveloped

  fits_recipient : FitsLength (length recipient)
  fits_recipient = Fits-content recipient_tag recipient (
      Fits-content (universal_tag set true) (tlv recipient_tag recipient)
        (Fits-left infos (tlv sequence_tag inner_content) fits_behind))

  fits_content : FitsLength (length inner_content)
  fits_content =
      Fits-content sequence_tag inner_content
        (Fits-right infos (tlv sequence_tag inner_content) fits_behind)

  recipient_read :
      unpack_recipient (tlv recipient_tag recipient)
      ≡ ok (recipient_of 4 (Identifier.layout k) software (attr_octets pd) cek_oid [] cek, [])
  recipient_read = rw append-nil at (
      unpack_recipient_lem 4 (Identifier.layout k) software (attr_octets pd) cek_oid [] cek
        (omega arith) software-valid valid.cek_algorithm fits_recipient [])

  content_read :
      unpack_encrypted_content (tlv sequence_tag inner_content)
      ≡ ok (content_of data_content content_oid parameters (inline_of blob_in_envelope content))
  content_read = rw append-nil at (
      unpack_encrypted_content_lem data_content content_oid parameters
        (inline_of blob_in_envelope content) [] data_content-valid valid.content_algorithm
        fits_content)

  abbrev enveloped_of : EnvelopedData
  enveloped_of = record {
    version = pos 2;
    recipient_infos =
        recipient_of 4 (Identifier.layout k) software (attr_octets pd) cek_oid [] cek ∷ [];
    encrypted_content_info =
        content_of data_content content_oid parameters (inline_of blob_in_envelope content);
  }

  enveloped_read : unpack_enveloped (tlv sequence_tag enveloped) ≡ ok enveloped_of
  enveloped_read = rw append-nil at (
      unpack_enveloped_lem recipient inner_content [] _ _ fits_enveloped recipient_read
        content_read)

  fits_descriptor : FitsLength (length (descriptor_octets software_systems sid_type pd))
  fits_descriptor =
      let kekid = kek_identifier_octets (Identifier.layout k) software (attr_octets pd) in
      let behind_kekid = algorithm_octets cek_oid [] ++ tlv octets_tag cek in
      let behind = tlv sequence_tag kekid ++ behind_kekid in
      let other = oid_bytes software ++ attr_octets pd in
      let fits1 = Fits-right (integer_tlv 4) behind fits_recipient in
      let fits2 =
        Fits-content sequence_tag kekid (Fits-left (tlv sequence_tag kekid) behind_kekid fits1) in
      let fits3 =
        Fits-content sequence_tag other
          (Fits-right (tlv octets_tag (Identifier.layout k)) (tlv sequence_tag other) fits2) in
      Fits-content sequence_tag (descriptor_octets software_systems sid_type pd)
        (Fits-right (oid_bytes software) (attr_octets pd) fits3)

  descriptor_read :
      unpack_descriptor (attr_octets pd)
      ≡ ok (record { content_type = oid_text software_systems; type = sid_type; value = pd })
  descriptor_read =
      unpack_descriptor_lem software_systems sid_type pd software_systems-valid sid_chars
        valid.descriptor fits_descriptor

  attr_read :
      descriptor_attr (
        some
          (record { key_attr_id = oid_text software; key_attr = optional_rest (attr_octets pd) }))
      ≡ ok (attr_octets pd)
  unfolding descriptor_attr
  attr_read = rw (
    software-text,
    bytes_eq_refl microsoft_software_oid,
    octets_or_none-optional_rest (attr_octets pd),
  )

  only_read :
      only_recipient enveloped_of
      ≡ ok (recipient_of 4 (Identifier.layout k) software (attr_octets pd) cek_oid [] cek)
  unfolding only_recipient
  only_read = refl

  module _ (digit : ℕ → Option ℕ) (sd_ok : target_sd digit pd ≡ ok sd) where
    -- What unpack makes of the structure, with the bytes behind it.
    unpack-octets :
        (rest : Bytes)
        → unpack digit (tlv sequence_tag octets ++ rest)
          ≡ ok (record (blob_of k sd cek cek_oid content content_oid parameters) {
            enc_content = content_or (inline_of blob_in_envelope content) rest;
          })
    unfolding unpack
    unpack-octets rest = rw (
      peek_header-tlv sequence_tag octets rest sequence_tag-IsTag valid.size,
      length-tlv_parts sequence_tag octets,
      take-append (tlv sequence_tag octets) rest,
      drop-append (tlv sequence_tag octets) rest,
      unpack_content_info_lem enveloped_data (tlv sequence_tag enveloped) enveloped_data-valid
          valid.size,
      enveloped_data-text,
      enveloped_read,
      only_read,
      Identifier.unpack-layout k valid.identifier,
      attr_read,
      descriptor_read,
      software_systems-text,
      sd_ok,
    )

    -- A blob whose key identifier fits, whose algorithms are object identifiers of two
    -- numbers of at most 39 that share an octet and any others, without parameters of the
    -- key's algorithm and with content parameters that are none or not empty, whose security
    -- descriptor is that of an encodable SID, and which has less than 2 ^ 64 octets:
    -- DPAPINGBlob.pack with that SID succeeds, with the content inside or behind the
    -- structure, and unpack returns the blob unchanged.
    pub unpack-pack_blob :
        (pack (blob_of k sd cek cek_oid content content_oid parameters) pd blob_in_envelope
          >>= unpack digit)
        ≡ ok (blob_of k sd cek cek_oid content content_oid parameters)
    unpack-pack_blob = rw (
      pack-octets k sd cek cek_oid content content_oid parameters pd blob_in_envelope valid,
      unpack-octets (if blob_in_envelope then [] else content),
      content_found blob_in_envelope content,
    )
