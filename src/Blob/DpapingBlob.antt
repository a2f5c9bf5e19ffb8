-- ===== src/Blob/DpapingBlob.antt =====
-- class DPAPINGBlob of src/dpapi_ng/_blob.py: the CMS structure of an encrypted value. The decimal
-- digits of Unicode are the parameter `digit`, as in SecurityDescriptor.
pub mod Layout
pub mod Pack
pub mod RoundTrip
pub mod Size
use dpapi_ng.Base.{
  ℕ, ◌+◌, Bool, true, false, not, ◌||◌, ◌==◌, Option, none, some, List, [], ◌∷◌, ◌++◌, take, drop,
  eq_ℤ, ℤ, pos, bytes_eq, if◌then◌else◌, Result, ok, err, ◌>>=◌, value_error,
}
use dpapi_ng.Bytes.{Bytes}
use dpapi_ng.Bytes.Text.{Text, text}
use dpapi_ng.Bytes.Utf8.{encode_utf8}
use dpapi_ng.Asn1.Tag.{Asn1Header, universal_tag, utf8_string}
use dpapi_ng.Asn1.Reader.{peek_header}
use dpapi_ng.Asn1.Writer.{
  Asn1Writer, root, extend, push_sequence, push_set, within, write_integer, write_octet_string,
  write_object_identifier, get_data,
}
use dpapi_ng.Pkcs7.{
  ContentInfo, EnvelopedData, KekRecipientInfo, OtherKeyAttribute, NcryptProtectionDescriptor,
  context_tag, unpack_content_info, unpack_enveloped, unpack_descriptor,
}
use dpapi_ng.Blob.KeyIdentifier as KeyIdentifier
use dpapi_ng.Blob.KeyIdentifier.{KeyIdentifier}
use dpapi_ng.SecurityDescriptor.{ace_to_bytes, sd_to_bytes}

pub record DpapingBlob : Type 0 where
  pub key_identifier : KeyIdentifier
  pub security_descriptor : Bytes
  pub enc_cek : Bytes
  pub enc_cek_algorithm : Text
  pub enc_cek_parameters : Option Bytes
  pub enc_content : Bytes
  pub enc_content_algorithm : Text
  pub enc_content_parameters : Option Bytes

abbrev pub microsoft_software_oid : Text
microsoft_software_oid = text "1.3.6.1.4.1.311.74.1"

abbrev pub microsoft_software_systems_oid : Text
microsoft_software_systems_oid = text "1.3.6.1.4.1.311.74.1.1"

-- CONTENT_TYPE_ENVELOPED_DATA_OID and CONTENT_TYPE_DATA_OID of EnvelopedData
abbrev pub enveloped_data_oid : Text
enveloped_data_oid = text "1.2.840.113549.1.7.3"

abbrev pub data_oid : Text
data_oid = text "1.2.840.113549.1.7.1"

-- The with blocks of pack, from the innermost one out: the type and the value of the descriptor
unfoldable pub write_sid : Text → Asn1Writer → Result Asn1Writer
write_sid protection_descriptor writer = do
  writer' ← write_octet_string (some (universal_tag utf8_string false)) (text "SID") writer
  b_descriptor ← encode_utf8 protection_descriptor
  write_octet_string (some (universal_tag utf8_string false)) b_descriptor writer'

-- originator_sequence
unfoldable pub write_descriptor : Text → Asn1Writer → Result Asn1Writer
write_descriptor protection_descriptor writer = do
  writer' ← write_object_identifier none microsoft_software_systems_oid writer
  within (push_sequence none)
      (within (push_sequence none) (within (push_sequence none) (write_sid protection_descriptor)))
      writer'

-- originator
unfoldable pub write_originator : Text → Asn1Writer → Result Asn1Writer
write_originator protection_descriptor writer = do
  writer' ← write_object_identifier none microsoft_software_oid writer
  within (push_sequence none) (write_descriptor protection_descriptor) writer'

-- key_agree_recipient_info
unfoldable pub write_kek_identifier : KeyIdentifier → Text → Asn1Writer → Result Asn1Writer
write_kek_identifier key_identifier protection_descriptor writer = do
  b_identifier ← KeyIdentifier.pack key_identifier
  writer' ← write_octet_string none b_identifier writer
  within (push_sequence none) (write_originator protection_descriptor) writer'

-- recipient_info
unfoldable pub write_recipient : DpapingBlob → Text → Asn1Writer → Result Asn1Writer
write_recipient blob protection_descriptor writer = do
  w1 ← write_integer none (pos 4) writer
  w2 ←
      within (push_sequence none) (write_kek_identifier blob.key_identifier protection_descriptor)
        w1
  w3 ← within (push_sequence none) (write_object_identifier none blob.enc_cek_algorithm) w2
  write_octet_string none blob.enc_cek w3

-- None and b"" both add nothing.
abbrev pub octets_or_none : Option Bytes → Bytes
octets_or_none none = []
octets_or_none (some bs) = bs

-- content_encryption_algorithm_identifier
unfoldable pub write_content_algorithm : Text → Option Bytes → Asn1Writer → Result Asn1Writer
write_content_algorithm algorithm parameters writer = do
  writer' ← write_object_identifier none algorithm writer
  ok (extend writer' (octets_or_none parameters))

abbrev pub write_content : Bool → Bytes → Asn1Writer → Result Asn1Writer
write_content blob_in_envelope enc_content writer =
    if blob_in_envelope
    then write_octet_string (some (context_tag 0 false)) enc_content writer
    else ok writer

-- encrypted_content_info
unfoldable pub write_content_info : DpapingBlob → Bool → Asn1Writer → Result Asn1Writer
write_content_info blob blob_in_envelope writer = do
  w1 ← write_object_identifier none data_oid writer
  w2 ←
      within (push_sequence none)
        (write_content_algorithm blob.enc_content_algorithm blob.enc_content_parameters) w1
  write_content blob_in_envelope blob.enc_content w2

-- enveloped_data
unfoldable pub write_enveloped : DpapingBlob → Text → Bool → Asn1Writer → Result Asn1Writer
write_enveloped blob protection_descriptor blob_in_envelope writer = do
  w1 ← write_integer none (pos 2) writer
  w2 ←
      within (push_set none)
        (within (push_sequence (some (context_tag 2 true)))
          (write_recipient blob protection_descriptor))
        w1
  within (push_sequence none) (write_content_info blob blob_in_envelope) w2

-- ContentInfo
unfoldable pub write_blob : DpapingBlob → Text → Bool → Asn1Writer → Result Asn1Writer
write_blob blob protection_descriptor blob_in_envelope writer = do
  writer' ← write_object_identifier none enveloped_data_oid writer
  within (push_sequence (some (context_tag 0 true)))
      (within (push_sequence none) (write_enveloped blob protection_descriptor blob_in_envelope))
      writer'

unfoldable pub pack : DpapingBlob → Text → Bool → Result Bytes
pack blob protection_descriptor blob_in_envelope = do
  writer ←
      within (push_sequence none) (write_blob blob protection_descriptor blob_in_envelope) (root [])
  octets ← get_data writer
  ok (octets ++ (if blob_in_envelope then [] else blob.enc_content))

-- The one recipient, of version 4
unfoldable pub only_recipient : EnvelopedData → Result KekRecipientInfo
only_recipient enveloped =
    if not (eq_ℤ enveloped.version (pos 2))
    then err value_error
    else elim enveloped.recipient_infos [
      | [] ↦ err value_error
      | info ∷ others ↦ elim others [
        | [] ↦ if not (eq_ℤ info.version (pos 4)) then err value_error else ok info
        | _ ∷ _ ↦ err value_error
      ]
    ]

-- The attribute that holds the protection descriptor: key_attr or b""
unfoldable pub descriptor_attr : Option OtherKeyAttribute → Result Bytes
descriptor_attr none = err value_error
descriptor_attr (some other) =
    if bytes_eq other.key_attr_id microsoft_software_oid
    then ok (octets_or_none other.key_attr)
    else err value_error

-- content or remaining_data
abbrev pub content_or : Option Bytes → Bytes → Bytes
content_or none remaining = remaining
content_or (some []) remaining = remaining
content_or (some (b ∷ bs)) remaining = b ∷ bs

module _ (digit : ℕ → Option ℕ) where
  -- The security descriptor of a SID
  unfoldable pub target_sd : Text → Result Bytes
  target_sd sid = do
    ace ← ace_to_bytes digit sid 3
    ace_world ← ace_to_bytes digit (text "S-1-1-0") 2
    sd_to_bytes digit (text "S-1-5-18") (text "S-1-5-18") none (some (ace ∷ ace_world ∷ []))

  unfoldable pub unpack : Bytes → Result DpapingBlob
  unpack view = do
    header ← peek_header view
    let consumed = header.tag_length + header.length
    content_info ← unpack_content_info (take consumed view) (some header)
    (if not (bytes_eq content_info.content_type enveloped_data_oid) then err value_error else do
      enveloped ← unpack_enveloped content_info.content
      kek_info ← only_recipient enveloped
      key_identifier ← KeyIdentifier.unpack kek_info.kekid.key_identifier
      b_descriptor ← descriptor_attr kek_info.kekid.other
      descriptor ← unpack_descriptor b_descriptor
      (if not (bytes_eq descriptor.content_type microsoft_software_systems_oid)
            || not (bytes_eq descriptor.type (text "SID"))
          then err value_error
          else do
            security_descriptor ← target_sd descriptor.value
            ok (record {
              key_identifier = key_identifier;
              security_descriptor = security_descriptor;
              enc_cek = kek_info.encrypted_key;
              enc_cek_algorithm = kek_info.key_encryption_algorithm.algorithm;
              enc_cek_parameters = kek_info.key_encryption_algorithm.parameters;
              enc_content =
                  content_or enveloped.encrypted_content_info.content (drop consumed view);
              enc_content_algorithm = enveloped.encrypted_content_info.algorithm.algorithm;
              enc_content_parameters = enveloped.encrypted_content_info.algorithm.parameters;
            })))
