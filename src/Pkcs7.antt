-- ===== src/Pkcs7.antt =====
-- src/dpapi_ng/_pkcs7.py: the CMS structures around an encrypted value. An unpack that takes a reader
-- takes the reader's view and returns it advanced. RecipientInfo has one subclass, KekRecipientInfo.

pub mod Layout
pub mod Recipient
pub mod Enveloped
pub mod Optional
use dpapi_ng.Base.{
  ℕ, zero, suc, ◌+◌, Bool, true, false, not, ◌&&◌, ◌==◌, Option, none, some, List, [], ◌∷◌, length,
  eq_ℤ, ℤ, pos, if◌then◌else◌, Result, ok, err, ◌>>=◌, not_implemented, out_of_fuel,
}
use dpapi_ng.Bytes.{Bytes}
use dpapi_ng.Bytes.Text.{Text}
use dpapi_ng.Asn1.Tag.{Asn1Tag, Asn1Header, universal, context_specific, sequence, generalized_time}
use dpapi_ng.Asn1.Reader.{
  has_data, peek_header, get_remaining_data, read_generalized_time, read_integer,
  read_object_identifier, read_octet_string, read_sequence, read_set, read_utf8_string,
}

pub record AlgorithmIdentifier : Type 0 where
  pub algorithm : Text
  pub parameters : Option Bytes

pub record OtherKeyAttribute : Type 0 where
  pub key_attr_id : Text
  pub key_attr : Option Bytes

pub record KekIdentifier : Type 0 where
  pub key_identifier : Bytes
  pub date : Option Text
  pub other : Option OtherKeyAttribute

pub record KekRecipientInfo : Type 0 where
  pub version : ℤ
  pub kekid : KekIdentifier
  pub key_encryption_algorithm : AlgorithmIdentifier
  pub encrypted_key : Bytes

pub record EncryptedContentInfo : Type 0 where
  pub content_type : Text
  pub algorithm : AlgorithmIdentifier
  pub content : Option Bytes

pub record EnvelopedData : Type 0 where
  pub version : ℤ
  pub recipient_infos : List KekRecipientInfo
  pub encrypted_content_info : EncryptedContentInfo

pub record ContentInfo : Type 0 where
  pub content_type : Text
  pub content : Bytes

pub record NcryptProtectionDescriptor : Type 0 where
  pub content_type : Text
  pub type : Text
  pub value : Text

abbrev pub context_tag : ℕ → Bool → Asn1Tag
context_tag number is_constructed = record {
  tag_class = context_specific;
  tag_number = number;
  is_constructed = is_constructed;
}

unfoldable pub unpack_content_info : Bytes → Option Asn1Header → Result ContentInfo
unpack_content_info view header = do
  (reader, _) ← read_sequence none header view
  (content_type, reader') ← read_object_identifier none none reader
  (content, _) ← read_octet_string (some (context_tag 0 true)) none reader'
  ok (record { content_type = content_type; content = content })

-- if reader: get_remaining_data()
abbrev pub optional_rest : Bytes → Option Bytes
optional_rest [] = none
optional_rest (b ∷ view) = some (b ∷ view)

unfoldable pub unpack_algorithm : Bytes → Result (AlgorithmIdentifier × Bytes)
unpack_algorithm view = do
  (reader, view') ← read_sequence none none view
  (algorithm, reader') ← read_object_identifier none none reader
  ok (record { algorithm = algorithm; parameters = optional_rest reader' }, view')

unfoldable pub unpack_other : Bytes → Option Asn1Header → Result (OtherKeyAttribute × Bytes)
unpack_other view header = do
  (reader, view') ← read_sequence none header view
  (key_attr_id, reader') ← read_object_identifier none none reader
  ok (record { key_attr_id = key_attr_id; key_attr = optional_rest reader' }, view')

abbrev is_universal : Asn1Header → ℕ → Bool
is_universal header number = header.tag.tag_class == universal && header.tag.tag_number == number

-- The date where the next header is a GENERALIZED_TIME, with the header behind it
unfoldable pub unpack_date : Asn1Header → Bytes → Result (Option Text × Asn1Header × Bytes)
unpack_date header reader =
    if is_universal header generalized_time
    then (do
      (date, reader') ← read_generalized_time none (some header) reader
      header' ← peek_header reader'
      ok (some date, header', reader'))
    else ok (none, header, reader)

unfoldable pub unpack_optional_other : Asn1Header → Bytes → Result (Option OtherKeyAttribute)
unpack_optional_other header reader =
    if is_universal header sequence
    then (do (other, _) ← unpack_other reader (some header); ok (some other))
    else ok none

unfoldable pub unpack_kek_identifier : Bytes → Result (KekIdentifier × Bytes)
unpack_kek_identifier view = do
  (reader, view') ← read_sequence none none view
  (key_identifier, reader') ← read_octet_string none none reader
  header ← peek_header reader'
  (date, header', reader'') ← unpack_date header reader'
  other ← unpack_optional_other header' reader''
  ok (record { key_identifier = key_identifier; date = date; other = other }, view')

unfoldable pub unpack_kek_recipient : Bytes → Option Asn1Header → Result (KekRecipientInfo × Bytes)
unpack_kek_recipient view header = do
  (r0, view') ← read_sequence none header view
  (version, r1) ← read_integer none none r0
  (kekid, r2) ← unpack_kek_identifier r1
  (algorithm, r3) ← unpack_algorithm r2
  (encrypted_key, _) ← read_octet_string none none r3
  ok (
    record {
      version = version;
      kekid = kekid;
      key_encryption_algorithm = algorithm;
      encrypted_key = encrypted_key;
    },
    view',
  )

unfoldable pub unpack_recipient : Bytes → Result (KekRecipientInfo × Bytes)
unpack_recipient view = do
  header ← peek_header view
  (if header.tag.tag_class == context_specific && header.tag.tag_number == 2
      then unpack_kek_recipient view (some header)
      else err not_implemented)

-- while recipient_infos_reader
unfoldable pub unpack_recipients : ℕ → Bytes → Result (List KekRecipientInfo)
unpack_recipients fuel [] = ok []
unpack_recipients zero (b ∷ view) = err out_of_fuel
unpack_recipients (suc fuel) (b ∷ view) = do
  (info, view') ← unpack_recipient (b ∷ view)
  infos ← unpack_recipients fuel view'
  ok (info ∷ infos)

unfoldable pub unpack_content : Bytes → Result (Option Bytes)
unpack_content [] = ok none
unpack_content (b ∷ reader) = do
  (content, _) ← read_octet_string (some (context_tag 0 false)) none (b ∷ reader)
  ok (some content)

unfoldable pub unpack_encrypted_content : Bytes → Result EncryptedContentInfo
unpack_encrypted_content view = do
  (r0, _) ← read_sequence none none view
  (content_type, r1) ← read_object_identifier none none r0
  (algorithm, r2) ← unpack_algorithm r1
  content ← unpack_content r2
  ok (record { content_type = content_type; algorithm = algorithm; content = content })

-- Each recipient takes an octet at least.
unfoldable pub unpack_enveloped : Bytes → Result EnvelopedData
unpack_enveloped view = do
  (r0, _) ← read_sequence none none view
  (version, r1) ← read_integer none none r0
  (if not (eq_ℤ version (pos 2)) then err not_implemented else do
    (infos_reader, r2) ← read_set none none r1
    infos ← unpack_recipients (length infos_reader) infos_reader
    enc_content ← unpack_encrypted_content r2
    ok (record {
      version = version;
      recipient_infos = infos;
      encrypted_content_info = enc_content;
    }))

unfoldable pub unpack_descriptor : Bytes → Result NcryptProtectionDescriptor
unpack_descriptor view = do
  (r0, _) ← read_sequence none none view
  (content_type, r1) ← read_object_identifier none none r0
  (s1, _) ← read_sequence none none r1
  (s2, _) ← read_sequence none none s1
  (s3, _) ← read_sequence none none s2
  (value_type, s4) ← read_utf8_string none none s3
  (value, _) ← read_utf8_string none none s4
  ok (record { content_type = content_type; type = value_type; value = value })
