-- ===== src/Pkcs7/Recipient.antt =====
-- KEKRecipientInfo of src/dpapi_ng/_pkcs7.py: the octets and what unpack makes of them.
use dpapi_ng.Base.{
  ℕ, ◌<◌, ◌≡◌, refl, arith, true, none, some, [], ◌++◌, append-nil, length, ok, pos,
}
use dpapi_ng.Bytes.{Bytes}
use dpapi_ng.Asn1.Tag.{Asn1Tag}
use dpapi_ng.Asn1.Header.LengthOctets.{FitsLength}
use dpapi_ng.Asn1.Header.RoundTrip.{header_of}
use dpapi_ng.Asn1.Validate.{tlv, Fits-content, Fits-left, Fits-right}
use dpapi_ng.Asn1.Integer.RoundTrip.{integer_tlv}
use dpapi_ng.Asn1.Named as Named
use dpapi_ng.Asn1.Named.{Oid, oid_text, oid_bytes, reader-oid}
use dpapi_ng.Asn1.Reader as Reader
use dpapi_ng.Asn1.Reader.Laws.{peek_header-tlv, read_sequence-tlv, reader-integer}
use dpapi_ng.Pkcs7.{
  AlgorithmIdentifier, KekRecipientInfo, context_tag, optional_rest, unpack_kek_recipient,
  unpack_recipient,
}
use dpapi_ng.Pkcs7.Layout.{
  sequence_tag, octets_tag, context_tag-IsTag, octets_lem, unpack_algorithm_lem,
  kek_identifier_octets, unpack_kek_identifier_lem,
}

abbrev pub algorithm_octets : Oid → Bytes → Bytes
algorithm_octets o parameters = tlv sequence_tag (oid_bytes o ++ parameters)

abbrev pub algorithm_of : Oid → Bytes → AlgorithmIdentifier
algorithm_of o parameters = record { algorithm = oid_text o; parameters = optional_rest parameters }

-- A small version number.
pub version_lem :
    (n : ℕ) (rest : Bytes)
    → n < 256
    → Reader.read_integer none none (integer_tlv n ++ rest) ≡ ok (pos n, rest)
version_lem n rest h = reader-integer n 1 rest (omega arith) (omega arith)

abbrev pub recipient_tag : Asn1Tag
recipient_tag = context_tag 2 true

module _ (n : ℕ) (identifier : Bytes) (attr_id : Oid) (attr : Bytes) (o : Oid)
    (parameters key : Bytes) where
  abbrev pub kekid_octets : Bytes
  kekid_octets = tlv sequence_tag (kek_identifier_octets identifier attr_id attr)

  abbrev pub recipient_octets : Bytes
  recipient_octets =
      integer_tlv n ++ (kekid_octets ++ (algorithm_octets o parameters ++ tlv octets_tag key))

  abbrev pub recipient_of : KekRecipientInfo
  recipient_of = record {
    version = pos n;
    kekid = record {
      key_identifier = identifier;
      date = none;
      other = some (record { key_attr_id = oid_text attr_id; key_attr = optional_rest attr });
    };
    key_encryption_algorithm = algorithm_of o parameters;
    encrypted_key = key;
  }

  module _ (small : n < 256) (attr_ok : Named.IsValid attr_id) (o_ok : Named.IsValid o)
      (fits : FitsLength (length recipient_octets)) where
    abbrev behind_version : Bytes
    behind_version = kekid_octets ++ (algorithm_octets o parameters ++ tlv octets_tag key)

    abbrev behind_kekid : Bytes
    behind_kekid = algorithm_octets o parameters ++ tlv octets_tag key

    fits1 : FitsLength (length behind_version)
    fits1 = Fits-right (integer_tlv n) behind_version fits

    fits2 : FitsLength (length behind_kekid)
    fits2 = Fits-right kekid_octets behind_kekid fits1

    fits_kekid : FitsLength (length (kek_identifier_octets identifier attr_id attr))
    fits_kekid =
        Fits-content sequence_tag (kek_identifier_octets identifier attr_id attr)
          (Fits-left kekid_octets behind_kekid fits1)

    fits_algorithm : FitsLength (length (oid_bytes o ++ parameters))
    fits_algorithm =
        Fits-content sequence_tag (oid_bytes o ++ parameters)
          (Fits-left (algorithm_octets o parameters) (tlv octets_tag key) fits2)

    fits_key : FitsLength (length key)
    fits_key =
        Fits-content octets_tag key
          (Fits-right (algorithm_octets o parameters) (tlv octets_tag key) fits2)

    key_lem : Reader.read_octet_string none none (tlv octets_tag key) ≡ ok (key, [])
    key_lem = rw append-nil at (octets_lem key [] fits_key)

    pub unpack_recipient_lem :
        (rest : Bytes)
        → unpack_recipient (tlv recipient_tag recipient_octets ++ rest) ≡ ok (recipient_of, rest)
    unfolding unpack_recipient unpack_kek_recipient
    unpack_recipient_lem rest = rw (
      peek_header-tlv recipient_tag recipient_octets rest (context_tag-IsTag 2 true) fits,
      read_sequence-tlv recipient_tag recipient_octets rest (context_tag-IsTag 2 true) fits none
          (some (header_of recipient_tag (length recipient_octets))) refl refl,
      version_lem n behind_version small,
      unpack_kek_identifier_lem identifier attr_id attr behind_kekid attr_ok fits_kekid,
      unpack_algorithm_lem o o_ok parameters (tlv octets_tag key) fits_algorithm,
      key_lem,
    )
