-- ===== src/Pkcs7/Optional.antt =====
-- KEKIdentifier.unpack of src/dpapi_ng/_pkcs7.py on an identifier without its optional parts.
use dpapi_ng.Base.{◌≡◌, none, append-nil, [], ◌++◌, length, ok, err, not_enough_data}
use dpapi_ng.Bytes.{Bytes}
use dpapi_ng.Asn1.Header.{read_header}
use dpapi_ng.Asn1.Header.LengthOctets.{FitsLength}
use dpapi_ng.Asn1.Validate.{tlv, Fits-content}
use dpapi_ng.Asn1.Reader as Reader
use dpapi_ng.Pkcs7.{unpack_kek_identifier}
use dpapi_ng.Pkcs7.Layout.{sequence_tag, octets_tag, sequence_lem, octets_lem}

-- A KEKIdentifier shorter than 2 ^ 64 that has a key identifier and neither a date nor another
-- attribute is a NotEnougData of KEKIdentifier.unpack, whatever follows it.
pub unpack_kek_identifier-bare :
    (identifier rest : Bytes)
    → FitsLength (length (tlv octets_tag identifier))
    → unpack_kek_identifier (tlv sequence_tag (tlv octets_tag identifier) ++ rest)
      ≡ err not_enough_data
unfolding unpack_kek_identifier Reader.peek_header read_header
unpack_kek_identifier-bare identifier rest fits =
    let read : Reader.read_octet_string none none (tlv octets_tag identifier)
        ≡ ok (identifier, []) =
      rw append-nil at (octets_lem identifier [] (Fits-content octets_tag identifier fits)) in
    rw (sequence_lem (tlv octets_tag identifier) rest fits, read)
