-- ===== src/Tests/Blob.antt =====
-- DPAPINGBlob at a concrete input.
use dpapi_ng.Base.{
  length, ℕ, ◌-◌, ◌≡◌, refl, arith, true, ◌&&◌, leb, ltb, Option, none, some, [], ◌∷◌,
  if◌then◌else◌, ok, ◌>>=◌,
}
use dpapi_ng.Bytes.{Bytes, to_bytes, to_bytes_be}
use dpapi_ng.Bytes.Text.{Text, text}
use dpapi_ng.Asn1.Named.{Oid}
use dpapi_ng.Asn1.Header.RoundTrip.{header_bytes, identifier_bytes}
use dpapi_ng.Asn1.Header.LengthOctets.{FitsLength, length_bytes, octet_count}
use dpapi_ng.Asn1.Header.{pack_identifier}
use dpapi_ng.Asn1.Validate.{tlv}
use dpapi_ng.Asn1.Integer.RoundTrip.{more_octets, octets_of, integer_tlv}
use dpapi_ng.Asn1.Oid.RoundTrip.{oid_tlv}
use dpapi_ng.Asn1.Named.{oid_bytes}
use dpapi_ng.Asn1.OctetNumber.RoundTrip.{high_octets, arc_bytes}
use dpapi_ng.Blob.KeyIdentifier.RoundTrip.{layout}
use dpapi_ng.Blob.DpapingBlob.{DpapingBlob, pack, unpack, target_sd}
use dpapi_ng.Blob.DpapingBlob.Pack.{blob_of, blob_octets, IsPackable}
use dpapi_ng.Blob.DpapingBlob.RoundTrip.{unpack-pack_blob}
use dpapi_ng.SecurityDescriptor.{
  parse_sid, sid_to_bytes, ace_to_bytes, acl_to_bytes, acl_part, sd_to_bytes,
}
use dpapi_ng.Tests.Structures.{identifier, identifier-IsValid, chars}

-- The digits of ASCII.
abbrev pub digit : ℕ → Option ℕ
digit c = if leb 48 c && ltb c 58 then some (c - 48) else none

abbrev pub user : Text
user = text "S-1-5-21-7"

-- AES256_WRAP and AES256_GCM
abbrev wrap : Oid
wrap = record { first = 2; second = 16; others = 840 ∷ 1 ∷ 101 ∷ 3 ∷ 4 ∷ 1 ∷ 45 ∷ [] }

abbrev gcm : Oid
gcm = record { first = 2; second = 16; others = 840 ∷ 1 ∷ 101 ∷ 3 ∷ 4 ∷ 1 ∷ 46 ∷ [] }

abbrev pub user_sd : Bytes
user_sd =
    1 ∷ 0 ∷ 4 ∷ 128 ∷ 72 ∷ 0 ∷ 0 ∷ 0 ∷ 84 ∷ 0 ∷ 0 ∷ 0 ∷ 0 ∷ 0 ∷ 0 ∷ 0 ∷ 20 ∷ 0 ∷ 0 ∷ 0 ∷ 2 ∷ 0 ∷ 52
    ∷ 0 ∷ 2 ∷ 0 ∷ 0 ∷ 0 ∷ 0 ∷ 0 ∷ 24 ∷ 0 ∷ 3 ∷ 0 ∷ 0 ∷ 0 ∷ 1 ∷ 2 ∷ 0 ∷ 0 ∷ 0 ∷ 0 ∷ 0 ∷ 5 ∷ 21 ∷ 0
    ∷ 0 ∷ 0 ∷ 7 ∷ 0 ∷ 0 ∷ 0 ∷ 0 ∷ 0 ∷ 20 ∷ 0 ∷ 2 ∷ 0 ∷ 0 ∷ 0 ∷ 1 ∷ 1 ∷ 0 ∷ 0 ∷ 0 ∷ 0 ∷ 0 ∷ 1 ∷ 0 ∷ 0
    ∷ 0 ∷ 0 ∷ 1 ∷ 1 ∷ 0 ∷ 0 ∷ 0 ∷ 0 ∷ 0 ∷ 5 ∷ 18 ∷ 0 ∷ 0 ∷ 0 ∷ 1 ∷ 1 ∷ 0 ∷ 0 ∷ 0 ∷ 0 ∷ 0 ∷ 5 ∷ 18
    ∷ 0 ∷ 0 ∷ 0 ∷ []

small : FitsLength (
    length
      (blob_octets identifier user_sd (9 ∷ 9 ∷ []) wrap (4 ∷ 5 ∷ []) gcm (48 ∷ 0 ∷ []) user true))
unfolding tlv header_bytes identifier_bytes length_bytes octet_count pack_identifier octets_of
    more_octets integer_tlv oid_tlv oid_bytes arc_bytes high_octets layout
small = omega arith

pub user_sd-ok : target_sd digit user ≡ ok user_sd
unfolding target_sd parse_sid sid_to_bytes to_bytes to_bytes_be ace_to_bytes acl_to_bytes acl_part
    sd_to_bytes
user_sd-ok = refl

packable : IsPackable identifier user_sd (9 ∷ 9 ∷ []) wrap (4 ∷ 5 ∷ []) gcm (48 ∷ 0 ∷ []) user true
packable = record {
  identifier = identifier-IsValid;
  cek_algorithm = record { first = omega arith; second = omega arith; octet = omega arith };
  content_algorithm = record { first = omega arith; second = omega arith; octet = omega arith };
  descriptor = chars user refl;
  size = small;
}

abbrev blob : DpapingBlob
blob = blob_of identifier user_sd (9 ∷ 9 ∷ []) wrap (4 ∷ 5 ∷ []) gcm (48 ∷ 0 ∷ [])

unpack-pack_blob_example : (pack blob user true >>= unpack digit) ≡ ok blob
unpack-pack_blob_example =
    unpack-pack_blob identifier user_sd (9 ∷ 9 ∷ []) wrap (4 ∷ 5 ∷ []) gcm (48 ∷ 0 ∷ []) user true
      packable digit user_sd-ok
