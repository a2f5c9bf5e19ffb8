-- ===== src/Rpc/Pdu/RoundTrip.antt =====
-- DataRep, PDUHeader and SecTrailer of src/dpapi_ng/_rpc/_pdu.py: the bytes of pack, read by
-- unpack.
use dpapi_ng.Base.{
  ◌+◌, ◌*◌, ◌/◌, ◌%◌, ◌^◌, ◌<◌, ◌≡◌, refl, arith, [], ◌∷◌, ◌++◌, append-nil, length, ok,
}
use dpapi_ng.Bytes.{Bytes, le_bytes}
use dpapi_ng.Bytes.RoundTrip.{from_le-le_bytes, to_bytes-ok, to_bytes-byte}
use dpapi_ng.Rpc.Enums.{
  IntegerRep, big_endian, little_endian, integer_rep_value, integer_rep_of, CharacterRep,
  character_rep_value, character_rep_of, ascii, ebcdic, floating_point_rep_value, packet_type_value,
  security_provider_value, authentication_level_value,
}
use dpapi_ng.Rpc.Enums.Members.{
  floating_point_rep_of-value, floating_point_rep_small, packet_type_of-value, packet_type_small,
  security_provider_of-value, security_provider_small, authentication_level_of-value,
  authentication_level_small,
}
use dpapi_ng.Rpc.Pdu.{
  DataRep, first_octet, pack_data_rep, unpack_data_rep, PduHeader, pack_header, unpack_header,
  SecTrailer, pack_trailer, unpack_trailer,
}

abbrev pub data_rep_layout : DataRep → Bytes
data_rep_layout d = first_octet d ∷ floating_point_rep_value d.floating_point ∷ 0 ∷ 0 ∷ []

octet_small :
    (b : IntegerRep) (c : CharacterRep) → integer_rep_value b * 16 + character_rep_value c < 256
octet_small big_endian ascii = omega arith
octet_small big_endian ebcdic = omega arith
octet_small little_endian ascii = omega arith
octet_small little_endian ebcdic = omega arith

-- The two halves of the first octet.
octet-read :
    (b : IntegerRep) (c : CharacterRep)
    → (integer_rep_of ((integer_rep_value b * 16 + character_rep_value c) / 16) ≡ ok b)
      × (character_rep_of ((integer_rep_value b * 16 + character_rep_value c) % 16) ≡ ok c)
unfolding integer_rep_of character_rep_of
octet-read big_endian ascii = (refl, refl)
octet-read big_endian ebcdic = (refl, refl)
octet-read little_endian ascii = (refl, refl)
octet-read little_endian ebcdic = (refl, refl)

pub pack_data_rep-layout : (d : DataRep) → pack_data_rep d ≡ ok (data_rep_layout d)
unfolding pack_data_rep
pack_data_rep-layout d = rw (
  to_bytes-byte (first_octet d) (octet_small d.byte_order d.character),
  to_bytes-byte _ (floating_point_rep_small d.floating_point),
)

pub unpack_data_rep-layout : (d : DataRep) → unpack_data_rep (data_rep_layout d) ≡ ok d
unfolding unpack_data_rep
unpack_data_rep-layout d =
    let (b, c) = octet-read d.byte_order d.character in
    rw (b, c, floating_point_rep_of-value d.floating_point)

pub record FitsHeader (h : PduHeader) : Type 0 where
  pub version : h.version < 256
  pub version_minor : h.version_minor < 256
  pub packet_flags : h.packet_flags < 256
  pub frag_len : h.frag_len < 256 ^ 2
  pub auth_len : h.auth_len < 256 ^ 2
  pub call_id : h.call_id < 256 ^ 4

unfoldable pub header_layout : PduHeader → Bytes
header_layout h =
    h.version
    ∷ h.version_minor
    ∷ packet_type_value h.packet_type
    ∷ h.packet_flags
    ∷ (data_rep_layout h.data_rep
        ++ (le_bytes 2 h.frag_len ++ (le_bytes 2 h.auth_len ++ le_bytes 4 h.call_id)))

pub length-header_layout : (h : PduHeader) → length (header_layout h) ≡ 16
unfolding header_layout
length-header_layout h = refl

pub pack_header-layout : (h : PduHeader) → FitsHeader h → pack_header h ≡ ok (header_layout h)
unfolding pack_header header_layout
pack_header-layout h f = rw (
  to_bytes-byte h.version f.version,
  to_bytes-byte h.version_minor f.version_minor,
  to_bytes-byte _ (packet_type_small h.packet_type),
  to_bytes-byte h.packet_flags f.packet_flags,
  pack_data_rep-layout h.data_rep,
  to_bytes-ok 2 h.frag_len f.frag_len,
  to_bytes-ok 2 h.auth_len f.auth_len,
  to_bytes-ok 4 h.call_id f.call_id,
)

pub unpack_header-layout :
    (h : PduHeader) (rest : Bytes) → FitsHeader h → unpack_header (header_layout h ++ rest) ≡ ok h
unfolding unpack_header header_layout
unpack_header-layout h rest f = rw (
  packet_type_of-value h.packet_type,
  unpack_data_rep-layout h.data_rep,
  from_le-le_bytes 2 h.frag_len f.frag_len,
  from_le-le_bytes 2 h.auth_len f.auth_len,
  from_le-le_bytes 4 h.call_id f.call_id,
)

pub record FitsTrailer (t : SecTrailer) : Type 0 where
  pub pad_length : t.pad_length < 256
  pub context_id : t.context_id < 256 ^ 4

unfoldable pub trailer_layout : SecTrailer → Bytes
trailer_layout t =
    security_provider_value t.provider
    ∷ authentication_level_value t.level
    ∷ t.pad_length
    ∷ 0
    ∷ (le_bytes 4 t.context_id ++ t.auth_value)

pub length-trailer_layout : (t : SecTrailer) → length (trailer_layout t) ≡ length t.auth_value + 8
unfolding trailer_layout
length-trailer_layout t = omega arith

pub pack_trailer-layout : (t : SecTrailer) → FitsTrailer t → pack_trailer t ≡ ok (trailer_layout t)
unfolding pack_trailer trailer_layout
pack_trailer-layout t f = rw (
  to_bytes-byte _ (security_provider_small t.provider),
  to_bytes-byte _ (authentication_level_small t.level),
  to_bytes-byte t.pad_length f.pad_length,
  to_bytes-ok 4 t.context_id f.context_id,
  append-nil,
)

pub unpack_trailer-layout :
    (t : SecTrailer) → FitsTrailer t → unpack_trailer (trailer_layout t) ≡ ok t
unfolding unpack_trailer trailer_layout
unpack_trailer-layout t f = rw (
  security_provider_of-value t.provider,
  authentication_level_of-value t.level,
  from_le-le_bytes 4 t.context_id f.context_id,
)
