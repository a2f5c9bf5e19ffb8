-- ===== src/Rpc/Pdu.antt =====
-- DataRep, PDUHeader and SecTrailer of src/dpapi_ng/_rpc/_pdu.py: what all packets share.
pub mod RoundTrip
use dpapi_ng.Base.{ℕ, ◌+◌, ◌*◌, ◌/◌, ◌%◌, List, [], ◌∷◌, slice, drop, index, Result, ok, err, ◌>>=◌}
use dpapi_ng.Bytes.{Bytes, join, from_le, to_bytes}
use dpapi_ng.Rpc.Enums.{
  IntegerRep, integer_rep_value, integer_rep_of, CharacterRep, character_rep_value,
  character_rep_of, FloatingPointRep, floating_point_rep_value, floating_point_rep_of, PacketType,
  packet_type_value, packet_type_of, SecurityProvider, security_provider_value,
  security_provider_of, AuthenticationLevel, authentication_level_value, authentication_level_of,
}

pub record DataRep : Type 0 where
  pub byte_order : IntegerRep
  pub character : CharacterRep
  pub floating_point : FloatingPointRep

-- byte_order << 4 | character, of two values below 16
abbrev pub first_octet : DataRep → ℕ
first_octet d = integer_rep_value d.byte_order * 16 + character_rep_value d.character

-- DataRep.pack
unfoldable pub pack_data_rep : DataRep → Result Bytes
pack_data_rep d = do
  b_first ← to_bytes 1 (first_octet d)
  b_floating ← to_bytes 1 (floating_point_rep_value d.floating_point)
  ok (join (b_first ∷ b_floating ∷ (0 ∷ 0 ∷ []) ∷ []))

-- DataRep.unpack: `v & 0b11110000 >> 4` and `v & 0b00001111` of a byte
unfoldable pub unpack_data_rep : Bytes → Result DataRep
unpack_data_rep view = do
  first ← index 0 view
  byte_order ← integer_rep_of (first / 16)
  character ← character_rep_of (first % 16)
  second ← index 1 view
  floating_point ← floating_point_rep_of second
  ok (record { byte_order = byte_order; character = character; floating_point = floating_point })

-- The flags of a packet are the number of an IntFlag, which takes every number.
pub record PduHeader : Type 0 where
  pub version : ℕ
  pub version_minor : ℕ
  pub packet_type : PacketType
  pub packet_flags : ℕ
  pub data_rep : DataRep
  pub frag_len : ℕ
  pub auth_len : ℕ
  pub call_id : ℕ

-- PDUHeader.pack
unfoldable pub pack_header : PduHeader → Result Bytes
pack_header h = do
  b_version ← to_bytes 1 h.version
  b_version_minor ← to_bytes 1 h.version_minor
  b_packet_type ← to_bytes 1 (packet_type_value h.packet_type)
  b_packet_flags ← to_bytes 1 h.packet_flags
  b_data_rep ← pack_data_rep h.data_rep
  b_frag_len ← to_bytes 2 h.frag_len
  b_auth_len ← to_bytes 2 h.auth_len
  b_call_id ← to_bytes 4 h.call_id
  ok (
      join (
        b_version ∷ b_version_minor ∷ b_packet_type ∷ b_packet_flags ∷ b_data_rep ∷ b_frag_len
        ∷ b_auth_len ∷ b_call_id ∷ []))

-- PDUHeader.unpack
unfoldable pub unpack_header : Bytes → Result PduHeader
unpack_header view = do
  version ← index 0 view
  version_minor ← index 1 view
  b_packet_type ← index 2 view
  packet_type ← packet_type_of b_packet_type
  packet_flags ← index 3 view
  data_rep ← unpack_data_rep (slice 4 8 view)
  ok (record {
    version = version;
    version_minor = version_minor;
    packet_type = packet_type;
    packet_flags = packet_flags;
    data_rep = data_rep;
    frag_len = from_le (slice 8 10 view);
    auth_len = from_le (slice 10 12 view);
    call_id = from_le (slice 12 16 view);
  })

-- `type` and `level` of the source, which names the fields so.
pub record SecTrailer : Type 0 where
  pub provider : SecurityProvider
  pub level : AuthenticationLevel
  pub pad_length : ℕ
  pub context_id : ℕ
  pub auth_value : Bytes

-- SecTrailer.pack
unfoldable pub pack_trailer : SecTrailer → Result Bytes
pack_trailer t = do
  b_type ← to_bytes 1 (security_provider_value t.provider)
  b_level ← to_bytes 1 (authentication_level_value t.level)
  b_pad_length ← to_bytes 1 t.pad_length
  b_context_id ← to_bytes 4 t.context_id
  ok (join (b_type ∷ b_level ∷ b_pad_length ∷ (0 ∷ []) ∷ b_context_id ∷ t.auth_value ∷ []))

-- SecTrailer.unpack
unfoldable pub unpack_trailer : Bytes → Result SecTrailer
unpack_trailer view = do
  b_type ← index 0 view
  provider ← security_provider_of b_type
  b_level ← index 1 view
  level ← authentication_level_of b_level
  pad_length ← index 2 view
  ok (record {
    provider = provider;
    level = level;
    pad_length = pad_length;
    context_id = from_le (slice 4 8 view);
    auth_value = drop 8 view;
  })
