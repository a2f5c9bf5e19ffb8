-- ===== src/Epm/Floor.antt =====
-- The floors of src/dpapi_ng/_epm.py. A protocol is its number, since FloorProtocol makes a member
-- of every number. A known floor that unpack returns keeps the two octet strings it was made of.
pub mod RoundTrip
use dpapi_ng.Base.{
  ℕ, ◌+◌, List, [], ◌∷◌, ◌++◌, slice, length, index, ◌==◌, if◌then◌else◌, Result, ok, ◌>>=◌,
}
use dpapi_ng.Bytes.{Bytes, join, from_le, from_be, to_bytes, to_bytes_be}
use dpapi_ng.Bytes.Uuid.{Uuid, bytes_le, uuid_from_bytes_le}

abbrev pub tcp : ℕ
tcp = 7

abbrev pub ip : ℕ
ip = 9

abbrev pub rpc_connection_oriented : ℕ
rpc_connection_oriented = 11

abbrev pub uuid_id : ℕ
uuid_id = 13

-- The class of a floor with its own fields: Floor itself, and the registered classes
pub data FloorKind : Type 0 where
  plain_floor : ℕ → FloorKind
  tcp_floor : ℕ → FloorKind
  ip_floor : ℕ → FloorKind
  rpc_floor : ℕ → FloorKind
  uuid_floor : Uuid → ℕ → ℕ → FloorKind

pub record Floor : Type 0 where
  pub kind : FloorKind
  pub lhs : Bytes
  pub rhs : Bytes

-- Floor.pack
unfoldable pub pack_fields : ℕ → Bytes → Bytes → Result Bytes
pack_fields protocol lhs rhs = do
  lhs_len ← to_bytes 2 (length lhs + 1)
  b_protocol ← to_bytes 1 protocol
  rhs_len ← to_bytes 2 (length rhs)
  ok (join (lhs_len ∷ b_protocol ∷ lhs ∷ rhs_len ∷ rhs ∷ []))

-- The pack of the class
unfoldable pub pack_kind : FloorKind → Bytes → Bytes → Result Bytes
pack_kind (plain_floor protocol) lhs rhs = pack_fields protocol lhs rhs
pack_kind (tcp_floor port) lhs rhs = do b_port ← to_bytes_be 2 port; pack_fields tcp [] b_port
pack_kind (ip_floor addr) lhs rhs = do b_addr ← to_bytes_be 4 addr; pack_fields ip [] b_addr
pack_kind (rpc_floor version_minor) lhs rhs = do
  b_minor ← to_bytes 2 version_minor
  pack_fields rpc_connection_oriented [] b_minor
pack_kind (uuid_floor uuid version version_minor) lhs rhs = do
  b_version ← to_bytes 2 version
  b_minor ← to_bytes 2 version_minor
  pack_fields uuid_id (bytes_le uuid ++ b_version) b_minor

abbrev pub pack_floor : Floor → Result Bytes
pack_floor f = pack_kind f.kind f.lhs f.rhs

-- _FLOOR_TYPE_REGISTRY with the _unpack of each class
unfoldable pub unpack_kind : ℕ → Bytes → Bytes → Result FloorKind
unpack_kind protocol lhs rhs =
    if protocol == tcp
    then ok (tcp_floor (from_be rhs))
    else if protocol == ip
    then ok (ip_floor (from_be rhs))
    else if protocol == rpc_connection_oriented
    then ok (rpc_floor (from_le rhs))
    else if protocol == uuid_id
    then (do
      object_uuid ← uuid_from_bytes_le (slice 0 16 lhs)
      ok (uuid_floor object_uuid (from_le (slice 16 18 lhs)) (from_le rhs)))
    else ok (plain_floor protocol)

-- Floor.unpack
unfoldable pub unpack_floor : Bytes → Result Floor
unpack_floor view = do
  protocol ← index 2 view
  let lhs_len = from_le (slice 0 2 view)
  let lhs = slice 3 (lhs_len + 2) view
  let offset = lhs_len + 2
  let rhs_len = from_le (slice offset (offset + 2) view)
  let rhs = slice (offset + 2) (offset + rhs_len + 2) view
  kind ← unpack_kind protocol lhs rhs
  ok (record { kind = kind; lhs = lhs; rhs = rhs })
