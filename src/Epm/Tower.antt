-- ===== src/Epm/Tower.antt =====
-- The towers of src/dpapi_ng/_epm.py: lists of floors.
pub mod RoundTrip
use dpapi_ng.Base.{
  ℕ, zero, suc, ◌+◌, Option, none, some, List, [], ◌∷◌, ◌++◌, length, replicate, slice, drop,
  bytes_eq, map_result, Result, ok, ◌>>=◌, if◌then◌else◌,
}
use dpapi_ng.Bytes.{Bytes, join, from_le, to_bytes}
use dpapi_ng.Bytes.Uuid.{Uuid, bytes_le, uuid_from_bytes_le}
use dpapi_ng.Rpc.Syntax.{SyntaxId}
use dpapi_ng.Epm.Floor.{
  Floor, FloorKind, uuid_floor, rpc_floor, tcp_floor, ip_floor, pack_floor, unpack_floor,
}

-- A known floor as its constructor makes it
abbrev pub new_floor : FloorKind → Floor
new_floor kind = record { kind = kind; lhs = []; rhs = [] }

unfoldable pub build_tcpip_tower : SyntaxId → SyntaxId → ℕ → ℕ → List Floor
build_tcpip_tower service data_rep port addr =
    new_floor (uuid_floor service.uuid service.version service.version_minor)
    ∷ new_floor (uuid_floor data_rep.uuid data_rep.version data_rep.version_minor)
    ∷ new_floor (rpc_floor 0)
    ∷ new_floor (tcp_floor port)
    ∷ new_floor (ip_floor addr)
    ∷ []

-- b_tower
unfoldable pub pack_tower : List Floor → Result Bytes
pack_tower tower = do
  floor_len ← to_bytes 2 (length tower)
  floors ← map_result pack_floor tower
  ok (floor_len ++ join floors)

-- `for _ in range(floor_len)`: the floors, and the view behind them
unfoldable pub unpack_floors : ℕ → Bytes → Result (List Floor × Bytes)
unpack_floors zero view = ok ([], view)
unpack_floors (suc n) view = do
  floor ← unpack_floor view
  (tower, rest) ← unpack_floors n (drop (length floor.lhs + length floor.rhs + 5) view)
  ok (floor ∷ tower, rest)

-- An ept_lookup_handle_t
abbrev pub EntryHandle : Type 0
EntryHandle = Option (ℕ × Uuid)

unfoldable pub pack_entry_handle : EntryHandle → Result Bytes
pack_entry_handle none = ok (replicate 20 0)
pack_entry_handle (some (attributes, uuid)) = do
  b_attributes ← to_bytes 4 attributes
  ok (b_attributes ++ bytes_le uuid)

unfoldable pub unpack_entry_handle : Bytes → Result EntryHandle
unpack_entry_handle view = if bytes_eq (slice 0 20 view) (replicate 20 0) then ok none else (do
  uuid ← uuid_from_bytes_le (slice 4 20 view)
  ok (some (from_le (slice 0 4 view), uuid)))
