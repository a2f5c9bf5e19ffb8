-- ===== src/Epm/Tower/RoundTrip.antt =====
-- The towers and the entry handle of src/dpapi_ng/_epm.py: what pack writes, read by unpack.
use dpapi_ng.Base.{
  ◌^◌, ◌<◌, ◌≡◌, refl, false, List, [], ◌∷◌, ◌++◌, append_assoc, length, map, some, none, replicate,
  slice, drop, bytes_eq, ok, All,
}
use dpapi_ng.Bytes.{Bytes, join, le_bytes, from_le}
use dpapi_ng.Bytes.RoundTrip.{from_le-le_bytes, to_bytes-ok}
use dpapi_ng.Bytes.Uuid.{IsUuid, bytes_le, uuid_from_bytes_le-bytes_le}
use dpapi_ng.Rpc.Syntax.RoundTrip.{map_result-layout}
use dpapi_ng.Epm.Floor.{Floor, pack_floor}
use dpapi_ng.Epm.Floor.RoundTrip.{
  FitsFloor, filled, floor_layout, pack_floor-layout, unpack_floor-layout, drop-floor,
}
use dpapi_ng.Epm.Tower.{
  pack_tower, unpack_floors, EntryHandle, pack_entry_handle, unpack_entry_handle,
}

pub record FitsTower (tower : List Floor) : Type 0 where
  pub floor_len : length tower < 256 ^ 2
  pub floors : All FitsFloor tower

unfoldable pub tower_layout : List Floor → Bytes
tower_layout tower = le_bytes 2 (length tower) ++ join (map floor_layout tower)

pub pack_tower-layout :
    (tower : List Floor) → FitsTower tower → pack_tower tower ≡ ok (tower_layout tower)
unfolding pack_tower tower_layout
pack_tower-layout tower h = rw (
  to_bytes-ok 2 _ h.floor_len,
  map_result-layout FitsFloor floor_layout 0 pack_floor pack_floor-layout tower h.floors,
)

unpack_floors-layout :
    (tower : List Floor) (rest : Bytes)
    → All FitsFloor tower
    → unpack_floors (length tower) (join (map floor_layout tower) ++ rest)
      ≡ ok (map filled tower, rest)
unfolding unpack_floors
unpack_floors-layout [] rest h = refl
unpack_floors-layout (f ∷ tower) rest (h, hs) = rw (
  append_assoc (floor_layout f) (join (map floor_layout tower)) rest,
  unpack_floor-layout f _ h,
  drop-floor f _,
  unpack_floors-layout tower rest hs,
)

-- The floors are read behind their number.
pub unpack_tower-layout :
    (tower : List Floor) (rest : Bytes)
    → FitsTower tower
    → unpack_floors
        (from_le (slice 0 2 (tower_layout tower ++ rest)))
        (drop 2 (tower_layout tower ++ rest))
      ≡ ok (map filled tower, rest)
unfolding tower_layout
unpack_tower-layout tower rest h =
    rw (from_le-le_bytes 2 _ h.floor_len) (unpack_floors-layout tower rest h.floors)

-- A handle that is there is not all zero octets, which stand for none.
abbrev pub FitsHandle : EntryHandle → Type 0
FitsHandle none = Unit
FitsHandle (some (attributes, uuid)) =
    (attributes < 256 ^ 4)
    × IsUuid uuid
    × (bytes_eq (le_bytes 4 attributes ++ bytes_le uuid) (replicate 20 0) ≡ false)

unfoldable pub handle_layout : EntryHandle → Bytes
handle_layout none = replicate 20 0
handle_layout (some (attributes, uuid)) = le_bytes 4 attributes ++ bytes_le uuid

pub pack_entry_handle-layout :
    (handle : EntryHandle)
    → FitsHandle handle
    → pack_entry_handle handle ≡ ok (handle_layout handle)
unfolding pack_entry_handle handle_layout
pack_entry_handle-layout none h = refl
pack_entry_handle-layout (some (attributes, uuid)) (h, _, _) = rw (to_bytes-ok 4 attributes h)

pub unpack_entry_handle-layout :
    (handle : EntryHandle) (rest : Bytes)
    → FitsHandle handle
    → unpack_entry_handle (handle_layout handle ++ rest) ≡ ok handle
unfolding unpack_entry_handle handle_layout
unpack_entry_handle-layout none rest h = refl
unpack_entry_handle-layout (some (attributes, uuid)) rest (h, u, other) =
    rw (other, uuid_from_bytes_le-bytes_le uuid u, from_le-le_bytes 4 attributes h)

pub drop-handle :
    (handle : EntryHandle) (rest : Bytes) → drop 20 (handle_layout handle ++ rest) ≡ rest
unfolding handle_layout
drop-handle none rest = refl
drop-handle (some (attributes, uuid)) rest = refl
