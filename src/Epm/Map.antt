-- ===== src/Epm/Map.antt =====
-- EptMap and EptMapResult of src/dpapi_ng/_epm.py.
pub mod RoundTrip
pub mod Answer
use dpapi_ng.Base.{
  ℕ, zero, suc, ◌+◌, ◌-◌, ◌*◌, ◌%◌, Option, none, some, List, [], ◌∷◌, ◌++◌, length, replicate,
  slice, drop, take_last, bytes_eq, Result, ok, ◌>>=◌, if◌then◌else◌,
}
use dpapi_ng.Bytes.{Bytes, join, from_le, to_bytes}
use dpapi_ng.Bytes.Uuid.{Uuid, bytes_le, uuid_from_bytes_le}
use dpapi_ng.Rpc.Bind.{padding4}
use dpapi_ng.Gkdi.GetKey.{padding8}
use dpapi_ng.Epm.Floor.{Floor}
use dpapi_ng.Epm.Tower.{
  pack_tower, unpack_floors, EntryHandle, pack_entry_handle, unpack_entry_handle,
}

pub record EptMap : Type 0 where
  pub obj : Option Uuid
  pub tower : List Floor
  pub entry_handle : EntryHandle
  pub max_towers : ℕ

abbrev pub b_obj : Option Uuid → Bytes
b_obj none = replicate 16 0
b_obj (some id) = bytes_le id

-- EptMap.pack
unfoldable pub pack_ept_map : EptMap → Result Bytes
pack_ept_map m = do
  b_tower ← pack_tower m.tower
  b_entry_handle ← pack_entry_handle m.entry_handle
  max_count ← to_bytes 8 (length b_tower)
  tower_length ← to_bytes 4 (length b_tower)
  b_max_towers ← to_bytes 4 m.max_towers
  ok (
      join (
        (1 ∷ replicate 7 0)
        ∷ b_obj m.obj
        ∷ (2 ∷ replicate 7 0)
        ∷ max_count
        ∷ tower_length
        ∷ b_tower
        ∷ replicate (padding8 (length b_tower + 4)) 0
        ∷ b_entry_handle
        ∷ b_max_towers
        ∷ []))

unfoldable pub unpack_obj : Bytes → Result (Option Uuid)
unpack_obj octets =
    if bytes_eq octets (replicate 16 0)
    then ok none
    else (do id ← uuid_from_bytes_le octets; ok (some id))

-- EptMap.unpack
unfoldable pub unpack_ept_map : Bytes → Result EptMap
unpack_ept_map data_view = do
  obj ← unpack_obj (slice 8 24 data_view)
  let view = drop 32 data_view
  let padding = padding8 (from_le (slice 0 8 view) + 4)
  (tower, rest) ← unpack_floors (from_le (slice 12 14 view)) (drop 14 view)
  let tail = drop padding rest
  entry_handle ← unpack_entry_handle tail
  ok (record {
    obj = obj;
    tower = tower;
    entry_handle = entry_handle;
    max_towers = from_le (slice 20 24 tail);
  })

pub record EptMapResult : Type 0 where
  pub entry_handle : EntryHandle
  pub towers : List (List Floor)
  pub status : ℕ

-- The referent identifiers, from idx on
unfoldable pub pack_referents : ℕ → List (List Floor) → Result Bytes
pack_referents idx [] = ok []
pack_referents idx (t ∷ towers) = do
  referent ← to_bytes 8 (idx + 3)
  referents ← pack_referents (suc idx) towers
  ok (referent ++ referents)

unfoldable pub pack_towers : List (List Floor) → Result Bytes
pack_towers [] = ok []
pack_towers (t ∷ towers) = do
  b_t ← pack_tower t
  max_count ← to_bytes 8 (length b_t)
  tower_length ← to_bytes 4 (length b_t)
  b_towers ← pack_towers towers
  ok (join (max_count ∷ tower_length ∷ b_t ∷ replicate (padding4 (length b_t)) 0 ∷ b_towers ∷ []))

-- EptMapResult.pack
unfoldable pub pack_ept_map_result : EptMapResult → Result Bytes
pack_ept_map_result r = do
  b_entry_handle ← pack_entry_handle r.entry_handle
  b_tower_referents ← pack_referents 0 r.towers
  b_tower ← pack_towers r.towers
  num_towers ← to_bytes 4 (length r.towers)
  tower_count ← to_bytes 8 (length r.towers)
  b_status ← to_bytes 4 r.status
  ok (
      join (
        b_entry_handle
        ∷ num_towers
        ∷ tower_count
        ∷ replicate 8 0
        ∷ tower_count
        ∷ b_tower_referents
        ∷ b_tower
        ∷ b_status
        ∷ []))

-- `for _ in range(tower_count)`
unfoldable pub unpack_towers : ℕ → Bytes → Result (List (List Floor))
unpack_towers zero view = ok []
unpack_towers (suc n) view = do
  let padding = padding8 (from_le (slice 0 8 view) + 4)
  (tower, rest) ← unpack_floors (from_le (slice 12 14 view)) (drop 14 view)
  towers ← unpack_towers n (drop padding rest)
  ok (tower ∷ towers)

-- EptMapResult.unpack
unfoldable pub unpack_ept_map_result : Bytes → Result EptMapResult
unpack_ept_map_result view = do
  entry_handle ← unpack_entry_handle view
  let tower_count = from_le (slice 40 48 view)
  towers ← unpack_towers tower_count (drop (48 + 8 * tower_count) view)
  ok (record { entry_handle = entry_handle; towers = towers; status = from_le (take_last 4 view) })
