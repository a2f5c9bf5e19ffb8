-- ===== src/Epm/Map/RoundTrip.antt =====
-- EptMap of src/dpapi_ng/_epm.py: what pack writes, read by unpack.
use dpapi_ng.Base.{
  ◌+◌, ◌^◌, ◌<◌, ◌≡◌, false, Option, none, some, ◌∷◌, ◌++◌, length, replicate, bytes_eq,
}
use dpapi_ng.Bytes.{Bytes, le_bytes}
use dpapi_ng.Bytes.Uuid.{Uuid, IsUuid, bytes_le}
use dpapi_ng.Gkdi.GetKey.{padding8}
use dpapi_ng.Epm.Tower.RoundTrip.{FitsTower, tower_layout, FitsHandle, handle_layout}
use dpapi_ng.Epm.Map.{EptMap, b_obj}

-- An object that is there is not the nil UUID, which stands for none.
abbrev FitsObj : Option Uuid → Type 0
FitsObj none = Unit
FitsObj (some id) = IsUuid id × (bytes_eq (bytes_le id) (replicate 16 0) ≡ false)

pub record FitsEptMap (m : EptMap) : Type 0 where
  pub obj : FitsObj m.obj
  pub tower : FitsTower m.tower
  pub tower_length : length (tower_layout m.tower) < 256 ^ 4
  pub entry_handle : FitsHandle m.entry_handle
  pub max_towers : m.max_towers < 256 ^ 4

-- The tower and what follows it.
abbrev after_lengths : EptMap → Bytes
after_lengths m =
    tower_layout m.tower
    ++ (replicate (padding8 (length (tower_layout m.tower) + 4)) 0
        ++ (handle_layout m.entry_handle ++ le_bytes 4 m.max_towers))

abbrev ept_map_layout : EptMap → Bytes
ept_map_layout m =
    (1 ∷ replicate 7 0)
    ++ (b_obj m.obj
        ++ ((2 ∷ replicate 7 0)
            ++ (le_bytes 8 (length (tower_layout m.tower))
                ++ (le_bytes 4 (length (tower_layout m.tower)) ++ after_lengths m))))
