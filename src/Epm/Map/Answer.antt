-- ===== src/Epm/Map/Answer.antt =====
-- EptMapResult of src/dpapi_ng/_epm.py: what pack writes, read by unpack. unpack wants the towers at
-- offsets that are multiples of eight, and pack fills them up to multiples of four.
use dpapi_ng.Base.{
  ℕ, suc, ◌+◌, ◌*◌, ◌%◌, ◌^◌, ◌<◌, ◌≤◌, ◌≡◌, refl, arith, List, [], ◌∷◌, ◌++◌, append-nil,
  append_assoc, length, map, replicate, slice, drop, drop-add, drop-append, drop-replicate,
  take_last-append, ok, ◌>>=◌, All,
}
use dpapi_ng.Bytes.{Bytes, le_bytes}
use dpapi_ng.Bytes.RoundTrip.{from_le-le_bytes, to_bytes-ok}
use dpapi_ng.Rpc.Bind.{padding4}
use dpapi_ng.Gkdi.GetKey.{padding8}
use dpapi_ng.Epm.Floor.{Floor}
use dpapi_ng.Epm.Floor.RoundTrip.{filled}
use dpapi_ng.Epm.Tower.RoundTrip.{
  FitsTower, tower_layout, pack_tower-layout, unpack_tower-layout, FitsHandle, handle_layout,
  pack_entry_handle-layout, unpack_entry_handle-layout, drop-handle,
}
use dpapi_ng.Epm.Map.{
  EptMapResult, pack_referents, pack_towers, pack_ept_map_result, unpack_towers,
  unpack_ept_map_result,
}

-- A tower whose length leaves 1 to 4 modulo 8, where both paddings are the same.
pub record FitsAnswer (tower : List Floor) : Type 0 where
  pub floors : FitsTower tower
  pub tower_length : length (tower_layout tower) < 256 ^ 4
  pub above : 1 ≤ length (tower_layout tower) % 8
  pub below : length (tower_layout tower) % 8 ≤ 4

pub record FitsResult (r : EptMapResult) : Type 0 where
  pub entry_handle : FitsHandle r.entry_handle
  pub num_towers : length r.towers < 256 ^ 4
  pub towers : All FitsAnswer r.towers
  pub status : r.status < 256 ^ 4

same_padding : (n : ℕ) → 1 ≤ n % 8 → n % 8 ≤ 4 → padding4 n ≡ padding8 (n + 4)
same_padding n h k = omega arith

abbrev referents_layout : ℕ → List (List Floor) → Bytes
referents_layout idx [] = []
referents_layout idx (t ∷ towers) = le_bytes 8 (idx + 3) ++ referents_layout (suc idx) towers

pack_referents-layout :
    (idx : ℕ) (towers : List (List Floor))
    → idx + length towers < 256 ^ 4
    → pack_referents idx towers ≡ ok (referents_layout idx towers)
unfolding pack_referents
pack_referents-layout idx [] h = refl
pack_referents-layout idx (t ∷ towers) h =
    rw (to_bytes-ok 8 (idx + 3) (omega arith), pack_referents-layout (suc idx) towers (omega arith))

length-referents :
    (idx : ℕ) (towers : List (List Floor))
    → length (referents_layout idx towers) ≡ 8 * length towers
length-referents idx [] = refl
length-referents idx (t ∷ towers) = omega (arith, length-referents (suc idx) towers)

abbrev towers_layout : List (List Floor) → Bytes
towers_layout [] = []
towers_layout (t ∷ towers) =
    le_bytes 8 (length (tower_layout t))
    ++ (le_bytes 4 (length (tower_layout t))
        ++ (tower_layout t
            ++ (replicate (padding4 (length (tower_layout t))) 0 ++ towers_layout towers)))

pack_towers-layout :
    (towers : List (List Floor))
    → All FitsAnswer towers
    → pack_towers towers ≡ ok (towers_layout towers)
unfolding pack_towers
pack_towers-layout [] h = refl
pack_towers-layout (t ∷ towers) (h, hs) =
    let small = h.tower_length in
    rw (
      pack_tower-layout t h.floors,
      to_bytes-ok 8 (length (tower_layout t)) (omega arith),
      to_bytes-ok 4 (length (tower_layout t)) small,
      pack_towers-layout towers hs,
      append-nil,
    )

unpack_towers-layout :
    (towers : List (List Floor)) (rest : Bytes)
    → All FitsAnswer towers
    → unpack_towers (length towers) (towers_layout towers ++ rest) ≡ ok (map (map filled) towers)
unfolding unpack_towers
unpack_towers-layout [] rest h = refl
unpack_towers-layout (t ∷ towers) rest (h, hs) =
    let n = length (tower_layout t) in
    let small = h.tower_length in
    rw (
      append_assoc (tower_layout t) _ rest,
      append_assoc (replicate (padding4 n) 0) (towers_layout towers) rest,
      from_le-le_bytes 8 n (omega arith),
      unpack_tower-layout t _ h.floors,
      same_padding n h.above h.below,
      drop-replicate {A = ℕ} (padding8 (n + 4)) 0 _,
      unpack_towers-layout towers rest hs,
    )

-- All but the status.
abbrev front_layout : EptMapResult → Bytes
front_layout r =
    handle_layout r.entry_handle
    ++ (le_bytes 4 (length r.towers)
        ++ (le_bytes 8 (length r.towers)
            ++ (replicate 8 0
                ++ (le_bytes 8 (length r.towers)
                    ++ (referents_layout 0 r.towers ++ towers_layout r.towers)))))

pack_ept_map_result-layout :
    (r : EptMapResult)
    → FitsResult r
    → pack_ept_map_result r ≡ ok (front_layout r ++ le_bytes 4 r.status)
unfolding pack_ept_map_result
pack_ept_map_result-layout r h =
    let n = length r.towers in
    let small = h.num_towers in
    rw (
      pack_entry_handle-layout r.entry_handle h.entry_handle,
      pack_referents-layout 0 r.towers (omega arith),
      pack_towers-layout r.towers h.towers,
      to_bytes-ok 4 n small,
      to_bytes-ok 8 n (omega arith),
      to_bytes-ok 4 r.status h.status,
      append-nil,
      append_assoc (handle_layout r.entry_handle),
      append_assoc (referents_layout 0 r.towers),
    )

unpack_ept_map_result-layout :
    (r : EptMapResult)
    → FitsResult r
    → unpack_ept_map_result (front_layout r ++ le_bytes 4 r.status)
      ≡ ok (record r { towers = map (map filled) r.towers })
unfolding unpack_ept_map_result
unpack_ept_map_result-layout r h =
    let n = length r.towers in
    let small = h.num_towers in
    let handle = handle_layout r.entry_handle in
    let refs = referents_layout 0 r.towers in
    let tail = le_bytes 4 r.status in
    let behind =
      le_bytes 4 n
      ++ (le_bytes 8 n
          ++ (replicate 8 0 ++ (le_bytes 8 n ++ (refs ++ (towers_layout r.towers ++ tail))))) in
    let whole : front_layout r ++ tail ≡ handle ++ behind =
      rw (append_assoc handle, append_assoc refs) refl in
    let count : slice 40 48 (handle ++ behind) ≡ le_bytes 8 n =
      rw (drop-add 20 20, drop-handle r.entry_handle behind) refl in
    let width = length-referents 0 r.towers in
    let towers : drop (48 + 8 * n) (handle ++ behind) ≡ towers_layout r.towers ++ tail =
      rw (drop-add 48 (8 * n), drop-add 20 28, drop-handle r.entry_handle behind, ← width)
        (drop-append refs _) in
    let status = take_last-append (front_layout r) tail in
    rw (
      status,
      whole,
      unpack_entry_handle-layout r.entry_handle behind h.entry_handle,
      count,
      from_le-le_bytes 8 n (omega arith),
      towers,
      unpack_towers-layout r.towers tail h.towers,
      from_le-le_bytes 4 r.status h.status,
    )

pub unpack-pack_ept_map_result :
    (r : EptMapResult)
    → FitsResult r
    → (pack_ept_map_result r >>= unpack_ept_map_result)
      ≡ ok (record r { towers = map (map filled) r.towers })
unpack-pack_ept_map_result r h =
    rw (pack_ept_map_result-layout r h) (unpack_ept_map_result-layout r h)
