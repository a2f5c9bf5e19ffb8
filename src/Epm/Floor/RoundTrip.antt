-- ===== src/Epm/Floor/RoundTrip.antt =====
-- The floors of src/dpapi_ng/_epm.py: the bytes of pack, read by Floor.unpack.
use dpapi_ng.Base.{
  ℕ, ◌+◌, ◌-◌, ◌^◌, ◌<◌, ◌≡◌, ◌≢◌, arith, [], ◌∷◌, ◌++◌, append-nil, append_assoc, reverse, length,
  slice, drop, take-append, drop-append, drop-add, ok,
}
use dpapi_ng.Bytes.{Bytes, le_bytes}
use dpapi_ng.Bytes.RoundTrip.{
  from_le-le_bytes, from_be-be_bytes, to_bytes-ok, to_bytes_be-ok, to_bytes-byte,
}
use dpapi_ng.Bytes.Uuid.{IsUuid, bytes_le, uuid_from_bytes_le-bytes_le}
use dpapi_ng.Epm.Floor.{
  tcp, ip, rpc_connection_oriented, uuid_id, FloorKind, plain_floor, tcp_floor, ip_floor, rpc_floor,
  uuid_floor, Floor, pack_fields, pack_kind, pack_floor, unpack_kind, unpack_floor,
}

abbrev protocol_of : FloorKind → ℕ
protocol_of (plain_floor protocol) = protocol
protocol_of (tcp_floor port) = tcp
protocol_of (ip_floor addr) = ip
protocol_of (rpc_floor version_minor) = rpc_connection_oriented
protocol_of (uuid_floor uuid version version_minor) = uuid_id

-- The octets that pack writes for a floor, left and right.
abbrev lhs_of : FloorKind → Bytes → Bytes
lhs_of (plain_floor protocol) lhs = lhs
lhs_of (tcp_floor port) lhs = []
lhs_of (ip_floor addr) lhs = []
lhs_of (rpc_floor version_minor) lhs = []
lhs_of (uuid_floor uuid version version_minor) lhs = bytes_le uuid ++ le_bytes 2 version

abbrev rhs_of : FloorKind → Bytes → Bytes
rhs_of (plain_floor protocol) rhs = rhs
rhs_of (tcp_floor port) rhs = reverse (le_bytes 2 port)
rhs_of (ip_floor addr) rhs = reverse (le_bytes 4 addr)
rhs_of (rpc_floor version_minor) rhs = le_bytes 2 version_minor
rhs_of (uuid_floor uuid version version_minor) rhs = le_bytes 2 version_minor

-- A floor with the octets that stand for it.
unfoldable pub filled : Floor → Floor
filled f = record { kind = f.kind; lhs = lhs_of f.kind f.lhs; rhs = rhs_of f.kind f.rhs }

-- The numbers of a floor are in range, and a plain one has no protocol with a class of its own.
abbrev FitsKind : FloorKind → Type 0
FitsKind (plain_floor protocol) =
    (protocol < 256)
    × (protocol ≢ tcp)
    × (protocol ≢ ip)
    × (protocol ≢ rpc_connection_oriented)
    × (protocol ≢ uuid_id)
FitsKind (tcp_floor port) = port < 256 ^ 2
FitsKind (ip_floor addr) = addr < 256 ^ 4
FitsKind (rpc_floor version_minor) = version_minor < 256 ^ 2
FitsKind (uuid_floor uuid version version_minor) =
    IsUuid uuid × (version < 256 ^ 2) × (version_minor < 256 ^ 2)

pub record FitsFloor (f : Floor) : Type 0 where
  pub kind : FitsKind f.kind
  pub lhs_len : length f.lhs + 1 < 256 ^ 2
  pub rhs_len : length f.rhs < 256 ^ 2

abbrev fields_layout : ℕ → Bytes → Bytes → Bytes
fields_layout protocol lhs rhs =
    le_bytes 2 (length lhs + 1) ++ (protocol ∷ lhs ++ (le_bytes 2 (length rhs) ++ rhs))

unfoldable pub floor_layout : Floor → Bytes
floor_layout f = fields_layout (protocol_of f.kind) (lhs_of f.kind f.lhs) (rhs_of f.kind f.rhs)

pack_fields-layout :
    (protocol : ℕ) (lhs rhs : Bytes)
    → protocol < 256
    → length lhs + 1 < 256 ^ 2
    → length rhs < 256 ^ 2
    → pack_fields protocol lhs rhs ≡ ok (fields_layout protocol lhs rhs)
unfolding pack_fields
pack_fields-layout protocol lhs rhs h l r =
    rw (to_bytes-ok 2 _ l, to_bytes-byte protocol h, to_bytes-ok 2 _ r, append-nil)

pub pack_floor-layout : (f : Floor) → FitsFloor f → pack_floor f ≡ ok (floor_layout f)
unfolding floor_layout pack_kind
pack_floor-layout f h = pack_kind-layout f.kind f.lhs f.rhs h.kind h.lhs_len h.rhs_len
  where
    pack_kind-layout :
        (kind : FloorKind) (lhs rhs : Bytes)
        → FitsKind kind
        → length lhs + 1 < 256 ^ 2
        → length rhs < 256 ^ 2
        → pack_kind kind lhs rhs
          ≡ ok (fields_layout (protocol_of kind) (lhs_of kind lhs) (rhs_of kind rhs))
    pack_kind-layout (plain_floor protocol) lhs rhs (h, _, _, _, _) l r =
        pack_fields-layout protocol lhs rhs h l r
    pack_kind-layout (tcp_floor port) lhs rhs h l r =
        rw (to_bytes_be-ok 2 port h)
          (pack_fields-layout _ _ _ (omega arith) (omega arith) (omega arith))
    pack_kind-layout (ip_floor addr) lhs rhs h l r =
        rw (to_bytes_be-ok 4 addr h)
          (pack_fields-layout _ _ _ (omega arith) (omega arith) (omega arith))
    pack_kind-layout (rpc_floor minor) lhs rhs h l r =
        rw (to_bytes-ok 2 minor h)
          (pack_fields-layout _ _ _ (omega arith) (omega arith) (omega arith))
    pack_kind-layout (uuid_floor uuid version minor) lhs rhs (_, h, h') l r =
        rw (to_bytes-ok 2 version h, to_bytes-ok 2 minor h')
          (pack_fields-layout _ _ _ (omega arith) (omega arith) (omega arith))

unpack_kind-filled :
    (kind : FloorKind) (lhs rhs : Bytes)
    → FitsKind kind
    → unpack_kind (protocol_of kind) (lhs_of kind lhs) (rhs_of kind rhs) ≡ ok kind
unfolding unpack_kind
unpack_kind-filled (plain_floor protocol) lhs rhs (h, a, b, c, d) = ground arith
unpack_kind-filled (tcp_floor port) lhs rhs h = rw (from_be-be_bytes 2 port h)
unpack_kind-filled (ip_floor addr) lhs rhs h = rw (from_be-be_bytes 4 addr h)
unpack_kind-filled (rpc_floor minor) lhs rhs h = rw (from_le-le_bytes 2 minor h)
unpack_kind-filled (uuid_floor uuid version minor) lhs rhs (u, h, h') =
    rw (
      uuid_from_bytes_le-bytes_le uuid u,
      from_le-le_bytes 2 version h,
      from_le-le_bytes 2 minor h',
    )

module _ (protocol : ℕ) (lhs rhs rest : Bytes) where
  abbrev view : Bytes
  view = fields_layout protocol lhs rhs ++ rest

  -- The view behind the left octets, and behind the length of the right ones.
  abbrev behind : Bytes
  behind = le_bytes 2 (length rhs) ++ (rhs ++ rest)

  drop-lhs : drop (3 + length lhs) view ≡ behind
  drop-lhs = rw (drop-add 3 (length lhs), append_assoc lhs, drop-append lhs)

  slice-lhs : slice 3 (length lhs + 1 + 2) view ≡ lhs
  slice-lhs =
      let e : length lhs + 1 + 2 - 3 ≡ length lhs = omega arith in
      rw (e, append_assoc lhs (le_bytes 2 (length rhs) ++ rhs) rest) (take-append lhs behind)

  slice-len : slice (length lhs + 1 + 2) (length lhs + 1 + 2 + 2) view ≡ le_bytes 2 (length rhs)
  slice-len =
      let e : length lhs + 1 + 2 ≡ 3 + length lhs = omega arith in
      let e' : 3 + length lhs + 2 - (3 + length lhs) ≡ 2 = omega arith in rw (e, e', drop-lhs)

  slice-rhs : slice (length lhs + 1 + 2 + 2) (length lhs + 1 + 2 + length rhs + 2) view ≡ rhs
  slice-rhs =
      let e : length lhs + 1 + 2 + 2 ≡ 3 + length lhs + 2 = omega arith in
      let e' : length lhs + 1 + 2 + length rhs + 2 - (3 + length lhs + 2) ≡ length rhs =
        omega arith in
      rw (e, e', drop-add (3 + length lhs) 2, drop-lhs, take-append rhs rest)

  unpack_floor-fields :
      length lhs + 1 < 256 ^ 2
      → length rhs < 256 ^ 2
      → (kind : FloorKind) → unpack_kind protocol lhs rhs ≡ ok kind
      → unpack_floor view ≡ ok (record { kind = kind; lhs = lhs; rhs = rhs })
  unfolding unpack_floor
  unpack_floor-fields l r kind e = rw (
    from_le-le_bytes 2 (length lhs + 1) l,
    slice-lhs,
    slice-len,
    from_le-le_bytes 2 (length rhs) r,
    slice-rhs,
    e,
  )

  drop-fields : drop (length lhs + length rhs + 5) view ≡ rest
  drop-fields =
      let e : length lhs + length rhs + 5 ≡ 3 + length lhs + (2 + length rhs) = omega arith in
      rw (
        e,
        drop-add (3 + length lhs) (2 + length rhs),
        drop-lhs,
        drop-add 2 (length rhs),
        drop-append rhs rest,
      )

-- The width of a kind's own octets.
kind_widths :
    (kind : FloorKind) (lhs rhs : Bytes)
    → length lhs + 1 < 256 ^ 2
    → length rhs < 256 ^ 2
    → (length (lhs_of kind lhs) + 1 < 256 ^ 2) × (length (rhs_of kind rhs) < 256 ^ 2)
kind_widths (plain_floor protocol) lhs rhs l r = (l, r)
kind_widths (tcp_floor port) lhs rhs l r = (omega arith, omega arith)
kind_widths (ip_floor addr) lhs rhs l r = (omega arith, omega arith)
kind_widths (rpc_floor minor) lhs rhs l r = (omega arith, omega arith)
kind_widths (uuid_floor uuid version minor) lhs rhs l r = (omega arith, omega arith)

pub unpack_floor-layout :
    (f : Floor) (rest : Bytes) → FitsFloor f → unpack_floor (floor_layout f ++ rest) ≡ ok (filled f)
unfolding floor_layout filled
unpack_floor-layout f rest h =
    let (l, r) = kind_widths f.kind f.lhs f.rhs h.lhs_len h.rhs_len in
    unpack_floor-fields (protocol_of f.kind) (lhs_of f.kind f.lhs) (rhs_of f.kind f.rhs) rest l r
      f.kind (unpack_kind-filled f.kind f.lhs f.rhs h.kind)

pub drop-floor :
    (f : Floor) (rest : Bytes)
    → drop (length (filled f).lhs + length (filled f).rhs + 5) (floor_layout f ++ rest) ≡ rest
unfolding floor_layout filled
drop-floor f rest =
    drop-fields (protocol_of f.kind) (lhs_of f.kind f.lhs) (rhs_of f.kind f.rhs) rest
