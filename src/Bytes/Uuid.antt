-- ===== src/Bytes/Uuid.antt =====
-- uuid.UUID of the standard library, by the fields of its little-endian form.
use dpapi_ng.Base.{
  ℕ, ◌^◌, ◌<◌, ◌≡◌, ap, arith, Bool, ◌&&◌, true, ◌++◌, reverse, length, slice, drop, ◌==◌,
  if◌then◌else◌, ==_refl, Eq, Result, ok, err, value_error,
}
use dpapi_ng.Bytes.{Bytes, le_bytes, from_le, from_be}
use dpapi_ng.Bytes.RoundTrip.{from_le-le_bytes, from_be-be_bytes}

-- Three numbers that `bytes_le` stores lowest byte first, and the last eight bytes as one number.
pub record Uuid : Type 0 where
  pub time_low : ℕ
  pub time_mid : ℕ
  pub time_hi : ℕ
  pub node : ℕ

-- The fields of every UUID object are in range.
pub record IsUuid (u : Uuid) : Type 0 where
  pub low : u.time_low < 256 ^ 4
  pub mid : u.time_mid < 256 ^ 2
  pub hi : u.time_hi < 256 ^ 2
  pub node : u.node < 256 ^ 8

-- UUID.bytes_le
abbrev pub bytes_le : Uuid → Bytes
bytes_le u =
    le_bytes 4 u.time_low
    ++ (le_bytes 2 u.time_mid ++ (le_bytes 2 u.time_hi ++ reverse (le_bytes 8 u.node)))

abbrev uuid_of_bytes : Bytes → Uuid
uuid_of_bytes bs = record {
  time_low = from_le (slice 0 4 bs);
  time_mid = from_le (slice 4 6 bs);
  time_hi = from_le (slice 6 8 bs);
  node = from_be (drop 8 bs);
}

-- UUID(bytes_le=bs), which wants 16 bytes
unfoldable pub uuid_from_bytes_le : Bytes → Result Uuid
uuid_from_bytes_le bs = if length bs == 16 then ok (uuid_of_bytes bs) else err value_error

uuid_path :
    (u v : Uuid)
    → u.time_low ≡ v.time_low
    → u.time_mid ≡ v.time_mid
    → u.time_hi ≡ v.time_hi
    → u.node ≡ v.node
    → u ≡ v
uuid_path u v a b c d = λ i. record { time_low = a i; time_mid = b i; time_hi = c i; node = d i }

-- A UUID is read back from its sixteen bytes.
pub uuid_from_bytes_le-bytes_le : (u : Uuid) → IsUuid u → uuid_from_bytes_le (bytes_le u) ≡ ok u
unfolding uuid_from_bytes_le
uuid_from_bytes_le-bytes_le u h = ap ok (
    uuid_path (uuid_of_bytes (bytes_le u)) u (from_le-le_bytes 4 u.time_low h.low)
      (from_le-le_bytes 2 u.time_mid h.mid) (from_le-le_bytes 2 u.time_hi h.hi)
      (from_be-be_bytes 8 u.node h.node))

abbrev pub uuid_beq : Uuid → Uuid → Bool
uuid_beq u v =
    u.time_low == v.time_low
    && (u.time_mid == v.time_mid && (u.time_hi == v.time_hi && u.node == v.node))

pub uuid_beq_refl : (u : Uuid) → uuid_beq u u ≡ true
uuid_beq_refl u = ground (arith, ==_refl u.time_low)

pub uuid_beq→eq : (u v : Uuid) → uuid_beq u v ≡ true → u ≡ v
uuid_beq→eq u v h = uuid_path u v (ground arith) (ground arith) (ground arith) (ground arith)

instance abbrev pub uuid_eq : Eq Uuid
uuid_eq = record { beq = uuid_beq; beq_refl = uuid_beq_refl; beq→eq = uuid_beq→eq }
