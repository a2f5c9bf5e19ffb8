-- ===== src/Gkdi/Context.antt =====
-- compute_kdf_context of src/dpapi_ng/_gkdi.py, and the label of the service.
use dpapi_ng.Base.{◌≡◌, [], ◌∷◌, ◌++◌, Result, ok, ◌>>=◌, ℤ}
use dpapi_ng.Bytes.{Bytes, join, to_bytes_signed}
use dpapi_ng.Bytes.RoundTrip.{InRange32, signed_bytes32, to_bytes_signed-ok}
use dpapi_ng.Bytes.Uuid.{Uuid, bytes_le}
use dpapi_ng.Bytes.Text.{text, utf16_bytes}

-- "KDS service\0".encode("utf-16-le")
unfoldable pub kds_service_label : Bytes
kds_service_label = utf16_bytes (text "KDS service" ++ (0 ∷ []))

unfoldable pub compute_kdf_context : Uuid → ℤ → ℤ → ℤ → Result Bytes
compute_kdf_context key_guid l0 l1 l2 = do
  b_l0 ← to_bytes_signed 4 l0
  b_l1 ← to_bytes_signed 4 l1
  b_l2 ← to_bytes_signed 4 l2
  ok (join (bytes_le key_guid ∷ b_l0 ∷ b_l1 ∷ b_l2 ∷ []))

-- The context of MS-GKDI 3.1.4.1.2: RKID || L0 || L1 || L2.
unfoldable pub context : Uuid → ℤ → ℤ → ℤ → Bytes
context key_guid l0 l1 l2 =
    join (bytes_le key_guid ∷ signed_bytes32 l0 ∷ signed_bytes32 l1 ∷ signed_bytes32 l2 ∷ [])

pub compute_kdf_context-ok :
    (key_guid : Uuid) (l0 l1 l2 : ℤ)
    → InRange32 l0
    → InRange32 l1
    → InRange32 l2
    → compute_kdf_context key_guid l0 l1 l2 ≡ ok (context key_guid l0 l1 l2)
unfolding compute_kdf_context context
compute_kdf_context-ok key_guid l0 l1 l2 h0 h1 h2 =
    rw (to_bytes_signed-ok l0 h0, to_bytes_signed-ok l1 h1, to_bytes_signed-ok l2 h2)
