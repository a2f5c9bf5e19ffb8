-- ===== src/Gkdi/Derive.antt =====
-- compute_l1_key and compute_l2_key of src/dpapi_ng/_gkdi.py.
pub mod Chain
pub mod Correct
pub mod Termination
pub mod Total
use dpapi_ng.Base.{
  ℕ, zero, suc, ◌^◌, ◌+◌, Bool, true, false, not, ◌&&◌, ◌||◌, List, ◌++◌, ◌==◌, if◌then◌else◌,
  Result, ok, err, out_of_fuel, ◌>>=◌, ℤ, pos, negsuc, pred_ℤ, eq_ℤ,
}
use dpapi_ng.Bytes.{Bytes}
use dpapi_ng.Bytes.Uuid.{Uuid}
use dpapi_ng.Crypto.{HashAlgorithm, Kdfs, kdf}
use dpapi_ng.Gkdi.Envelope.{GroupKeyEnvelope}
use dpapi_ng.Gkdi.Context.{kds_service_label, compute_kdf_context}

abbrev pub minus_one : ℤ
minus_one = negsuc 0

-- The rounds that a loop can make before its index leaves 32 bits.
pub loop_fuel : ℕ
loop_fuel = 2 ^ 33

module _ (c : Kdfs) where
  unfoldable pub compute_l1_key : Bytes → Uuid → ℕ → Bytes → HashAlgorithm → Result Bytes
  compute_l1_key target_sd root_key_id l0 root_key algorithm = do
    l0_context ← compute_kdf_context root_key_id (pos l0) minus_one minus_one
    let l0_seed = kdf c algorithm root_key kds_service_label l0_context 64
    l1_context ← compute_kdf_context root_key_id (pos l0) (pos 31) minus_one
    ok (kdf c algorithm l0_seed kds_service_label (l1_context ++ target_sd) 64)

  module _ (algorithm : HashAlgorithm) (rk : GroupKeyEnvelope) where
    -- The key one step down: its parent, and the indices of its context.
    pub derive_key : Bytes → ℤ → ℤ → Result Bytes
    derive_key key l1 l2 = do
      kdf_context ← compute_kdf_context rk.root_key_identifier (pos rk.l0) l1 l2
      ok (kdf c algorithm key kds_service_label kdf_context 64)

    -- while l1 != request_l1: the loop's variables are reseed_l2, l1 and l1_key
    pub l1_loop : ℕ → ℕ → Bool → ℤ → Bytes → Result (Bool × ℤ × Bytes)
    l1_loop zero request_l1 reseed_l2 l1 l1_key = err out_of_fuel
    l1_loop (suc fuel) request_l1 reseed_l2 l1 l1_key =
        let next = (do
          key ← derive_key l1_key (pred_ℤ l1) minus_one
          l1_loop fuel request_l1 true (pred_ℤ l1) key) in
        if eq_ℤ l1 (pos request_l1) then ok (reseed_l2, l1, l1_key) else next

    -- while l2 != request_l2
    pub l2_loop : ℕ → ℕ → ℤ → ℤ → Bytes → Result Bytes
    l2_loop zero request_l2 l1 l2 l2_key = err out_of_fuel
    l2_loop (suc fuel) request_l2 l1 l2 l2_key =
        let next = (do
          key ← derive_key l2_key l1 (pred_ℤ l2)
          l2_loop fuel request_l2 l1 (pred_ℤ l2) key) in
        if eq_ℤ l2 (pos request_l2) then ok l2_key else next

    -- if reseed_l2: the new l2 and l2_key
    pub reseed : Bool → ℤ → Bytes → Result (ℤ × Bytes)
    reseed false l1 l1_key = ok (pos rk.l2, rk.l2_key)
    reseed true l1 l1_key = do key ← derive_key l1_key l1 (pos 31); ok (pos 31, key)

    pub first_l1 : ℕ → ℤ
    first_l1 request_l1 =
        if not (rk.l2 == 31) && not (rk.l1 == request_l1) then pred_ℤ (pos rk.l1) else pos rk.l1

    -- The code behind the first loop, over what that loop leaves.
    pub after_l1 : ℕ → Bool × ℤ × Bytes → Result Bytes
    after_l1 request_l2 (reseed_l2, l1, l1_key) = do
      (l2, l2_key) ← reseed reseed_l2 l1 l1_key
      l2_loop loop_fuel request_l2 l1 l2 l2_key

    pub compute_l2_key : ℕ → ℕ → Result Bytes
    compute_l2_key request_l1 request_l2 =
        l1_loop loop_fuel request_l1 (rk.l2 == 31 || not (rk.l1 == request_l1))
          (first_l1 request_l1) rk.l1_key
        >>= after_l1 request_l2
