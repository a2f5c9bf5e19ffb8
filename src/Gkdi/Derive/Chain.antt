-- ===== src/Gkdi/Derive/Chain.antt =====
-- The key hierarchy of MS-GKDI 3.1.4.1.2, and the loops of compute_l2_key of
-- src/dpapi_ng/_gkdi.py along it. The keys are counted by the steps below index 31, where each
-- chain starts.
use dpapi_ng.Base.{
  ℕ, zero, suc, ◌+◌, ◌-◌, ◌^◌, ◌<◌, ◌≤◌, ◌≡◌, ◌⊎◌, Bool, true, false, ◌==◌, ==_refl, ok, ℤ, pos,
  arith,
}
use dpapi_ng.Bytes.{Bytes}
use dpapi_ng.Bytes.RoundTrip.{InRange32}
use dpapi_ng.Bytes.Uuid.{Uuid}
use dpapi_ng.Crypto.{HashAlgorithm, Kdfs, kdf}
use dpapi_ng.Gkdi.Envelope.{GroupKeyEnvelope}
use dpapi_ng.Gkdi.Context.{kds_service_label, context, compute_kdf_context-ok}
use dpapi_ng.Gkdi.Derive.{minus_one, derive_key, l1_loop, l2_loop}

module _ (c : Kdfs) (algorithm : HashAlgorithm) (guid : Uuid) (l0 : ℕ) (l1_seed : Bytes) where
  abbrev pub step : Bytes → ℤ → ℤ → Bytes
  step key l1 l2 = kdf c algorithm key kds_service_label (context guid (pos l0) l1 l2) 64

  -- Key(SD, RK, L0, 31 - n, -1): level 1, from the key at index 31 down
  unfoldable pub l1_key_at : ℕ → Bytes
  l1_key_at zero = l1_seed
  l1_key_at (suc n) = step (l1_key_at n) (pos (31 - suc n)) minus_one

  -- Key(SD, RK, L0, 31 - n, 31 - m): level 2, from the level 1 key of its index down
  unfoldable pub l2_key_at : ℕ → ℕ → Bytes
  l2_key_at n zero = step (l1_key_at n) (pos (31 - n)) (pos 31)
  l2_key_at n (suc m) = step (l2_key_at n m) (pos (31 - n)) (pos (31 - suc m))

-- The keys that an envelope holds are those of the hierarchy under `l1_seed`, as MS-GKDI 2.2.4 has
-- it: the level 1 key is that of the envelope's index where l2 is 31, and of the index below it
-- elsewhere; the level 2 key is that of both indices.
pub record IsGenuine (c : Kdfs) (algorithm : HashAlgorithm) (l1_seed : Bytes)
    (rk : GroupKeyEnvelope) : Type 0 where
  pub l0_range : rk.l0 < 2 ^ 31
  pub l1_range : rk.l1 ≤ 31
  pub l2_range : rk.l2 ≤ 31
  pub l1_full :
      rk.l2 ≡ 31
      → rk.l1_key ≡ l1_key_at c algorithm rk.root_key_identifier rk.l0 l1_seed (31 - rk.l1)
  pub l1_below :
      rk.l2 < 31
      → 0 < rk.l1
      → rk.l1_key ≡ l1_key_at c algorithm rk.root_key_identifier rk.l0 l1_seed (32 - rk.l1)
  pub l2_full :
      rk.l2 < 31
      → rk.l2_key
        ≡ l2_key_at c algorithm rk.root_key_identifier rk.l0 l1_seed (31 - rk.l1) (31 - rk.l2)

-- The request is at or below the envelope: what the cache asks of a key that it returns.
abbrev pub Covers : ℕ → ℕ → ℕ → ℕ → Type 0
Covers l1 l2 request_l1 request_l2 = (request_l1 < l1) ⊎ ((l1 ≡ request_l1) × (request_l2 ≤ l2))

module _ (c : Kdfs) (algorithm : HashAlgorithm) (l1_seed : Bytes) (rk : GroupKeyEnvelope) where
  abbrev at_l1 : ℕ → Bytes
  at_l1 = l1_key_at c algorithm rk.root_key_identifier rk.l0 l1_seed

  abbrev at_l2 : ℕ → ℕ → Bytes
  at_l2 = l2_key_at c algorithm rk.root_key_identifier rk.l0 l1_seed

  pub derive_key-ok :
      (key : Bytes) (l1 l2 : ℤ)
      → rk.l0 < 2 ^ 31
      → InRange32 l1
      → InRange32 l2
      → derive_key c algorithm rk key l1 l2
        ≡ ok (step c algorithm rk.root_key_identifier rk.l0 l1_seed key l1 l2)
  unfolding derive_key
  derive_key-ok key l1 l2 h0 h1 h2 =
      rw (compute_kdf_context-ok rk.root_key_identifier (pos rk.l0) l1 l2 h0 h1 h2)

  step_l1 :
      (i : ℕ)
      → i < 31
      → step c algorithm rk.root_key_identifier rk.l0 l1_seed (at_l1 (31 - suc i)) (pos i) minus_one
        ≡ at_l1 (31 - i)
  unfolding l1_key_at
  step_l1 i h =
      let e : 31 - i ≡ suc (31 - suc i) = omega arith in
      let f : 31 - suc (31 - suc i) ≡ i = omega arith in rw (e, f)

  step_l2 :
      (l1 i : ℕ)
      → l1 ≤ 31
      → i < 31
      → step c algorithm rk.root_key_identifier rk.l0 l1_seed
          (at_l2 (31 - l1) (31 - suc i))
          (pos l1)
          (pos i)
        ≡ at_l2 (31 - l1) (31 - i)
  unfolding l2_key_at
  step_l2 l1 i hl h =
      let e : 31 - i ≡ suc (31 - suc i) = omega arith in
      let f : 31 - suc (31 - suc i) ≡ i = omega arith in
      let g : 31 - (31 - l1) ≡ l1 = omega arith in rw (e, f, g)

  -- The loops stop at the index that is asked for, and take one step of the chain elsewhere.
  pub l1_loop_end :
      (fuel r : ℕ) (b : Bool) (key : Bytes)
      → l1_loop c algorithm rk (suc fuel) r b (pos r) key ≡ ok (b, pos r, key)
  unfolding l1_loop
  l1_loop_end fuel r b key = rw (==_refl r)

  l1_loop_step :
      (fuel r i : ℕ) (b : Bool)
      → rk.l0 < 2 ^ 31
      → r ≤ i
      → i < 31
      → l1_loop c algorithm rk (suc fuel) r b (pos (suc i)) (at_l1 (31 - suc i))
        ≡ l1_loop c algorithm rk fuel r true (pos i) (at_l1 (31 - i))
  unfolding l1_loop
  l1_loop_step fuel r i b h0 hr hi =
      let differ : (suc i == r) ≡ false = ground arith in
      let small : i < 2 ^ 31 = omega arith in
      rw (
        differ,
        derive_key-ok (at_l1 (31 - suc i)) (pos i) minus_one h0 small (omega arith),
        step_l1 i hi,
      )

  pub l2_loop_end :
      (fuel r : ℕ) (l1 : ℤ) (key : Bytes)
      → l2_loop c algorithm rk (suc fuel) r l1 (pos r) key ≡ ok key
  unfolding l2_loop
  l2_loop_end fuel r l1 key = rw (==_refl r)

  l2_loop_step :
      (fuel l1 r i : ℕ)
      → rk.l0 < 2 ^ 31
      → l1 ≤ 31
      → r ≤ i
      → i < 31
      → l2_loop c algorithm rk (suc fuel) r (pos l1) (pos (suc i)) (at_l2 (31 - l1) (31 - suc i))
        ≡ l2_loop c algorithm rk fuel r (pos l1) (pos i) (at_l2 (31 - l1) (31 - i))
  unfolding l2_loop
  l2_loop_step fuel l1 r i h0 hl hr hi =
      let differ : (suc i == r) ≡ false = ground arith in
      rw (
        differ,
        derive_key-ok (at_l2 (31 - l1) (31 - suc i)) (pos l1) (pos i) h0 (omega arith)
            (omega arith),
        step_l2 l1 i hl hi,
      )

  -- From any index of the chain the loops end at the requested key.
  pub l1_loop-chain :
      (n fuel r : ℕ)
      → rk.l0 < 2 ^ 31
      → n < fuel
      → n + r ≤ 31
      → l1_loop c algorithm rk fuel r true (pos (n + r)) (at_l1 (31 - (n + r)))
        ≡ ok (true, pos r, at_l1 (31 - r))
  l1_loop-chain n zero r h0 hf h = absurd (omega arith)
  l1_loop-chain zero (suc fuel) r h0 hf h =
      let e : 0 + r ≡ r = omega arith in rw e (l1_loop_end fuel r true (at_l1 (31 - r)))
  l1_loop-chain (suc n) (suc fuel) r h0 hf h =
      let e : suc n + r ≡ suc (n + r) = omega arith in
      rw (e, l1_loop_step fuel r (n + r) true h0 (omega arith) (omega arith))
        (l1_loop-chain n fuel r h0 (omega arith) (omega arith))

  pub l2_loop-chain :
      (n fuel l1 r : ℕ)
      → rk.l0 < 2 ^ 31
      → l1 ≤ 31
      → n < fuel
      → n + r ≤ 31
      → l2_loop c algorithm rk fuel r (pos l1) (pos (n + r)) (at_l2 (31 - l1) (31 - (n + r)))
        ≡ ok (at_l2 (31 - l1) (31 - r))
  l2_loop-chain n zero l1 r h0 hl hf h = absurd (omega arith)
  l2_loop-chain zero (suc fuel) l1 r h0 hl hf h =
      let e : 0 + r ≡ r = omega arith in
      rw e (l2_loop_end fuel r (pos l1) (at_l2 (31 - l1) (31 - r)))
  l2_loop-chain (suc n) (suc fuel) l1 r h0 hl hf h =
      let e : suc n + r ≡ suc (n + r) = omega arith in
      rw (e, l2_loop_step fuel l1 r (n + r) h0 hl (omega arith) (omega arith))
        (l2_loop-chain n fuel l1 r h0 hl (omega arith) (omega arith))
