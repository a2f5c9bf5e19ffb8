-- ===== src/Gkdi/Derive/Correct.antt =====
-- compute_l2_key of src/dpapi_ng/_gkdi.py against the key hierarchy.
use dpapi_ng.Base.{
  ℕ, zero, suc, ◌+◌, ◌-◌, ◌^◌, ◌<◌, ◌≤◌, ◌≡◌, ap, inl, inr, true, false, ◌==◌, ok, ◌>>=◌, pos,
  pred_ℤ, arith, Bool-cases,
}
use dpapi_ng.Bytes.{Bytes}
use dpapi_ng.Crypto.{HashAlgorithm, Kdfs}
use dpapi_ng.Gkdi.Envelope.{GroupKeyEnvelope}
use dpapi_ng.Gkdi.Derive.{l1_loop, l2_loop, reseed, loop_fuel, first_l1, after_l1, compute_l2_key}
use dpapi_ng.Gkdi.Derive.Chain.{
  step, l1_key_at, l2_key_at, IsGenuine, Covers, derive_key-ok, l1_loop-chain, l2_loop-chain,
  l1_loop_end,
}

module _ (c : Kdfs) (algorithm : HashAlgorithm) (l1_seed : Bytes) (rk : GroupKeyEnvelope) where
  abbrev at_l1 : ℕ → Bytes
  at_l1 = l1_key_at c algorithm rk.root_key_identifier rk.l0 l1_seed

  abbrev at_l2 : ℕ → ℕ → Bytes
  at_l2 = l2_key_at c algorithm rk.root_key_identifier rk.l0 l1_seed

  pred_pos : (n : ℕ) → 0 < n → pred_ℤ (pos n) ≡ pos (n - 1)
  pred_pos zero h = absurd (omega arith)
  pred_pos (suc n) h = ap pos (omega arith)

  l2_from :
      (l1 l2 r : ℕ) (key : Bytes)
      → rk.l0 < 2 ^ 31
      → l1 ≤ 31
      → l2 ≤ 31
      → r ≤ l2
      → key ≡ at_l2 (31 - l1) (31 - l2)
      → l2_loop c algorithm rk loop_fuel r (pos l1) (pos l2) key ≡ ok (at_l2 (31 - l1) (31 - r))
  l2_from l1 l2 r key h0 hl1 hl2 hr hk =
      let e : l2 - r + r ≡ l2 = omega arith in
      rw hk (
        rw e at (
          l2_loop-chain c algorithm l1_seed rk (l2 - r) loop_fuel l1 r h0 hl1
            (unfold loop_fuel in omega arith) (omega arith)))

  level_start :
      (r1 : ℕ)
      → r1 ≤ 31
      → step c algorithm rk.root_key_identifier rk.l0 l1_seed (at_l1 (31 - r1)) (pos r1) (pos 31)
        ≡ at_l2 (31 - r1) (31 - 31)
  unfolding l2_key_at
  level_start r1 h = let e : 31 - (31 - r1) ≡ r1 = omega arith in rw e

  -- With the level 1 key of the request at hand, the rest reaches the level 2 key.
  after_l1-reseed :
      (r1 r2 : ℕ)
      → rk.l0 < 2 ^ 31
      → r1 ≤ 31
      → r2 ≤ 31
      → after_l1 c algorithm rk r2 (true, pos r1, at_l1 (31 - r1)) ≡ ok (at_l2 (31 - r1) (31 - r2))
  unfolding after_l1 reseed
  after_l1-reseed r1 r2 h0 h1 h2 =
      rw
        (derive_key-ok c algorithm l1_seed rk (at_l1 (31 - r1)) (pos r1) (pos 31) h0 (omega arith)
          (omega arith))
        (l2_from r1 31 r2 _ h0 h1 (omega arith) h2 (level_start r1 h1))

  -- A request of the envelope's own L1 index needs no level 1 key.
  same_l1 :
      (r1 r2 : ℕ)
      → IsGenuine c algorithm l1_seed rk
      → rk.l1 ≡ r1
      → r2 ≤ rk.l2
      → rk.l2 < 31
      → (l1_loop c algorithm rk loop_fuel r1 false (pos rk.l1) rk.l1_key
          >>= after_l1 c algorithm rk r2)
        ≡ ok (at_l2 (31 - r1) (31 - r2))
  unfolding after_l1 reseed
  same_l1 r1 r2 g same le h =
      let loop : l1_loop c algorithm rk loop_fuel rk.l1 false (pos rk.l1) rk.l1_key
          ≡ ok (false, pos rk.l1, rk.l1_key) =
        unfold loop_fuel in l1_loop_end c algorithm l1_seed rk (2 ^ 33 - 1) rk.l1 false rk.l1_key in
      rw (← same, loop)
        (l2_from rk.l1 rk.l2 r2 rk.l2_key g.l0_range g.l1_range g.l2_range le (g.l2_full h))

  from_l1 :
      (i r1 r2 : ℕ) (key : Bytes)
      → rk.l0 < 2 ^ 31
      → i ≤ 31
      → r1 ≤ i
      → r2 ≤ 31
      → key ≡ at_l1 (31 - i)
      → (l1_loop c algorithm rk loop_fuel r1 true (pos i) key >>= after_l1 c algorithm rk r2)
        ≡ ok (at_l2 (31 - r1) (31 - r2))
  from_l1 i r1 r2 key h0 hi h1 h2 hk =
      let e : i - r1 + r1 ≡ i = omega arith in
      let loop =
        l1_loop-chain c algorithm l1_seed rk (i - r1) loop_fuel r1 h0
          (unfold loop_fuel in omega arith) (omega arith) in
      rw (hk, rw e at loop) (after_l1-reseed r1 r2 h0 (omega arith) h2)

  -- For an envelope whose keys are those of the key hierarchy of MS-GKDI under a level 1 seed,
  -- and a request at or below it (a smaller L1 index, or its own L1 index and an L2 index that
  -- is not greater) with an L2 index of 31 at most, compute_l2_key returns the hierarchy's
  -- level 2 key at the requested indices.
  pub compute_l2_key-chain :
      (r1 r2 : ℕ)
      → IsGenuine c algorithm l1_seed rk
      → Covers rk.l1 rk.l2 r1 r2
      → r2 ≤ 31
      → compute_l2_key c algorithm rk r1 r2 ≡ ok (at_l2 (31 - r1) (31 - r2))
  unfolding compute_l2_key first_l1
  compute_l2_key-chain r1 r2 g covers h2 = elim (Bool-cases (rk.l2 == 31)) [
    | inl full ↦ rw full (
        from_l1 rk.l1 r1 r2 rk.l1_key g.l0_range g.l1_range (ground arith) h2
          (g.l1_full (ground arith)))
    | inr partial ↦ elim covers [
      | inl below ↦
          let differ : (rk.l1 == r1) ≡ false = ground arith in
          let e : 31 - (rk.l1 - 1) ≡ 32 - rk.l1 = omega arith in
          rw (partial, differ, pred_pos rk.l1 (omega arith))
            (from_l1 (rk.l1 - 1) r1 r2 rk.l1_key g.l0_range (omega arith) (omega arith) h2
              (rw e (g.l1_below (ground arith) (omega arith))))
      | inr (same, le) ↦
          let equal : (rk.l1 == r1) ≡ true = ground arith in
          rw (partial, equal) (same_l1 r1 r2 g same le (ground arith))
    ]
  ]
