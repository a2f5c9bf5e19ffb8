-- ===== src/Gkdi/Derive/Total.antt =====
-- compute_l2_key of src/dpapi_ng/_gkdi.py on every input.
use dpapi_ng.Base.{
  ℕ, zero, suc, ◌+◌, ◌-◌, ◌^◌, ◌<◌, ◌≤◌, ◌≡◌, ◌⊎◌, inl, inr, Bool, true, false, not, ◌&&◌, ◌==◌,
  if◌then◌else◌, ok, err, overflow_error, ◌>>=◌, ℤ, pos, pred_ℤ, arith, Bool-cases, ltb, [],
}
use dpapi_ng.Bytes.{Bytes}
use dpapi_ng.Crypto.{HashAlgorithm, Kdfs}
use dpapi_ng.Gkdi.Envelope.{GroupKeyEnvelope}
use dpapi_ng.Gkdi.Derive.{
  minus_one, derive_key, l1_loop, l2_loop, reseed, loop_fuel, first_l1, after_l1, compute_l2_key,
}
use dpapi_ng.Gkdi.Derive.Chain.{l1_loop_end, l2_loop_end}
use dpapi_ng.Gkdi.Derive.Termination.{
  OnlyOverflow, OnlyOverflow-bind, OnlyOverflow-map_bind, overflow-map_bind, overflow-only,
  OnlyOverflow-cases, derive_key-only, derive_key-Outside, l1_loop-negative, l2_loop-negative,
  l1_loop-above, l2_loop-above,
}

module _ (c : Kdfs) (algorithm : HashAlgorithm) (rk : GroupKeyEnvelope) where
  -- From an index that no signed 32-bit integer reaches the first step fails.
  l1_loop-huge :
      (i fuel r : ℕ) (b : Bool) (key : Bytes)
      → 2 ^ 31 ≤ i
      → (suc i == r) ≡ false
      → l1_loop c algorithm rk (suc fuel) r b (pos (suc i)) key ≡ err overflow_error
  unfolding l1_loop
  l1_loop-huge i fuel r b key h differ =
      rw (differ, derive_key-Outside c algorithm rk key (pos i) minus_one (inl h))

  l2_loop-huge :
      (i fuel r : ℕ) (l1 : ℤ) (key : Bytes)
      → 2 ^ 31 ≤ i
      → (suc i == r) ≡ false
      → l2_loop c algorithm rk (suc fuel) r l1 (pos (suc i)) key ≡ err overflow_error
  unfolding l2_loop
  l2_loop-huge i fuel r l1 key h differ =
      rw (differ, derive_key-Outside c algorithm rk key l1 (pos i) (inr h))

  l1_loop-only :
      (i fuel r : ℕ) (b : Bool) (key : Bytes)
      → i + 2 ^ 31 < fuel
      → OnlyOverflow (l1_loop c algorithm rk fuel r b (pos i) key)
  unfolding l1_loop
  l1_loop-only i zero r b key h = absurd (omega arith)
  l1_loop-only zero (suc fuel) r b key h = elim (Bool-cases (0 == r)) [
    | inl same ↦ rw same tt
    | inr differ ↦ rw differ (
        OnlyOverflow-bind _ _ (derive_key-only c algorithm rk key minus_one minus_one) λ k.
          overflow-only _
            (l1_loop-negative c algorithm rk fuel r 0 true k (omega arith) (omega arith)))
  ]
  l1_loop-only (suc i) (suc fuel) r b key h = elim (Bool-cases (suc i == r)) [
    | inl same ↦ rw same tt
    | inr differ ↦ rw differ (
        OnlyOverflow-bind _ _ (derive_key-only c algorithm rk key (pos i) minus_one)
          λ k. l1_loop-only i fuel r true k (omega arith))
  ]

  l2_loop-only :
      (i fuel r : ℕ) (l1 : ℤ) (key : Bytes)
      → i + 2 ^ 31 < fuel
      → OnlyOverflow (l2_loop c algorithm rk fuel r l1 (pos i) key)
  unfolding l2_loop
  l2_loop-only i zero r l1 key h = absurd (omega arith)
  l2_loop-only zero (suc fuel) r l1 key h = elim (Bool-cases (0 == r)) [
    | inl same ↦ rw same tt
    | inr differ ↦ rw differ (
        OnlyOverflow-bind _ _ (derive_key-only c algorithm rk key l1 minus_one) λ k.
          overflow-only _
            (l2_loop-negative c algorithm rk fuel r 0 l1 k (omega arith) (omega arith)))
  ]
  l2_loop-only (suc i) (suc fuel) r l1 key h = elim (Bool-cases (suc i == r)) [
    | inl same ↦ rw same tt
    | inr differ ↦ rw differ (
        OnlyOverflow-bind _ _ (derive_key-only c algorithm rk key l1 (pos i))
          λ k. l2_loop-only i fuel r l1 k (omega arith))
  ]

  -- The fuel of the model reaches the request, or the end of the range, from every index.
  l1_loop-total :
      (i r : ℕ) (b : Bool) (key : Bytes)
      → OnlyOverflow (l1_loop c algorithm rk loop_fuel r b (pos i) key)
  unfolding loop_fuel
  l1_loop-total zero r b key = l1_loop-only 0 (2 ^ 33) r b key (omega arith)
  l1_loop-total (suc i) r b key = elim (Bool-cases (ltb i (2 ^ 31))) [
    | inl small ↦ l1_loop-only (suc i) (2 ^ 33) r b key (ground arith)
    | inr large ↦ elim (Bool-cases (suc i == r)) [
      | inl same ↦
          let e : suc i ≡ r = ground arith in
          rw (e, l1_loop_end c algorithm [] rk (2 ^ 33 - 1) r b key) tt
      | inr differ ↦ overflow-only _ (l1_loop-huge i (2 ^ 33 - 1) r b key (ground arith) differ)
    ]
  ]

  l2_loop-total :
      (i r : ℕ) (l1 : ℤ) (key : Bytes)
      → OnlyOverflow (l2_loop c algorithm rk loop_fuel r l1 (pos i) key)
  unfolding loop_fuel
  l2_loop-total zero r l1 key = l2_loop-only 0 (2 ^ 33) r l1 key (omega arith)
  l2_loop-total (suc i) r l1 key = elim (Bool-cases (ltb i (2 ^ 31))) [
    | inl small ↦ l2_loop-only (suc i) (2 ^ 33) r l1 key (ground arith)
    | inr large ↦ elim (Bool-cases (suc i == r)) [
      | inl same ↦
          let e : suc i ≡ r = ground arith in
          rw (e, l2_loop_end c algorithm [] rk (2 ^ 33 - 1) r l1 key) tt
      | inr differ ↦ overflow-only _ (l2_loop-huge i (2 ^ 33 - 1) r l1 key (ground arith) differ)
    ]
  ]

  l1_loop-short :
      (i r : ℕ) (b : Bool) (key : Bytes)
      → i < r
      → l1_loop c algorithm rk loop_fuel r b (pos i) key ≡ err overflow_error
  unfolding loop_fuel
  l1_loop-short i r b key h = elim (Bool-cases (ltb i (2 ^ 32))) [
    | inl small ↦ l1_loop-above c algorithm rk i (2 ^ 33) r b key (ground arith) h
    | inr large ↦
        let e : i ≡ suc (i - 1) = ground arith in
        let differ : (suc (i - 1) == r) ≡ false = ground arith in
        rw e (l1_loop-huge (i - 1) (2 ^ 33 - 1) r b key (ground arith) differ)
  ]

  l2_loop-short :
      (i r : ℕ) (l1 : ℤ) (key : Bytes)
      → i < r
      → l2_loop c algorithm rk loop_fuel r l1 (pos i) key ≡ err overflow_error
  unfolding loop_fuel
  l2_loop-short i r l1 key h = elim (Bool-cases (ltb i (2 ^ 32))) [
    | inl small ↦ l2_loop-above c algorithm rk i (2 ^ 33) r l1 key (ground arith) h
    | inr large ↦
        let e : i ≡ suc (i - 1) = ground arith in
        let differ : (suc (i - 1) == r) ≡ false = ground arith in
        rw e (l2_loop-huge (i - 1) (2 ^ 33 - 1) r l1 key (ground arith) differ)
  ]

  after_l1-only :
      (r2 : ℕ) (b : Bool) (l1 : ℤ) (key : Bytes)
      → OnlyOverflow (after_l1 c algorithm rk r2 (b, l1, key))
  unfolding after_l1 reseed
  after_l1-only r2 true l1 key =
      OnlyOverflow-map_bind (derive_key c algorithm rk key l1 (pos 31)) (λ k. (pos 31, k)) _
        (derive_key-only c algorithm rk key l1 (pos 31)) λ k. l2_loop-total 31 r2 l1 k
  after_l1-only r2 false l1 key = l2_loop-total rk.l2 r2 l1 rk.l2_key

  l1_loop-first :
      (n r : ℕ) (b : Bool) (key : Bytes)
      → OnlyOverflow (l1_loop c algorithm rk loop_fuel r b (pred_ℤ (pos n)) key)
  l1_loop-first zero r b key = overflow-only _ (
      l1_loop-negative c algorithm rk loop_fuel r 0 b key (unfold loop_fuel in omega arith)
        (unfold loop_fuel in omega arith))
  l1_loop-first (suc n) r b key = l1_loop-total n r b key

  l1_loop-first_short :
      (n r : ℕ) (b : Bool) (key : Bytes)
      → n < r
      → l1_loop c algorithm rk loop_fuel r b (pred_ℤ (pos n)) key ≡ err overflow_error
  l1_loop-first_short zero r b key h =
      l1_loop-negative c algorithm rk loop_fuel r 0 b key (unfold loop_fuel in omega arith)
        (unfold loop_fuel in omega arith)
  l1_loop-first_short (suc n) r b key h = l1_loop-short n r b key (omega arith)

  compute_l2_key-only : (r1 r2 : ℕ) → OnlyOverflow (compute_l2_key c algorithm rk r1 r2)
  unfolding compute_l2_key first_l1
  compute_l2_key-only r1 r2 =
      OnlyOverflow-bind _ _
        (elim (Bool-cases (not (rk.l2 == 31) && not (rk.l1 == r1))) [
          | inl e ↦ rw e (l1_loop-first rk.l1 r1 _ rk.l1_key)
          | inr e ↦ rw e (l1_loop-total rk.l1 r1 _ rk.l1_key)
        ])
        λ (b, l1, key). after_l1-only r2 b l1 key

  -- Whatever the envelope and the request are, compute_l2_key returns a key or raises
  -- OverflowError; the fuel of the model's loops never runs out.
  pub compute_l2_key_total :
      (r1 r2 : ℕ)
      → ((key : Bytes) × (compute_l2_key c algorithm rk r1 r2 ≡ ok key))
        ⊎ (compute_l2_key c algorithm rk r1 r2 ≡ err overflow_error)
  compute_l2_key_total r1 r2 = OnlyOverflow-cases _ (compute_l2_key-only r1 r2)

  -- The indices of the second loop start below the request.
  after_l1-short :
      (r2 : ℕ) (b : Bool) (l1 : ℤ) (key : Bytes)
      → (if b then 31 else rk.l2) < r2
      → after_l1 c algorithm rk r2 (b, l1, key) ≡ err overflow_error
  unfolding after_l1 reseed
  after_l1-short r2 true l1 key h =
      overflow-map_bind (derive_key c algorithm rk key l1 (pos 31)) (λ k. (pos 31, k)) _
        (derive_key-only c algorithm rk key l1 (pos 31)) λ k. l2_loop-short 31 r2 l1 k h
  after_l1-short r2 false l1 key h = l2_loop-short rk.l2 r2 l1 rk.l2_key h

  own_l1-short :
      (r2 : ℕ) (b : Bool)
      → (if b then 31 else rk.l2) < r2
      → (l1_loop c algorithm rk loop_fuel rk.l1 b (pos rk.l1) rk.l1_key
          >>= after_l1 c algorithm rk r2)
        ≡ err overflow_error
  own_l1-short r2 b h =
      let loop : l1_loop c algorithm rk loop_fuel rk.l1 b (pos rk.l1) rk.l1_key
          ≡ ok (b, pos rk.l1, rk.l1_key) =
        unfold loop_fuel in l1_loop_end c algorithm [] rk (2 ^ 33 - 1) rk.l1 b rk.l1_key in
      rw loop (after_l1-short r2 b (pos rk.l1) rk.l1_key h)

  -- A request above the envelope (a greater L1 index, or its own L1 index and a greater L2
  -- index) raises OverflowError.
  pub compute_l2_key-overflow :
      (r1 r2 : ℕ)
      → (rk.l1 < r1) ⊎ ((rk.l1 ≡ r1) × (rk.l2 < r2))
      → compute_l2_key c algorithm rk r1 r2 ≡ err overflow_error
  unfolding compute_l2_key first_l1
  compute_l2_key-overflow r1 r2 (inl above) =
      elim (Bool-cases (not (rk.l2 == 31) && not (rk.l1 == r1))) [
        | inl e ↦ rw (e, l1_loop-first_short rk.l1 r1 _ rk.l1_key above)
        | inr e ↦ rw (e, l1_loop-short rk.l1 r1 _ rk.l1_key above)
      ]
  compute_l2_key-overflow r1 r2 (inr (same, above)) =
      let equal : (rk.l1 == r1) ≡ true = ground arith in
      elim (Bool-cases (rk.l2 == 31)) [
        | inl full ↦ rw (full, ← same) (own_l1-short r2 true (ground arith))
        | inr partial ↦ rw (partial, equal, ← same) (own_l1-short r2 false above)
      ]
