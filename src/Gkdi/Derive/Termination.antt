-- ===== src/Gkdi/Derive/Termination.antt =====
-- The loops of compute_l2_key of src/dpapi_ng/_gkdi.py below zero and out of the signed 32-bit
-- range.
use dpapi_ng.Base.{
  ℕ, zero, suc, ◌+◌, ◌*◌, ◌^◌, ◌<◌, ◌≤◌, ◌≡◌, refl, ◌⊎◌, inl, inr, Bool, true, false, ◌==◌, Result,
  ok, err, overflow_error, ◌>>=◌, ℤ, pos, negsuc, arith, Bool-cases, ltb,
}
use dpapi_ng.Bytes.{Bytes, to_bytes_signed}
use dpapi_ng.Bytes.Uuid.{Uuid}
use dpapi_ng.Crypto.{HashAlgorithm, Kdfs}
use dpapi_ng.Gkdi.Envelope.{GroupKeyEnvelope}
use dpapi_ng.Gkdi.Context.{compute_kdf_context}
use dpapi_ng.Gkdi.Derive.{minus_one, derive_key, l1_loop, l2_loop}

-- A call that returns, or raises OverflowError.
abbrev pub OnlyOverflow {ℓ} : {A : Type ℓ} → Result A → Type 0
OnlyOverflow (ok a) = Unit {0}
OnlyOverflow (err e) = e ≡ overflow_error

module _ {ℓ κ} {A : Type ℓ} {B : Type κ} where
  pub OnlyOverflow-bind :
      (m : Result A) (f : A → Result B)
      → OnlyOverflow m
      → ((a : A) → OnlyOverflow (f a))
      → OnlyOverflow (m >>= f)
  OnlyOverflow-bind (ok a) f h k = k a
  OnlyOverflow-bind (err e) f h k = h

  pub overflow-bind :
      (m : Result A) (f : A → Result B)
      → OnlyOverflow m
      → ((a : A) → f a ≡ err overflow_error)
      → (m >>= f) ≡ err overflow_error
  overflow-bind (ok a) f h k = k a
  overflow-bind (err e) f h k = rw h

module _ {ℓ κ ι} {A : Type ℓ} {B : Type κ} {C : Type ι} where
  pub OnlyOverflow-map_bind :
      (m : Result A) (g : A → B) (f : B → Result C)
      → OnlyOverflow m
      → ((a : A) → OnlyOverflow (f (g a)))
      → OnlyOverflow ((m >>= λ a. ok (g a)) >>= f)
  OnlyOverflow-map_bind (ok a) g f h k = k a
  OnlyOverflow-map_bind (err e) g f h k = h

  pub overflow-map_bind :
      (m : Result A) (g : A → B) (f : B → Result C)
      → OnlyOverflow m
      → ((a : A) → f (g a) ≡ err overflow_error)
      → ((m >>= λ a. ok (g a)) >>= f) ≡ err overflow_error
  overflow-map_bind (ok a) g f h k = k a
  overflow-map_bind (err e) g f h k = rw h

pub OnlyOverflow-cases {ℓ} :
    {A : Type ℓ} (r : Result A) → OnlyOverflow r → ((a : A) × (r ≡ ok a)) ⊎ (r ≡ err overflow_error)
OnlyOverflow-cases (ok a) h = inl (a, refl)
OnlyOverflow-cases (err e) h = inr (rw h)

pub overflow-only {ℓ} : {A : Type ℓ} (r : Result A) → r ≡ err overflow_error → OnlyOverflow r
overflow-only r h = rw h refl

signed-only : (w : ℕ) (z : ℤ) → OnlyOverflow (to_bytes_signed w z)
unfolding to_bytes_signed
signed-only w (pos n) = elim (Bool-cases (ltb (2 * n) (256 ^ w))) [
  | inl e ↦ rw e tt
  | inr e ↦ rw e refl
]
signed-only w (negsuc n) = elim (Bool-cases (ltb (2 * n) (256 ^ w))) [
  | inl e ↦ rw e tt
  | inr e ↦ rw e refl
]

-- Out of the range of a signed 32-bit integer there is no context.
abbrev pub Outside : ℤ → Type 0
Outside (pos n) = 2 ^ 31 ≤ n
Outside (negsuc n) = 2 ^ 31 ≤ n

signed-Outside : (z : ℤ) → Outside z → to_bytes_signed 4 z ≡ err overflow_error
unfolding to_bytes_signed
signed-Outside (pos n) h = let e : ltb (2 * n) (2 ^ 32) ≡ false = ground arith in rw e
signed-Outside (negsuc n) h = let e : ltb (2 * n) (2 ^ 32) ≡ false = ground arith in rw e

context-Outside :
    (guid : Uuid) (l0 l1 l2 : ℤ)
    → Outside l1 ⊎ Outside l2
    → compute_kdf_context guid l0 l1 l2 ≡ err overflow_error
unfolding compute_kdf_context
context-Outside guid l0 l1 l2 h = overflow-bind (to_bytes_signed 4 l0) _ (signed-only 4 l0) λ b0.
    elim h [
      | inl h1 ↦ rw (signed-Outside l1 h1)
      | inr h2 ↦
          overflow-bind (to_bytes_signed 4 l1) _ (signed-only 4 l1) λ b1. rw (signed-Outside l2 h2)
    ]

module _ (c : Kdfs) (algorithm : HashAlgorithm) (rk : GroupKeyEnvelope) where
  pub derive_key-only :
      (key : Bytes) (l1 l2 : ℤ) → OnlyOverflow (derive_key c algorithm rk key l1 l2)
  unfolding derive_key compute_kdf_context
  derive_key-only key l1 l2 =
      OnlyOverflow-bind _ _
        (OnlyOverflow-bind (to_bytes_signed 4 (pos rk.l0)) _ (signed-only 4 (pos rk.l0)) λ b0.
          OnlyOverflow-bind (to_bytes_signed 4 l1) _ (signed-only 4 l1)
            λ b1. OnlyOverflow-bind (to_bytes_signed 4 l2) _ (signed-only 4 l2) λ b2. tt)
        (λ k. tt)

  pub derive_key-Outside :
      (key : Bytes) (l1 l2 : ℤ)
      → Outside l1 ⊎ Outside l2
      → derive_key c algorithm rk key l1 l2 ≡ err overflow_error
  unfolding derive_key
  derive_key-Outside key l1 l2 h = rw (context-Outside rk.root_key_identifier (pos rk.l0) l1 l2 h)

  -- An index below zero never meets the request: the loop goes on to the end of the range.
  pub l1_loop-negative :
      (fuel r n : ℕ) (b : Bool) (key : Bytes)
      → 0 < fuel
      → 2 ^ 31 ≤ n + fuel
      → l1_loop c algorithm rk fuel r b (negsuc n) key ≡ err overflow_error
  unfolding l1_loop
  l1_loop-negative zero r n b key h0 h = absurd (omega arith)
  l1_loop-negative (suc fuel) r n b key h0 h = elim (Bool-cases (ltb (suc n) (2 ^ 31))) [
    | inl more ↦
        overflow-bind (derive_key c algorithm rk key (negsuc (suc n)) minus_one) _
          (derive_key-only key (negsuc (suc n)) minus_one)
          λ k. l1_loop-negative fuel r (suc n) true k (ground arith) (omega arith)
    | inr last ↦ rw (derive_key-Outside key (negsuc (suc n)) minus_one (inl (ground arith)))
  ]

  pub l2_loop-negative :
      (fuel r n : ℕ) (l1 : ℤ) (key : Bytes)
      → 0 < fuel
      → 2 ^ 31 ≤ n + fuel
      → l2_loop c algorithm rk fuel r l1 (negsuc n) key ≡ err overflow_error
  unfolding l2_loop
  l2_loop-negative zero r n l1 key h0 h = absurd (omega arith)
  l2_loop-negative (suc fuel) r n l1 key h0 h = elim (Bool-cases (ltb (suc n) (2 ^ 31))) [
    | inl more ↦
        overflow-bind (derive_key c algorithm rk key l1 (negsuc (suc n))) _
          (derive_key-only key l1 (negsuc (suc n)))
          λ k. l2_loop-negative fuel r (suc n) l1 k (ground arith) (omega arith)
    | inr last ↦ rw (derive_key-Outside key l1 (negsuc (suc n)) (inr (ground arith)))
  ]

  -- Below the request the index never meets it either.
  pub l1_loop-above :
      (i fuel r : ℕ) (b : Bool) (key : Bytes)
      → i + 2 ^ 31 < fuel
      → i < r
      → l1_loop c algorithm rk fuel r b (pos i) key ≡ err overflow_error
  unfolding l1_loop
  l1_loop-above i zero r b key h above = absurd (omega arith)
  l1_loop-above zero (suc fuel) r b key h above =
      let differ : (0 == r) ≡ false = ground arith in
      rw differ (
        overflow-bind (derive_key c algorithm rk key minus_one minus_one) _
          (derive_key-only key minus_one minus_one)
          λ k. l1_loop-negative fuel r 0 true k (omega arith) (omega arith))
  l1_loop-above (suc i) (suc fuel) r b key h above =
      let differ : (suc i == r) ≡ false = ground arith in
      rw differ (
        overflow-bind (derive_key c algorithm rk key (pos i) minus_one) _
          (derive_key-only key (pos i) minus_one)
          λ k. l1_loop-above i fuel r true k (omega arith) (omega arith))

  pub l2_loop-above :
      (i fuel r : ℕ) (l1 : ℤ) (key : Bytes)
      → i + 2 ^ 31 < fuel
      → i < r
      → l2_loop c algorithm rk fuel r l1 (pos i) key ≡ err overflow_error
  unfolding l2_loop
  l2_loop-above i zero r l1 key h above = absurd (omega arith)
  l2_loop-above zero (suc fuel) r l1 key h above =
      let differ : (0 == r) ≡ false = ground arith in
      rw differ (
        overflow-bind (derive_key c algorithm rk key l1 minus_one) _
          (derive_key-only key l1 minus_one)
          λ k. l2_loop-negative fuel r 0 l1 k (omega arith) (omega arith))
  l2_loop-above (suc i) (suc fuel) r l1 key h above =
      let differ : (suc i == r) ≡ false = ground arith in
      rw differ (
        overflow-bind (derive_key c algorithm rk key l1 (pos i)) _ (derive_key-only key l1 (pos i))
          λ k. l2_loop-above i fuel r l1 k (omega arith) (omega arith))
