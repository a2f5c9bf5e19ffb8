-- ===== src/Client/Clock/Indices.antt =====
-- The indices of _get_protection_gke_from_cache of src/dpapi_ng/_client.py, against those of MS-GKDI
-- 3.1.4.1: whole divisions of the time.
use native.Mathlib.Nat.{
  le-div_iff_mul-le, div-lt_iff_lt-mul, mod-lt, div-add-mod', one-le-pow, mul-le-mul_left,
  mul-le-mul_right, pow-le-pow_right,
}
use dpapi_ng.Base.{ℕ, zero, suc, ◌+◌, ◌-◌, ◌*◌, ◌/◌, ◌%◌, ◌^◌, ◌<◌, ◌≤◌, ◌≡◌, sym, ◌∙◌, arith}
use dpapi_ng.Client.Clock.{
  exponent, binary_places, int_true_div, base, l0_index, l1_index, l2_index,
}

exponent-bound : (fuel n q : ℕ) → q < 2 ^ suc n → exponent fuel q ≤ n
unfolding exponent
exponent-bound zero n q h = omega arith
exponent-bound (suc fuel) zero q h = ground arith
exponent-bound (suc fuel) (suc n) q h =
    let rest = exponent-bound fuel n (q / 2) (omega arith) in ground arith

div-between : (x d q : ℕ) → 0 < d → q * d ≤ x → x < suc q * d → x / d ≡ q
div-between x d q h lo hi =
    let a = (le-div_iff_mul-le {k = d} {x = q} {y = x} h).1 lo in
    let b = (div-lt_iff_lt-mul {k = d} {x = x} {y = suc q} h).1 hi in omega arith

-- The quotient of a number that lies at least m below the next multiple.
round_down :
    (b s x q r m : ℕ)
    → 0 < b
    → 0 < s
    → b < 2 * (m * s)
    → x ≡ q * b + r
    → r + m ≤ b
    → (2 * x * s + b) / (2 * b) / s ≡ q
round_down b s x q r m hb hs h e k =
    let expand : 2 * x * s ≡ q * s * (2 * b) + 2 * (r * s) = rw e (grind arith) in
    let step : (r + m) * s ≤ b * s = mul-le-mul_right s k in
    let next : suc q * s * (2 * b) ≡ q * s * (2 * b) + 2 * (b * s) = grind arith in
    let apart : (r + m) * s ≡ r * s + m * s = grind arith in
    div-between ((2 * x * s + b) / (2 * b)) s q hs
      ((le-div_iff_mul-le {k = 2 * b} {x = q * s} {y = 2 * x * s + b} (omega arith)).1
        (omega arith))
      ((div-lt_iff_lt-mul {k = 2 * b} {x = 2 * x * s + b} {y = suc q * s} (omega arith)).1
        (omega arith))

-- A rounded quotient is the next one at most.
round_bound :
    (b s x q r : ℕ) → 0 < s → x ≡ q * b + r → r < b → (2 * x * s + b) / (2 * b) / s ≤ suc q
round_bound b s x q r hs e k =
    let expand : 2 * x * s ≡ q * s * (2 * b) + 2 * (r * s) = rw e (grind arith) in
    let step : suc r * s ≤ b * s = grind arith in
    let next : suc (suc q) * s * (2 * b) ≡ q * s * (2 * b) + 4 * (b * s) = grind arith in
    let apart : suc r * s ≡ r * s + s = grind arith in
    let some_b : b * 1 ≤ b * s = grind arith in
    let below : (2 * x * s + b) / (2 * b) < suc (suc q) * s =
      (div-lt_iff_lt-mul {k = 2 * b} {x = 2 * x * s + b} {y = suc (suc q) * s} (omega arith)).1
        (omega arith) in
    let under =
      (div-lt_iff_lt-mul {k = s} {x = (2 * x * s + b) / (2 * b)} {y = suc (suc q)} hs).1 below in
    omega arith

bound-exponent : (fuel n q : ℕ) → n < fuel → 2 ^ n ≤ q → n ≤ exponent fuel q
unfolding exponent
bound-exponent zero n q h k = omega arith
bound-exponent (suc fuel) zero q h k = omega arith
bound-exponent (suc fuel) (suc n) q h k =
    let rest = bound-exponent fuel n (q / 2) (omega arith) (omega arith) in
    let positive = one-le-pow n 2 (omega arith) in ground arith

-- Between 256 and 512 a quotient has 44 binary places.
places_lem : (q : ℕ) → 256 ≤ q → q < 512 → binary_places q ≡ 44
unfolding binary_places
places_lem q h k =
    let lo = bound-exponent 64 8 q (omega arith) (omega arith) in
    let hi = exponent-bound 64 8 q (omega arith) in ground arith

-- Below 2 ^ suc n a quotient has at least 52 - n binary places.
places-bound : (q n : ℕ) → n ≤ 52 → q < 2 ^ suc n → 2 ^ (52 - n) ≤ 2 ^ binary_places q
unfolding binary_places
places-bound q n h k =
    let e = exponent-bound 64 n q k in pow-le-pow_right {n = 2} (omega arith) (ground arith)

int_true_div-exact :
    (a b n m : ℕ)
    → 0 < b
    → n ≤ 52
    → a / b < 2 ^ suc n
    → b < 2 * (m * 2 ^ (52 - n))
    → a % b + m ≤ b
    → int_true_div a b ≡ a / b
unfolding int_true_div
int_true_div-exact a b n m h hn k small far =
    let s = 2 ^ binary_places (a / b) in
    let scale : 2 ^ (52 - n) ≤ s = places-bound (a / b) n hn k in
    let wide : m * 2 ^ (52 - n) ≤ m * s = mul-le-mul_left m scale in
    round_down b s a (a / b) (a % b) m h (one-le-pow (binary_places (a / b)) 2 (omega arith))
      (omega arith) (sym (div-add-mod' a b)) far

int_true_div-bound : (a b : ℕ) → 0 < b → int_true_div a b ≤ suc (a / b)
unfolding int_true_div
int_true_div-bound a b h =
    round_bound b (2 ^ binary_places (a / b)) a (a / b) (a % b)
      (one-le-pow (binary_places (a / b)) 2 (omega arith)) (sym (div-add-mod' a b)) (mod-lt a h)

-- Floats lose nothing of the L1 and L2 indices.
pub l1_index-l2_index :
    (time : ℕ)
    → (l1_index time ≡ time % (1024 * base) / (32 * base))
      × (l2_index time ≡ time % (32 * base) / base)
      × (l1_index time ≤ 31)
      × (l2_index time ≤ 31)
unfolding l1_index l2_index
l1_index-l2_index time =
    let a =
      int_true_div-exact (time % (1024 * base)) (32 * base) 4 1 (omega arith) (omega arith)
        (omega arith) (omega arith) (omega arith) in
    let b =
      int_true_div-exact (time % (32 * base)) base 4 1 (omega arith) (omega arith) (omega arith)
        (omega arith) (omega arith) in
    (a, b, omega arith, omega arith)

pub l0_index-bound : (time : ℕ) → l0_index time ≤ suc (time / (1024 * base))
unfolding l0_index
l0_index-bound time = int_true_div-bound time (1024 * base) (omega arith)

-- For a time of less than 512 L0 intervals that is followed by more than ten ticks of its L0
-- interval: the three indices, which the code computes by dividing floats, are those of MS-GKDI,
-- whole divisions of the time, the L1 and L2 index modulo 32.
pub indices_exact :
    (time : ℕ)
    → time < 512 * (1024 * base)
    → time % (1024 * base) + 11 ≤ 1024 * base
    → (l0_index time ≡ time / (1024 * base))
      × (l1_index time ≡ time / (32 * base) % 32)
      × (l2_index time ≡ time / base % 32)
unfolding l0_index
indices_exact time h far =
    let (a, b, _, _) = l1_index-l2_index time in
    let exact =
      int_true_div-exact time (1024 * base) 8 11 (omega arith) (omega arith) (omega arith)
        (omega arith) far in
    (exact, a ∙ omega arith, b ∙ omega arith)

-- For a time between 256 and 512 L0 intervals that is one of the last ten ticks of its L0
-- interval: the L0 index is already that of the next interval, while the L1 and L2 indices are
-- still 31.
pub l0_index_ahead :
    (time : ℕ)
    → 256 * (1024 * base) ≤ time
    → time < 512 * (1024 * base)
    → 1024 * base ≤ time % (1024 * base) + 10
    → (l0_index time ≡ suc (time / (1024 * base))) × (l1_index time ≡ 31) × (l2_index time ≡ 31)
unfolding l0_index int_true_div
l0_index_ahead time h k near =
    let (a, b, _, _) = l1_index-l2_index time in
    let places = places_lem (time / (1024 * base)) (omega arith) (omega arith) in
    (rw places (omega arith), a ∙ omega arith, b ∙ omega arith)
