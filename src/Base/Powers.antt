-- ===== src/Base/Powers.antt =====
-- Powers modulo a number.
use Prim.Native.Nat.{ℕ, zero, suc, ◌+◌, ◌*◌, ◌/◌, ◌%◌, ◌^◌}
use mathlib.Core.Path.{◌≡◌, sym, ap, ap₂, ◌∙◌}
use native.Mathlib.Nat.{
  mul_comm, mul_assoc, mod-add-div, mod-mod, add-mul-mod_self_left, add-mul, pow-suc, pow-zero,
  mul-mul-mul_comm,
}

mod-mul_left : (a b m : ℕ) → a % m * b % m ≡ a * b % m
mod-mul_left a b m =
    let e : a * b ≡ a % m * b + m * (a / m * b) =
      sym (ap (λ (t : ℕ). t * b) (mod-add-div a m))
      ∙ add-mul (a % m) (m * (a / m)) b
      ∙ ap (λ (t : ℕ). a % m * b + t) (mul_assoc m (a / m) b) in
    sym (add-mul-mod_self_left (a % m * b) m (a / m * b)) ∙ ap (λ (t : ℕ). t % m) (sym e)

mod-mul : (a b m : ℕ) → a % m * (b % m) % m ≡ a * b % m
mod-mul a b m =
    mod-mul_left a (b % m) m
    ∙ ap (λ (t : ℕ). t % m) (mul_comm a (b % m))
    ∙ mod-mul_left b a m
    ∙ ap (λ (t : ℕ). t % m) (mul_comm b a)

pub mod-pow : (a n m : ℕ) → (a % m) ^ n % m ≡ a ^ n % m
mod-pow a zero m = rw (pow-zero (a % m), pow-zero a)
mod-pow a (suc n) m =
    rw (pow-suc (a % m) n, pow-suc a n)
      (sym (mod-mul ((a % m) ^ n) (a % m) m)
        ∙ ap₂ (λ s t. s * t % m) (mod-pow a n m) (mod-mod a m)
        ∙ mod-mul (a ^ n) a m)

mul-pow : (a b n : ℕ) → (a * b) ^ n ≡ a ^ n * b ^ n
mul-pow a b zero = rw (pow-zero (a * b), pow-zero a, pow-zero b)
mul-pow a b (suc n) = rw (
  pow-suc (a * b) n,
  pow-suc a n,
  pow-suc b n,
  mul-pow a b n,
  mul-mul-mul_comm (a ^ n) (b ^ n) a b,
)

one_pow : (n : ℕ) → 1 ^ n ≡ 1
one_pow zero = pow-zero 1
one_pow (suc n) = rw (pow-suc 1 n, one_pow n)

pub pow_swap : (a x y : ℕ) → (a ^ x) ^ y ≡ (a ^ y) ^ x
pow_swap a x zero = rw (pow-zero (a ^ x), pow-zero a, one_pow x)
pow_swap a x (suc y) = rw (pow-suc (a ^ x) y, pow-suc a y, mul-pow (a ^ y) a x, pow_swap a x y)

-- The power of a residue, and the exponents of two powers swapped.
pub pow_agree : (g x r p : ℕ) → (g ^ x % p) ^ r % p ≡ (g ^ r % p) ^ x % p
pow_agree g x r p =
    mod-pow (g ^ x) r p ∙ ap (λ (t : ℕ). t % p) (pow_swap g x r) ∙ sym (mod-pow (g ^ r) x p)
