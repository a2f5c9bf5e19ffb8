-- ===== src/Base/Errors.antt =====
-- What a call that may raise returns: the exceptions of the program, and `do` blocks over them.
use Prim.Native.Nat.{ℕ, zero, suc}
use mathlib.Core.Path.{◌≡◌, refl}
use mathlib.Core.Logic.{◌⊎◌, inl, inr}
use mathlib.Core.List.{List, [], ◌∷◌}

-- `out_of_fuel` is no exception of the program: a loop of the model used up its rounds.
pub data Error : Type 0 where
  value_error overflow_error not_implemented index_error key_error unicode_error type_error : Error
  not_enough_data struct_error buffer_error out_of_fuel : Error

pub data Result {ℓ} (Value : Type ℓ) : Type ℓ where
  err : Error → Result Value
  ok : Value → Result Value

-- A call behind another one: an exception of the first is that of both.
infixl 5 ◌>>=◌
abbrev pub ◌>>=◌ {ℓ κ} :
    {Value : Type ℓ} {Next : Type κ} → Result Value → (Value → Result Next) → Result Next
err raised >>= next = err raised
ok value >>= next = next value

pub >>=-eq-ok {ℓ κ} :
    {Value : Type ℓ} {Next : Type κ} (m : Result Value) (next : Value → Result Next) {b : Next}
    → (m >>= next) ≡ ok b
    → (value : Value) × (m ≡ ok value) × (next value ≡ ok b)
>>=-eq-ok (err raised) next h = cc
>>=-eq-ok (ok value) next h = (value, refl, h)

pub Result-cases {ℓ} :
    {Value : Type ℓ} (m : Result Value)
    → ((raised : Error) × (m ≡ err raised)) ⊎ ((value : Value) × (m ≡ ok value))
Result-cases (err raised) = inl (raised, refl)
Result-cases (ok value) = inr (value, refl)

-- The list of what a call returns for each element, up to the first exception.
abbrev pub map_result {ℓ κ} : {A : Type ℓ} {B : Type κ} → (A → Result B) → List A → Result (List B)
map_result f [] = ok []
map_result f (x ∷ xs) = do y ← f x; ys ← map_result f xs; ok (y ∷ ys)

-- data[n]
abbrev pub index {ℓ} : {A : Type ℓ} → ℕ → List A → Result A
index n [] = err index_error
index zero (b ∷ bs) = ok b
index (suc n) (b ∷ bs) = index n bs
