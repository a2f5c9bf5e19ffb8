-- ===== src/Asn1/Oid/Digits.antt =====
-- str(n) and int(s) of the standard library together, and split(".") behind ".".join.
use dpapi_ng.Base.{
  ℕ, zero, suc, ◌+◌, ◌-◌, ◌*◌, ◌/◌, ◌%◌, ◌<◌, ◌≤◌, ◌≡◌, refl, ap, ◌∙◌, arith, true, false, inl, inr,
  Bool-cases, ◌&&◌, leb, ltb, ◌==◌, List, [], ◌∷◌, ◌++◌, append-nil, append_assoc, All, ok,
}
use dpapi_ng.Bytes.Text.{Text}
use dpapi_ng.Asn1.Oid.{decimal_from, decimal, int_from, int_of, split_dot, dotted, parse_arcs}

abbrev IsDigit : ℕ → Type 0
IsDigit c = (48 ≤ c) × (c ≤ 57)

int_from-digit :
    (c acc : ℕ) (s : Text) → IsDigit c → int_from acc (c ∷ s) ≡ int_from (acc * 10 + (c - 48)) s
unfolding int_from
int_from-digit c acc s (h, k) = let d : leb 48 c && leb c 57 ≡ true = ground arith in rw d

All-snoc : (s : Text) (c : ℕ) → All IsDigit s → IsDigit c → All IsDigit (s ++ (c ∷ []))
All-snoc [] c h k = (k, tt)
All-snoc (d ∷ s) c (hd, hs) k = (hd, All-snoc s c hs k)

decimal_from-digits : (fuel n : ℕ) → All IsDigit (decimal_from fuel n)
unfolding decimal_from
decimal_from-digits zero n = tt
decimal_from-digits (suc fuel) n = elim (Bool-cases (ltb n 10)) [
  | inl short ↦ let le : n ≤ 9 = ground arith in rw short (omega arith)
  | inr long ↦ rw long (
      All-snoc (decimal_from fuel (n / 10)) (48 + n % 10) (decimal_from-digits fuel (n / 10))
        (omega arith))
]

-- The digits of n read behind a number that is still 0.
int_from-decimal_from :
    (fuel n : ℕ) (rest : Text)
    → n < fuel
    → int_from 0 (decimal_from fuel n ++ rest) ≡ int_from n rest
unfolding decimal_from
int_from-decimal_from zero n rest h = absurd (omega arith)
int_from-decimal_from (suc fuel) n rest h = elim (Bool-cases (ltb n 10)) [
  | inl short ↦
      let le : n ≤ 9 = ground arith in
      rw short (
        int_from-digit (48 + n) 0 rest (omega arith)
        ∙ ap (λ (t : ℕ). int_from t rest) (omega arith))
  | inr long ↦
      let c = 48 + n % 10 in
      rw
        (
          long,
          append_assoc (decimal_from fuel (n / 10)) (c ∷ []) rest,
          int_from-decimal_from fuel (n / 10) (c ∷ rest) (ground arith),
        )
        (int_from-digit c (n / 10) rest (omega arith)
          ∙ ap (λ (t : ℕ). int_from t rest) (omega arith))
]

snoc-cons : (s : Text) (c : ℕ) → (d : ℕ) × (r : Text) × (s ++ (c ∷ []) ≡ d ∷ r)
snoc-cons [] c = (c, [], refl)
snoc-cons (d ∷ s) c = (d, s ++ (c ∷ []), refl)

decimal-cons : (n : ℕ) → (d : ℕ) × (r : Text) × (decimal n ≡ d ∷ r)
unfolding decimal decimal_from
decimal-cons n = elim (Bool-cases (ltb n 10)) [
  | inl short ↦ (48 + n, [], rw short)
  | inr long ↦
      let (d, r, e) = snoc-cons (decimal_from n (n / 10)) (48 + n % 10) in (d, r, rw long e)
]

-- int(str(n)) is n.
pub int_of-decimal : (n : ℕ) → int_of (decimal n) ≡ ok n
unfolding int_of
int_of-decimal n =
    let (d, r, e) = decimal-cons n in
    let digits : int_from 0 (decimal n ++ []) ≡ ok n =
      unfold decimal int_from in int_from-decimal_from (suc n) n [] (omega arith) in
    rw e (rw (append-nil, e) at digits)

not_dot : (c : ℕ) → IsDigit c → (c == 46) ≡ false
not_dot c h = ground arith

split_dot-digits : (s : Text) → All IsDigit s → split_dot s ≡ (s, [])
unfolding split_dot
split_dot-digits [] h = refl
split_dot-digits (c ∷ s) (hc, hs) = rw (split_dot-digits s hs, not_dot c hc)

split_dot-dot :
    (s rest : Text)
    → All IsDigit s
    → split_dot (s ++ (46 ∷ rest)) ≡ (s, (split_dot rest).0 ∷ (split_dot rest).1)
unfolding split_dot
split_dot-dot [] rest h = refl
split_dot-dot (c ∷ s) rest (hc, hs) = rw (split_dot-dot s rest hs, not_dot c hc)

decimal-digits : (n : ℕ) → All IsDigit (decimal n)
unfolding decimal
decimal-digits n = decimal_from-digits (suc n) n

pub parse_arcs-dotted : (a : ℕ) (arcs : List ℕ) → parse_arcs (dotted (a ∷ arcs)) ≡ ok (a ∷ arcs)
unfolding parse_arcs dotted
parse_arcs-dotted a [] = rw (split_dot-digits (decimal a) (decimal-digits a), int_of-decimal a)
parse_arcs-dotted a (b ∷ arcs) =
    rw (split_dot-dot (decimal a) (dotted (b ∷ arcs)) (decimal-digits a), int_of-decimal a)
      (rw (parse_arcs-dotted b arcs))
