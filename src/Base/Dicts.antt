-- ===== src/Base/Dicts.antt =====
-- A Python dictionary as an association list: one entry for each key.
use mathlib.Core.Path.{◌≡◌, refl}
use mathlib.Core.Bool.{◌&&◌}
use mathlib.Core.Option.{Option, none, some}
use mathlib.Core.List.{List, [], ◌∷◌}
use native.Mathlib.Omega.{arith}
use dpapi_ng.Base.Tests.{Eq, if◌then◌else◌, Option-cases, Bool-cases}
use mathlib.Core.Logic.{inl, inr}

abbrev pub Dict {ℓ κ} : Type ℓ → Type κ → Type (ℓ ⊔ κ)
Dict K V = List (K × V)

abbrev pub or_else {ℓ} : {V : Type ℓ} → Option V → V → V
or_else none v = v
or_else (some w) v = w

module _ {ℓ κ} {K : Type ℓ} {V : Type κ} ⦃e : Eq K⦄ where
  -- d.get(k)
  unfoldable pub lookup : K → Dict K V → Option V
  lookup k [] = none
  lookup k ((j, v) ∷ d) = if e.beq k j then some v else lookup k d

  -- d[k] = v
  unfoldable pub insert : K → V → Dict K V → Dict K V
  insert k v [] = (k, v) ∷ []
  insert k v ((j, w) ∷ d) = if e.beq k j then (j, v) ∷ d else (j, w) ∷ insert k v d

  -- d.setdefault(k, v): the dictionary afterwards, and the value under k
  unfoldable pub setdefault : K → V → Dict K V → Dict K V × V
  setdefault k v d = elim (lookup k d) [ some w ↦ (d, w) | none ↦ (insert k v d, v) ]

  -- What a key holds after a write: the new value at that key, the old one elsewhere.
  pub lookup-insert :
      (j k : K) (v : V) (d : Dict K V)
      → lookup j (insert k v d) ≡ (if e.beq j k then some v else lookup j d)
  unfolding lookup insert
  lookup-insert j k v [] = refl
  lookup-insert j k v ((i, w) ∷ d) =
      ground (arith, e.beq→eq k i, e.beq→eq j i, e.beq→eq j k, e.beq_refl k, lookup-insert j k v d)

  -- What a key holds after a setdefault, and what the call returns.
  pub lookup-setdefault :
      (j k : K) (v : V) (d : Dict K V)
      → lookup j (setdefault k v d).0
        ≡ (if e.beq j k then some (or_else (lookup k d) v) else lookup j d)
  unfolding setdefault
  lookup-setdefault j k v d = elim (Option-cases (lookup k d)) [
    | inl missing ↦ rw (missing, setdefault) (lookup-insert j k v d)
    | inr (w, found) ↦ rw (found, setdefault) (ground (arith, e.beq→eq j k))
  ]

  pub setdefault_value :
      (k : K) (v : V) (d : Dict K V) → (setdefault k v d).1 ≡ or_else (lookup k d) v
  unfolding setdefault
  setdefault_value k v d = ground arith

-- The dictionary under a key of a dictionary of dictionaries; a missing one is empty.
abbrev pub inner {ℓ κ ι} :
    {K : Type ℓ} {J : Type κ} {V : Type ι} ⦃e : Eq K⦄ → K → Dict K (Dict J V) → Dict J V
inner k d = or_else (lookup k d) []

module _ {ℓ κ ι} {K : Type ℓ} {J : Type κ} {V : Type ι} ⦃e : Eq K⦄ ⦃e' : Eq J⦄ where
  pub inner-insert :
      (j k : K) (v : Dict J V) (d : Dict K (Dict J V))
      → inner j (insert k v d) ≡ (if e.beq j k then v else inner j d)
  inner-insert j k v d = rw (lookup-insert j k v d) (ground arith)

  pub inner-setdefault :
      (j k : K) (d : Dict K (Dict J V)) → inner j (setdefault k [] d).0 ≡ inner j d
  inner-setdefault j k d = rw (lookup-setdefault j k [] d) (ground (arith, e.beq→eq j k))

module _ {ℓ κ ι o} {K : Type ℓ} {J : Type κ} {L : Type ι} {V : Type o} ⦃e : Eq K⦄ ⦃e' : Eq J⦄
    ⦃e'' : Eq L⦄ where
  -- Two nested setdefaults of empty dictionaries change nothing that a lookup shows.
  pub inner-enter :
      (k k' : K) (j j' : J) (d : Dict K (Dict J (Dict L V)))
      → inner j'
          (inner k' (insert k (setdefault j [] (setdefault k [] d).1).0 (setdefault k [] d).0))
        ≡ inner j' (inner k' d)
  inner-enter k k' j j' d =
      rw (inner-insert k' k _ (setdefault k [] d).0, setdefault_value k [] d)
        (elim (Bool-cases (e.beq k' k)) [
          | inl same ↦ rw (same, e.beq→eq k' k same) (inner-setdefault j' j (inner k d))
          | inr differ ↦ rw (differ, inner-setdefault k' k d)
        ])

  -- A dictionary written two levels down, seen at every triple of keys.
  pub lookup-inner_write :
      (k k' : K) (j j' : J) (l' : L) (m : Dict L V) (d : Dict K (Dict J (Dict L V)))
      → lookup l' (inner j' (inner k' (insert k (insert j m (inner k d)) d)))
        ≡ (if e.beq k' k && e'.beq j' j then lookup l' m else lookup l' (inner j' (inner k' d)))
  lookup-inner_write k k' j j' l' m d =
      rw (inner-insert k' k (insert j m (inner k d)) d) (elim (Bool-cases (e.beq k' k)) [
        | inl same ↦ rw (same, e.beq→eq k' k same, inner-insert j' j m (inner k d)) (ground arith)
        | inr differ ↦ rw differ
      ])
