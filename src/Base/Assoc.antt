-- ===== src/Base/Assoc.antt =====
-- std::map with integer keys, as an association list in the order of the keys.
use Prim.Native.Nat.{ℕ, ◌<◌}
use mathlib.Core.Logic.{inl, inr}
use mathlib.Core.Path.{◌≡◌, refl, ap, subst}
use mathlib.Core.List.{List, [], ◌∷◌}
use mathlib.Core.Option
use mathlib.Core.Option.{Option, none, some}
use native.Mathlib.Omega.{arith}
use dumbos_platform_system_c.Base.Tests.{◌==◌, ltb, if◌then◌else◌, Bool-cases, ==_true}

module _ {ℓ} {V : Type ℓ} where
  -- `find(k)`; `none` is `end()`.
  abbrev pub lookup : ℕ → List (ℕ × V) → Option V
  lookup k [] = none
  lookup k ((j, v) ∷ m) = if j == k then some v else lookup k m

  -- `m[k] = v`.
  abbrev pub insert : ℕ → V → List (ℕ × V) → List (ℕ × V)
  insert k v [] = (k, v) ∷ []
  insert k v ((j, w) ∷ m) =
      if j == k then (k, v) ∷ m else if ltb k j then (k, v) ∷ (j, w) ∷ m else (j, w) ∷ insert k v m

  -- `erase(k)`: every entry of the key goes.
  abbrev pub erase : ℕ → List (ℕ × V) → List (ℕ × V)
  erase k [] = []
  erase k ((j, w) ∷ m) = let rest = erase k m in if j == k then rest else (j, w) ∷ rest

  pub lookup-insert :
      (k j : ℕ) (v : V) (m : List (ℕ × V))
      → lookup j (insert k v m) ≡ (if k == j then some v else lookup j m)
  lookup-insert k j v [] = refl
  lookup-insert k j v ((i, w) ∷ m) = ground (arith, lookup-insert k j v m)

  pub lookup-erase :
      (k j : ℕ) (m : List (ℕ × V)) → lookup j (erase k m) ≡ (if k == j then none else lookup j m)
  lookup-erase k j [] = ground arith
  lookup-erase k j ((i, w) ∷ m) = ground (arith, lookup-erase k j m)

-- Every key is larger than `k`; and each key is below the ones that follow, so that no key stands twice.
module _ {ℓ} {V : Type ℓ} where
  abbrev pub AllAbove : ℕ → List (ℕ × V) → Type 0
  AllAbove k [] = Unit
  AllAbove k ((j, v) ∷ m) = (k < j) × AllAbove k m

  abbrev pub IsAscending : List (ℕ × V) → Type 0
  IsAscending [] = Unit
  IsAscending ((k, v) ∷ m) = AllAbove k m × IsAscending m

  AllAbove-below : (i k : ℕ) (m : List (ℕ × V)) → i < k → AllAbove k m → AllAbove i m
  AllAbove-below i k [] h a = tt
  AllAbove-below i k ((j, v) ∷ m) h a = (omega (arith, a.0), AllAbove-below i k m h a.1)

  AllAbove-insert :
      (i k : ℕ) (v : V) (m : List (ℕ × V)) → i < k → AllAbove i m → AllAbove i (insert k v m)
  AllAbove-insert i k v [] h a = (h, tt)
  AllAbove-insert i k v ((j, w) ∷ m) h a = elim (Bool-cases (j == k)) [
    | inl e ↦ rw e (h, a.1)
    | inr e ↦ elim (Bool-cases (ltb k j)) [
      | inl l ↦ rw (e, l) (h, a)
      | inr l ↦ rw (e, l) (a.0, AllAbove-insert i k v m h a.1)
    ]
  ]

  pub IsAscending-insert :
      (k : ℕ) (v : V) (m : List (ℕ × V)) → IsAscending m → IsAscending (insert k v m)
  IsAscending-insert k v [] a = (tt, tt)
  IsAscending-insert k v ((j, w) ∷ m) a = elim (Bool-cases (j == k)) [
    | inl e ↦ let same = ==_true j k e in rw e (subst (λ n. AllAbove n m) same a.0, a.1)
    | inr e ↦ elim (Bool-cases (ltb k j)) [
      | inl l ↦ let lt : k < j = ground arith in rw (e, l) ((lt, AllAbove-below k j m lt a.0), a)
      | inr l ↦
          let gt : j < k = ground arith in
          rw (e, l) (AllAbove-insert j k v m gt a.0, IsAscending-insert k v m a.1)
    ]
  ]

-- The values changed, each with its key.
module _ {ℓ κ} {V : Type ℓ} {W : Type κ} (f : ℕ → V → W) where
  abbrev pub map_entries : List (ℕ × V) → List (ℕ × W)
  map_entries [] = []
  map_entries ((k, v) ∷ m) = (k, f k v) ∷ map_entries m

  pub lookup-map_entries :
      (k : ℕ) (m : List (ℕ × V)) → lookup k (map_entries m) ≡ Option.map (f k) (lookup k m)
  lookup-map_entries k [] = refl
  lookup-map_entries k ((j, v) ∷ m) = elim (Bool-cases (j == k)) [
    | inl e ↦ let same = ==_true j k e in rw (e) (ap (λ i. some (f i v)) same)
    | inr e ↦ rw (e) (lookup-map_entries k m)
  ]

  pub insert-map_entries :
      (k : ℕ) (v : V) (m : List (ℕ × V))
      → insert k (f k v) (map_entries m) ≡ map_entries (insert k v m)
  insert-map_entries k v [] = refl
  insert-map_entries k v ((j, w) ∷ m) = elim (Bool-cases (j == k)) [
    | inl e ↦ rw e refl
    | inr e ↦ elim (Bool-cases (ltb k j)) [
      | inl l ↦ rw (e, l) refl
      | inr l ↦ rw (e, l) (ap (◌∷◌ (j, f j w)) (insert-map_entries k v m))
    ]
  ]
