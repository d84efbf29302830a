-- ===== src/Base/Texts.antt =====
-- std::map with strings as keys. The code looks entries up and sets them; their order does not matter to it.
use Prim.Native.Nat.{ℕ}
use mathlib.Core.Logic.{inl, inr}
use mathlib.Core.Path.{◌≡◌, refl}
use mathlib.Core.Bool.{Bool, true, false, ◌&&◌}
use mathlib.Core.List.{List, [], ◌∷◌}
use mathlib.Core.Option.{Option, none, some}
use dumbos_platform_system_c.Base.Tests.{◌==◌, if◌then◌else◌, Bool-cases, ==_true, ==_refl}

-- `operator==` of strings.
abbrev pub same_text : List ℕ → List ℕ → Bool
same_text [] [] = true
same_text [] (d ∷ t) = false
same_text (c ∷ s) [] = false
same_text (c ∷ s) (d ∷ t) = (c == d) && same_text s t

pub same_text_refl : (s : List ℕ) → same_text s s ≡ true
same_text_refl [] = refl
same_text_refl (c ∷ s) = rw (==_refl c) (same_text_refl s)

pub same_text-true : (s t : List ℕ) → same_text s t ≡ true → s ≡ t
same_text-true [] [] e = refl
same_text-true [] (d ∷ t) e = cc
same_text-true (c ∷ s) [] e = cc
same_text-true (c ∷ s) (d ∷ t) e = elim (Bool-cases (c == d)) [
  | inl h ↦ let tails = same_text-true s t (rw h at e) in let heads = ==_true c d h in cc
  | inr h ↦ let impossible = rw h at e in cc
]

module _ {ℓ} {V : Type ℓ} where
  -- `find(k)`; `none` is `end()`.
  abbrev pub find_text : List ℕ → List (List ℕ × V) → Option V
  find_text k [] = none
  find_text k ((j, v) ∷ m) = if same_text j k then some v else find_text k m

  -- `m[k] = v`.
  abbrev pub set_text : List ℕ → V → List (List ℕ × V) → List (List ℕ × V)
  set_text k v [] = (k, v) ∷ []
  set_text k v ((j, w) ∷ m) = if same_text j k then (k, v) ∷ m else (j, w) ∷ set_text k v m

  pub find_text-set_text :
      (k j : List ℕ) (v : V) (m : List (List ℕ × V))
      → find_text j (set_text k v m) ≡ (if same_text k j then some v else find_text j m)
  find_text-set_text k j v [] = refl
  find_text-set_text k j v ((i, w) ∷ m) = elim (Bool-cases (same_text i k)) [
    | inl e ↦
        let same = same_text-true i k e in
        rw e (elim (Bool-cases (same_text k j)) [
          | inl f ↦ rw f refl
          | inr f ↦ rw f (rw same (rw f refl))
        ])
    | inr e ↦ rw e (elim (Bool-cases (same_text i j)) [
      | inl f ↦
          let same = same_text-true i j f in
          elim (Bool-cases (same_text k j)) [
            | inl g ↦
                let clash = same_text-true k j g in
                let other = rw (same, ← clash) at e in
                let impossible = rw (same_text_refl k) at other in cc
            | inr g ↦ rw (f, g) refl
          ]
      | inr f ↦ rw f (find_text-set_text k j v m)
    ])
  ]
