-- ===== src/Parcels/Laws.antt =====
-- Writers and readers that agree on the values of a parcel.
use dumbos_platform_system_c.Base.{
  ℕ, suc, ◌<◌, ◌≡◌, refl, ap, sym, ◌∙◌, List, [], ◌∷◌, ◌++◌, arith, length, Option, none, some,
  append_assoc, append-nil, ltb-true, u32,
}
use mathlib.Core.Path.{subst}
use dumbos_platform_system_c.Parcels.Interface.{Item, int32, Parcel, ParcelLaws, Finds}
use dumbos_platform_system_c.Parcels.Write.{◌>>◌, write_objects}
use dumbos_platform_system_c.Parcels.Read.{◌>>=◌, rounds, read_objects}

-- A list that is shorter than 2 ^ 31 is read with as many rounds as it has elements.
pub rounds-u32 : (n : ℕ) → n < 2147483648 → rounds (u32 n) ≡ n
rounds-u32 n h = let e : u32 n ≡ n = omega arith in rw (e, ltb-true n 2147483648 h) refl

-- The items of a list of objects: each behind the number 1.
abbrev pub object_items {ℓ} : {A : Type ℓ} → (A → List Item) → List A → List Item
object_items items [] = []
object_items items (x ∷ xs) = int32 1 ∷ (items x ++ object_items items xs)

module _ (P : Parcel) (L : ParcelLaws P) where
  open P use {Writing, Reading, write, read_int32}
  open L use {Holds, Ahead, write_holds, finds_int32}

  -- A writer succeeds and puts these items behind what is there.
  pub record Writes (writer : Writing → Option Writing) (items : List Item) : Type 0 where
    pub run :
        (p : Writing) (l : List Item)
        → Holds p l
        → (q : Writing) × (writer p ≡ some q) × Holds q (l ++ items)

  -- A reader finds the value in front of any rest.
  pub record Reads {ℓ} {A : Type ℓ} (reader : Reading → Option (A × Reading)) (value : A)
      (items : List Item) : Type ℓ where
    pub run :
        (r : Reading) (rest : List Item)
        → Ahead r (items ++ rest)
        → Finds Ahead (reader r) value rest

  pub write-Writes : (i : Item) → Writes (write i) (i ∷ [])
  write-Writes i = record { run = write_holds i }

  pub same-Writes :
      {writer other : Writing → Option Writing} {items : List Item}
      → ((p : Writing) → other p ≡ writer p)
      → Writes writer items
      → Writes other items
  same-Writes same w = record { run = λ p l h. let (q, e, g) = w.run p l h in (q, same p ∙ e, g) }

  then-some :
      (first second : Writing → Option Writing) (p : Writing) {q : Writing}
      → first p ≡ some q
      → (first >> second) p ≡ second q
  then-some first second p e = ap (λ o. elim o [ none ↦ none | some q ↦ second q ]) e

  pub then-Writes :
      {first second : Writing → Option Writing} {is js : List Item}
      → Writes first is
      → Writes second js
      → Writes (first >> second) (is ++ js)
  then-Writes {first} {second} {is} {js} a b = record {
    run = λ p l h.
        let (q, e, g) = a.run p l h in
        let (q', e', g') = b.run q (l ++ is) g in
        (q', then-some first second p e ∙ e', subst (λ k. Holds q' k) (append_assoc l is js) g');
  }

  write_objects-cons {ℓ} :
      {A : Type ℓ} (writer : A → Writing → Option Writing) (x : A) (xs : List A) (p : Writing)
      → write_objects P writer (x ∷ xs) p
        ≡ (write (int32 1) >> writer x >> write_objects P writer xs) p
  unfolding write_objects
  write_objects-cons writer x xs p = refl

  pub write_objects-Writes {ℓ} :
      {A : Type ℓ} (writer : A → Writing → Option Writing) (items : A → List Item)
      → ((x : A) → Writes (writer x) (items x))
      → (xs : List A) → Writes (write_objects P writer xs) (object_items items xs)
  write_objects-Writes writer items w [] = record {
    run = λ p l h. (p, unfold write_objects in refl, subst (λ k. Holds p k) (sym (append-nil l)) h);
  }
  write_objects-Writes writer items w (x ∷ xs) = same-Writes (write_objects-cons writer x xs) (
      then-Writes (then-Writes (write-Writes (int32 1)) (w x))
        (write_objects-Writes writer items w xs))

  read_objects-step {ℓ} :
      {A : Type ℓ} (n : ℕ) (reader : Reading → Option (A × Reading)) {x : A} {xs : List A}
      (r : Reading) {r1 r2 r3 : Reading}
      → read_int32 r ≡ some (1, r1)
      → reader r1 ≡ some (x, r2)
      → read_objects P n reader r2 ≡ some (xs, r3)
      → read_objects P (suc n) reader r ≡ some (x ∷ xs, r3)
  unfolding read_objects
  read_objects-step n reader r e f g = rw (e, ◌>>=◌) (rw (f, ◌>>=◌) (rw (g, ◌>>=◌) refl))

  pub read_objects-Reads {ℓ} :
      {A : Type ℓ} (reader : Reading → Option (A × Reading)) (items : A → List Item)
      → ((x : A) → Reads reader x (items x))
      → (xs : List A) → Reads (read_objects P (length xs) reader) xs (object_items items xs)
  read_objects-Reads reader items w [] = record {
    run = λ r rest a. (r, unfold read_objects in refl, a);
  }
  read_objects-Reads reader items w (x ∷ xs) = record {
    run = λ r rest a.
        let (r1, e1, a1) = finds_int32 1 r ((items x ++ object_items items xs) ++ rest) a in
        let a1' =
          subst (λ k. Ahead r1 k) (append_assoc (items x) (object_items items xs) rest) a1 in
        let (r2, e2, a2) = (w x).run r1 (object_items items xs ++ rest) a1' in
        let (r3, e3, a3) = (read_objects-Reads reader items w xs).run r2 rest a2 in
        (r3, read_objects-step (length xs) reader r e1 e2 e3, a3);
  }

  -- The list behind its length.
  pub read_counted-Reads {ℓ} :
      {A : Type ℓ} (reader : Reading → Option (A × Reading)) (items : A → List Item)
      → ((x : A) → Reads reader x (items x))
      → (xs : List A) → length xs < 2147483648
      → Reads (read_objects P (rounds (u32 (length xs))) reader) xs (object_items items xs)
  read_counted-Reads reader items w xs short =
      subst (λ n. Reads (read_objects P n reader) xs (object_items items xs))
        (sym (rounds-u32 (length xs) short)) (read_objects-Reads reader items w xs)
