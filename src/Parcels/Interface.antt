-- ===== src/Parcels/Interface.antt =====
-- android::Parcel, a class of libbinder: what the parcelables use of it.
use dumbos_platform_system_c.Base.{ℕ, Bool, List, [], ◌∷◌, ◌++◌, ◌≡◌, Option, some, Bytes}

-- The values that the code writes; an integer is its bit pattern.
pub data Item : Type 0 where
  int32 : ℕ → Item
  uint32 : ℕ → Item
  int64 : ℕ → Item
  uint64 : ℕ → Item
  bool : Bool → Item
  byte_vector : Bytes → Item
  int32_vector : List ℕ → Item

-- A parcel while it is written, and one while it is read, which moves on behind the value. `none` is a
-- status other than OK.
pub record Parcel : Type 1 where
  pub Writing : Type 0
  pub Reading : Type 0
  pub write : Item → Writing → Option Writing
  pub start : Writing → Reading
  pub read_int32 : Reading → Option (ℕ × Reading)
  pub read_uint32 : Reading → Option (ℕ × Reading)
  pub read_int64 : Reading → Option (ℕ × Reading)
  pub read_uint64 : Reading → Option (ℕ × Reading)
  pub read_bool : Reading → Option (Bool × Reading)
  pub read_byte_vector : Reading → Option (Bytes × Reading)
  pub read_int32_vector : Reading → Option (List ℕ × Reading)

-- A read that finds the value, and the rest of the parcel ahead of it.
abbrev pub Finds {ℓ} :
    {A : Type ℓ} {R : Type 0} → (R → List Item → Type 0) → Option (A × R) → A → List Item → Type ℓ
Finds {R = R} Ahead found value rest = (r : R) × (found ≡ some (value, r)) × Ahead r rest

-- The documented behaviour: a parcel with memory takes every value, and a reader at its start finds the
-- values in the order in which they were written.
pub record ParcelLaws (P : Parcel) : Type 1 where
  pub Holds : P.Writing → List Item → Type 0
  pub Ahead : P.Reading → List Item → Type 0
  pub write_holds :
      (i : Item) (p : P.Writing) (l : List Item)
      → Holds p l
      → (q : P.Writing) × (P.write i p ≡ some q) × Holds q (l ++ i ∷ [])
  pub start_ahead : (p : P.Writing) (l : List Item) → Holds p l → Ahead (P.start p) l
  pub finds_int32 :
      (v : ℕ) (r : P.Reading) (l : List Item)
      → Ahead r (int32 v ∷ l)
      → Finds Ahead (P.read_int32 r) v l
  pub finds_uint32 :
      (v : ℕ) (r : P.Reading) (l : List Item)
      → Ahead r (uint32 v ∷ l)
      → Finds Ahead (P.read_uint32 r) v l
  pub finds_int64 :
      (v : ℕ) (r : P.Reading) (l : List Item)
      → Ahead r (int64 v ∷ l)
      → Finds Ahead (P.read_int64 r) v l
  pub finds_uint64 :
      (v : ℕ) (r : P.Reading) (l : List Item)
      → Ahead r (uint64 v ∷ l)
      → Finds Ahead (P.read_uint64 r) v l
  pub finds_bool :
      (v : Bool) (r : P.Reading) (l : List Item)
      → Ahead r (bool v ∷ l)
      → Finds Ahead (P.read_bool r) v l
  pub finds_byte_vector :
      (v : Bytes) (r : P.Reading) (l : List Item)
      → Ahead r (byte_vector v ∷ l)
      → Finds Ahead (P.read_byte_vector r) v l
  pub finds_int32_vector :
      (v : List ℕ) (r : P.Reading) (l : List Item)
      → Ahead r (int32_vector v ∷ l)
      → Finds Ahead (P.read_int32_vector r) v l
