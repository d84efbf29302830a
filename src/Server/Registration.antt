-- ===== src/Server/Registration.antt =====
-- The callback vectors of Server: which binders they hold, and how often.
use dumbos_platform_system_c.Base.{
  ℕ, ◌≡◌, refl, ◌∙◌, true, false, List, [], ◌∷◌, ◌++◌, arith, ◌==◌, if◌then◌else◌, ==_refl, ==_true,
  Bool-cases, inl, inr,
}
use dumbos_platform_system_c.Server.Callbacks.{has_binder, add_callback, remove_callback}

-- No binder stands twice.
unfoldable pub NoDuplicates : List ℕ → Type 0
NoDuplicates [] = Unit
NoDuplicates (it ∷ its) = (has_binder it its ≡ false) × NoDuplicates its

has_binder-append :
    (callback other : ℕ) (its : List ℕ)
    → has_binder callback (its ++ other ∷ [])
      ≡ (if callback == other then true else has_binder callback its)
has_binder-append callback other [] = ground arith
has_binder-append callback other (it ∷ its) = ground (arith, has_binder-append callback other its)

append-NoDuplicates :
    (callback : ℕ) (its : List ℕ)
    → NoDuplicates its
    → has_binder callback its ≡ false
    → NoDuplicates (its ++ callback ∷ [])
unfolding NoDuplicates
append-NoDuplicates callback [] n h = (refl, tt)
append-NoDuplicates callback (it ∷ its) n h = (
  ground (arith, has_binder-append it callback its),
  append-NoDuplicates callback its n.1 (ground arith),
)

present :
    (callback other : ℕ) (its : List ℕ)
    → has_binder callback its ≡ true
    → has_binder other its ≡ (if other == callback then true else has_binder other its)
present callback other its h = elim (Bool-cases (other == callback)) [
  | inl e ↦
      let same : other ≡ callback = ==_true other callback e in rw same (rw (==_refl callback) h)
  | inr e ↦ rw e refl
]

-- Registration keeps every binder single, makes the one it is given present, and changes no other.
pub add_callback_lem :
    (callback : ℕ) (its : List ℕ)
    → NoDuplicates its
    → NoDuplicates (add_callback callback its)
      × ((other : ℕ)
          → has_binder other (add_callback callback its)
            ≡ (if other == callback then true else has_binder other its))
unfolding add_callback
add_callback_lem callback its n = elim (Bool-cases (has_binder callback its)) [
  | inl h ↦ (rw h n, λ other. rw h (present callback other its h))
  | inr h ↦ (
    rw h (append-NoDuplicates callback its n h),
    λ other. rw h (has_binder-append other callback its),
  )
]

remove-has_binder :
    (callback other : ℕ) (its : List ℕ)
    → NoDuplicates its
    → has_binder other (remove_callback callback its)
      ≡ (if other == callback then false else has_binder other its)
unfolding remove_callback NoDuplicates
remove-has_binder callback other [] n = ground arith
remove-has_binder callback other (it ∷ its) n =
    ground (arith, remove-has_binder callback other its n.1)

remove-NoDuplicates :
    (callback : ℕ) (its : List ℕ) → NoDuplicates its → NoDuplicates (remove_callback callback its)
unfolding remove_callback NoDuplicates
remove-NoDuplicates callback [] n = tt
remove-NoDuplicates callback (it ∷ its) n = elim (Bool-cases (callback == it)) [
  | inl e ↦ rw e n.1
  | inr e ↦ rw e (
    remove-has_binder callback it its n.1 ∙ ground (arith, n.0),
    remove-NoDuplicates callback its n.1,
  )
]

-- Unregistration keeps every binder single, makes the one it is given absent, and changes no other.
pub remove_callback_lem :
    (callback : ℕ) (its : List ℕ)
    → NoDuplicates its
    → NoDuplicates (remove_callback callback its)
      × ((other : ℕ)
          → has_binder other (remove_callback callback its)
            ≡ (if other == callback then false else has_binder other its))
remove_callback_lem callback its n =
    (remove-NoDuplicates callback its n, λ other. remove-has_binder callback other its n)

remove-last :
    (callback : ℕ) (its : List ℕ)
    → has_binder callback its ≡ false
    → remove_callback callback (its ++ callback ∷ []) ≡ its
unfolding remove_callback
remove-last callback [] h = rw (==_refl callback) refl
remove-last callback (it ∷ its) h = ground (arith, remove-last callback its)

-- Registration of a binder that is not there, then unregistration, gives the vector back in its order.
pub remove_callback-add_callback :
    (callback : ℕ) (its : List ℕ)
    → has_binder callback its ≡ false
    → remove_callback callback (add_callback callback its) ≡ its
unfolding add_callback
remove_callback-add_callback callback its h = rw h (remove-last callback its h)
