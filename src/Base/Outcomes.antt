-- ===== src/Base/Outcomes.antt =====
-- What a call does: it returns a value, it returns false (or a null pointer), it loops for ever, or
-- it goes wrong (a read outside a buffer, a failed CHECK).
use mathlib.Core.Path.{◌≡◌, refl}
use mathlib.Core.Option.{Option, none, some}

pub data Outcome {ℓ} (A : Type ℓ) : Type ℓ where
  ok : A → Outcome A
  fails : Outcome A
  hangs : Outcome A
  faults : Outcome A

infixl 5 ◌>>=◌
abbrev pub ◌>>=◌ {ℓ κ} : {A : Type ℓ} {B : Type κ} → Outcome A → (A → Outcome B) → Outcome B
ok a >>= f = f a
fails >>= f = fails
hangs >>= f = hangs
faults >>= f = faults

-- A caller that looks at the returned Boolean: `none` stands for false.
abbrev pub attempt {ℓ} : {A : Type ℓ} → Outcome A → Outcome (Option A)
attempt (ok a) = ok (some a)
attempt fails = ok none
attempt hangs = hangs
attempt faults = faults

-- A caller that keeps a default where the call returns false.
abbrev pub or_default {ℓ} : {A : Type ℓ} → A → Outcome A → Outcome A
or_default d (ok a) = ok a
or_default d fails = ok d
or_default d hangs = hangs
or_default d faults = faults

abbrev pub from_option {ℓ} : {A : Type ℓ} → Option A → Outcome A
from_option none = fails
from_option (some a) = ok a

-- A call that returns went through its first part.
pub >>=-eq-ok {ℓ κ} :
    {A : Type ℓ} {B : Type κ} (call : Outcome A) (next : A → Outcome B) {out : B}
    → (call >>= next) ≡ ok out
    → (mid : A) × (call ≡ ok mid) × (next mid ≡ ok out)
>>=-eq-ok (ok mid) next e = (mid, refl, e)
>>=-eq-ok fails next e = cc
>>=-eq-ok hangs next e = cc
>>=-eq-ok faults next e = cc
