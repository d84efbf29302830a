-- ===== src/Manager/Sequence.antt =====
-- GetSequenceNumber: repeated calls, and the counter that wraps around.
use dumbos_platform_system_c.Base.{ℕ, zero, suc, ◌+◌, ◌-◌, ◌%◌, ◌<◌, ◌≡◌, ◌≢◌, arith}
use dumbos_platform_system_c.Manager.State.{Manager, get_sequence_number, broadcast_sequence_number}

-- The manager after k calls.
pub after_calls : ℕ → Manager → Manager
after_calls zero m = m
after_calls (suc k) m = after_calls k (get_sequence_number m).0

step : Manager → ℕ
step m = (get_sequence_number m).1

-- The number of one call, in closed form.
get_sequence_number-closed :
    (m : Manager)
    → m.sequence_number < 4294967296
    → ((get_sequence_number m).0.sequence_number ≡ m.sequence_number % 4294967295 + 1)
      × ((get_sequence_number m).1 ≡ m.sequence_number % 4294967295 + 1)
unfolding get_sequence_number
get_sequence_number-closed m h = (ground arith, ground arith)

after_calls-closed :
    (k : ℕ) (m : Manager)
    → 0 < m.sequence_number
    → m.sequence_number < 4294967296
    → (after_calls k m).sequence_number ≡ (m.sequence_number - 1 + k) % 4294967295 + 1
unfolding after_calls
after_calls-closed zero m p h = omega arith
after_calls-closed (suc k) m p h =
    let e = (get_sequence_number-closed m h).0 in
    omega (
      arith,
      e,
      after_calls-closed k (get_sequence_number m).0 (omega (arith, e)) (omega (arith, e)),
    )

-- GetSequenceNumber never returns the number of broadcasts, and leaves the number that it returns in
-- the state.
pub get_sequence_number_bounds :
    (m : Manager)
    → m.sequence_number < 4294967296
    → ((get_sequence_number m).1 ≢ broadcast_sequence_number)
      × ((get_sequence_number m).1 < 4294967296)
      × ((get_sequence_number m).0.sequence_number ≡ (get_sequence_number m).1)
get_sequence_number_bounds m h =
    let (kept, number) = get_sequence_number-closed m h in
    (λ z. absurd (omega arith), omega arith, omega arith)

-- Two calls of GetSequenceNumber, fewer than 2 ^ 32 - 1 calls apart, return different numbers.
pub get_sequence_number_unique :
    (i k : ℕ) (m : Manager)
    → 0 < m.sequence_number
    → m.sequence_number < 4294967296
    → 0 < k
    → k < 4294967295
    → (after_calls i m).sequence_number ≢ (after_calls (i + k) m).sequence_number
get_sequence_number_unique i k m p h q r =
    omega (arith, after_calls-closed i m p h, after_calls-closed (i + k) m p h)
