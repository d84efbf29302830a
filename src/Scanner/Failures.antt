-- ===== src/Scanner/Failures.antt =====
-- nodev_counter_ over any sequence of calls and notifications: what it counts.
use dumbos_platform_system_c.Base.{
  ℕ, ◌+◌, ◌≤◌, ◌≡◌, refl, ap, sym, ◌∙◌, List, [], ◌∷◌, arith, Outcome, ok, fails, hangs, faults,
  ◌++◌, ◌==◌, ◌>>=◌, >>=-eq-ok, true, false, Bool, Bool-cases, inl, inr, if◌then◌else◌,
}
use dumbos_platform_system_c.Wiphy.Info.{BandInfo}
use dumbos_platform_system_c.Scanner.State.{Scanner, is_scan_type_supported, enodev}
use dumbos_platform_system_c.Scanner.Request.{
  SingleScanSettings, ScanParams, scan_params, scan_request, after_scan,
}
use dumbos_platform_system_c.Scanner.Pno.{
  PnoSettings, SchedScanParams, sched_scan_params, start_pno_scan, stop_pno_scan, after_start,
}
use dumbos_platform_system_c.Scanner.Events.{
  invalidate, subscribe_scan_events, unsubscribe_scan_events, subscribe_pno_scan_events,
  unsubscribe_pno_scan_events, on_scan_results_ready, on_sched_scan_results_ready,
}
use dumbos_platform_system_c.Scanner.Counter.{
  Op, apply, run, request, start_pno, stop_pno, subscribe, unsubscribe, subscribe_pno,
  unsubscribe_pno, results_ready, sched_results_ready, destroy, apply-counter,
}

-- The answers of the kernel to scan requests, which a scanner that is not valid does not send.
abbrev answer_to : Outcome Bool → (Bool → Bool × ℕ) → List (Bool × ℕ)
answer_to (ok supported) ask = ask supported ∷ []
answer_to fails ask = []
answer_to hangs ask = []
answer_to faults ask = []

abbrev asked : Op → Scanner → List (Bool × ℕ)
asked (request kernel a settings) s =
    if s.valid
    then answer_to (is_scan_type_supported settings.scan_type s.wiphy_features)
        (λ supported. kernel (scan_params s a supported settings))
    else []
asked (start_pno kernel b a settings) s =
    if s.valid then kernel (sched_scan_params b a settings s) ∷ [] else []
asked other s = []

unfoldable pub answers : List Op → Scanner → List (Bool × ℕ)
answers [] s = []
answers (op ∷ ops) s =
    asked op s ++ elim (apply op s) [ ok t ↦ answers ops t | fails ↦ [] | hangs ↦ [] | faults ↦ [] ]

-- The failures with ENODEV since the last success, on top of `n` where there was none. A failure with
-- another error neither counts nor starts again.
abbrev pub failures_since_success : ℕ → List (Bool × ℕ) → ℕ
failures_since_success n [] = n
failures_since_success n ((true, error_code) ∷ later) = failures_since_success 0 later
failures_since_success n ((false, error_code) ∷ later) =
    failures_since_success (if error_code == enodev then n + 1 else n) later

failures-append :
    (n : ℕ) (l m : List (Bool × ℕ))
    → failures_since_success n (l ++ m) ≡ failures_since_success (failures_since_success n l) m
failures-append n [] m = refl
failures-append n ((true, e) ∷ l) m = failures-append 0 l m
failures-append n ((false, e) ∷ l) m = failures-append (if e == enodev then n + 1 else n) l m

after_scan-failures :
    (s : Scanner) (answer : Bool × ℕ) {t : Scanner}
    → (after_scan s answer >>= λ r. ok r.0) ≡ ok t
    → t.nodev_counter ≡ failures_since_success s.nodev_counter (answer ∷ [])
unfolding after_scan
after_scan-failures s (true, e) h = ground arith
after_scan-failures s (false, e) h = ground arith

after_start-failures :
    (s : Scanner) (answer : Bool × ℕ) {t : Scanner}
    → (after_start s answer >>= λ r. ok r.0) ≡ ok t
    → t.nodev_counter ≡ failures_since_success s.nodev_counter (answer ∷ [])
unfolding after_start
after_start-failures s (true, e) h = ground arith
after_start-failures s (false, e) h = ground arith

checked-failures :
    (s : Scanner) (ask : Bool → Bool × ℕ) (supported : Outcome Bool) {t : Scanner}
    → ((supported >>= λ b. after_scan s (ask b)) >>= λ r. ok r.0) ≡ ok t
    → t.nodev_counter ≡ failures_since_success s.nodev_counter (answer_to supported ask)
checked-failures s ask (ok b) h = after_scan-failures s (ask b) h
checked-failures s ask fails h = cc
checked-failures s ask hangs h = cc
checked-failures s ask faults h = cc

request-failures :
    (kernel : ScanParams → Bool × ℕ) (a : Bool) (settings : SingleScanSettings) (s : Scanner)
    {t : Scanner}
    → (scan_request kernel a settings s >>= λ r. ok r.0) ≡ ok t
    → t.nodev_counter ≡ failures_since_success s.nodev_counter (asked (request kernel a settings) s)
unfolding scan_request
request-failures kernel a settings s h = elim (Bool-cases s.valid) [
  | inr dead ↦ ground arith
  | inl valid ↦ simp valid (
      checked-failures s (λ b. kernel (scan_params s a b settings))
        (is_scan_type_supported settings.scan_type s.wiphy_features) (simp valid at h))
]

start_pno-failures :
    (kernel : SchedScanParams → Bool × ℕ) (b : BandInfo) (a : Bool) (settings : PnoSettings)
    (s : Scanner) {t : Scanner}
    → (start_pno_scan kernel b a settings s >>= λ r. ok r.0) ≡ ok t
    → t.nodev_counter
      ≡ failures_since_success s.nodev_counter (asked (start_pno kernel b a settings) s)
unfolding start_pno_scan
start_pno-failures kernel b a settings s h = elim (Bool-cases s.valid) [
  | inr dead ↦ ground arith
  | inl valid ↦
      simp valid
        (after_start-failures s (kernel (sched_scan_params b a settings s)) (simp valid at h))
]

apply-failures :
    (op : Op) (s : Scanner) {t : Scanner}
    → apply op s ≡ ok t
    → t.nodev_counter ≡ failures_since_success s.nodev_counter (asked op s)
unfolding apply stop_pno_scan subscribe_scan_events unsubscribe_scan_events
    subscribe_pno_scan_events unsubscribe_pno_scan_events on_scan_results_ready
    on_sched_scan_results_ready invalidate
apply-failures (request kernel a settings) s h = request-failures kernel a settings s h
apply-failures (start_pno kernel b a settings) s h = start_pno-failures kernel b a settings s h
apply-failures (stop_pno kernel) s h = ground arith
apply-failures (subscribe x) s h = ground arith
apply-failures unsubscribe s h = ground arith
apply-failures (subscribe_pno x) s h = ground arith
apply-failures unsubscribe_pno s h = ground arith
apply-failures (results_ready aborted) s h = ground arith
apply-failures (sched_results_ready stopped) s h = ground arith
apply-failures (destroy m) s h = ground arith

-- Over any sequence of calls and notifications, from a scanner with a count of at most three, a scanner
-- whose process lives has counted the ENODEV failures that the kernel has answered since it last granted a
-- scan, and they are at most three.
pub run-counter :
    (ops : List Op) (s : Scanner) {t : Scanner}
    → s.nodev_counter ≤ 3
    → run ops s ≡ ok t
    → (t.nodev_counter ≡ failures_since_success s.nodev_counter (answers ops s))
      × (t.nodev_counter ≤ 3)
unfolding run answers
run-counter [] s h e = (ground arith, ground arith)
run-counter (op ∷ ops) s h e =
    let (t, first, later) = >>=-eq-ok (apply op s) (run ops) e in
    let (counted, bounded) = run-counter ops t (apply-counter op s h first) later in
    (
      counted
          ∙ rw first (
              ap (λ n. failures_since_success n (answers ops t)) (apply-failures op s first)
              ∙ sym (failures-append s.nodev_counter (asked op s) (answers ops t))),
      bounded,
    )
