-- ===== src/Scanner/Counter.antt =====
-- nodev_counter_, over any sequence of calls and notifications.
use dumbos_platform_system_c.Base.{
  ℕ, zero, suc, ◌+◌, ◌≤◌, ◌≡◌, refl, ap, ◌∙◌, List, [], ◌∷◌, arith, replicate, Outcome, ok, faults,
  ◌>>=◌, true, false, leb, Bool, leb-false, Bool-cases, inl, inr, if◌then◌else◌,
}
use dumbos_platform_system_c.Wiphy.Info.{BandInfo}
use dumbos_platform_system_c.Manager.State.{Manager}
use dumbos_platform_system_c.Scanner.State.{Scanner, is_scan_type_supported, enodev}
use dumbos_platform_system_c.Scanner.Request.{
  SingleScanSettings, ScanParams, scan_request, after_scan,
}
use dumbos_platform_system_c.Scanner.Pno.{
  PnoSettings, SchedScanParams, start_pno_scan, stop_pno_scan, after_start,
}
use dumbos_platform_system_c.Scanner.Events.{
  invalidate, subscribe_scan_events, unsubscribe_scan_events, subscribe_pno_scan_events,
  unsubscribe_pno_scan_events, on_scan_results_ready, on_sched_scan_results_ready,
}

-- Everything that can happen to a scanner, with the answers of the kernel.
pub data Op : Type 0 where
  request : (ScanParams → Bool × ℕ) → Bool → SingleScanSettings → Op
  start_pno : (SchedScanParams → Bool × ℕ) → BandInfo → Bool → PnoSettings → Op
  stop_pno : (ℕ → Bool) → Op
  subscribe : ℕ → Op
  unsubscribe : Op
  subscribe_pno : ℕ → Op
  unsubscribe_pno : Op
  results_ready : Bool → Op
  sched_results_ready : Bool → Op
  destroy : Manager → Op

unfoldable pub apply : Op → Scanner → Outcome Scanner
apply (request kernel is_associated settings) s =
    scan_request kernel is_associated settings s >>= λ r. ok r.0
apply (start_pno kernel bands is_associated settings) s =
    start_pno_scan kernel bands is_associated settings s >>= λ r. ok r.0
apply (stop_pno kernel) s = ok (stop_pno_scan kernel s).0
apply (subscribe h) s = ok (subscribe_scan_events h s)
apply unsubscribe s = ok (unsubscribe_scan_events s)
apply (subscribe_pno h) s = ok (subscribe_pno_scan_events h s)
apply unsubscribe_pno s = ok (unsubscribe_pno_scan_events s)
apply (results_ready aborted) s = ok (on_scan_results_ready aborted s).0
apply (sched_results_ready stopped) s = ok (on_sched_scan_results_ready stopped s).0
apply (destroy m) s = ok (invalidate s m).0

unfoldable pub run : List Op → Scanner → Outcome Scanner
run [] s = ok s
run (op ∷ ops) s = apply op s >>= run ops

-- A request, accepted or refused by the kernel, leaves the count at 3 at most, or ends the process.
scan_request-counter :
    (kernel : ScanParams → Bool × ℕ) (a : Bool) (settings : SingleScanSettings) (s : Scanner)
    {t : Scanner}
    → s.nodev_counter ≤ 3
    → (scan_request kernel a settings s >>= λ r. ok r.0) ≡ ok t
    → t.nodev_counter ≤ 3
unfolding scan_request after_scan is_scan_type_supported
scan_request-counter kernel a settings s h e = ground arith

start_pno_scan-counter :
    (kernel : SchedScanParams → Bool × ℕ) (b : BandInfo) (a : Bool) (settings : PnoSettings)
    (s : Scanner) {t : Scanner}
    → s.nodev_counter ≤ 3
    → (start_pno_scan kernel b a settings s >>= λ r. ok r.0) ≡ ok t
    → t.nodev_counter ≤ 3
unfolding start_pno_scan after_start
start_pno_scan-counter kernel b a settings s h e = ground arith

pub apply-counter :
    (op : Op) (s : Scanner) {t : Scanner}
    → s.nodev_counter ≤ 3
    → apply op s ≡ ok t
    → t.nodev_counter ≤ 3
unfolding apply stop_pno_scan subscribe_scan_events unsubscribe_scan_events
    subscribe_pno_scan_events unsubscribe_pno_scan_events on_scan_results_ready
    on_sched_scan_results_ready invalidate
apply-counter (request kernel a settings) s h e = scan_request-counter kernel a settings s h e
apply-counter (start_pno kernel b a settings) s h e =
    start_pno_scan-counter kernel b a settings s h e
apply-counter (stop_pno kernel) s h e = ground arith
apply-counter (subscribe x) s h e = ground arith
apply-counter unsubscribe s h e = ground arith
apply-counter (subscribe_pno x) s h e = ground arith
apply-counter unsubscribe_pno s h e = ground arith
apply-counter (results_ready aborted) s h e = ground arith
apply-counter (sched_results_ready stopped) s h e = ground arith
apply-counter (destroy m) s h e = ground arith

-- The kernel answers ENODEV to every request.
abbrev pub no_device : ScanParams → Bool × ℕ
no_device params = (false, enodev)

request-no_device :
    (s : Scanner) (a : Bool) (settings : SingleScanSettings) (b : Bool)
    → s.valid ≡ true
    → is_scan_type_supported settings.scan_type s.wiphy_features ≡ ok b
    → apply (request no_device a settings) s ≡ (
        if leb (s.nodev_counter + 1) 3
        then ok (record s { nodev_counter = s.nodev_counter + 1 })
        else faults)
unfolding apply scan_request after_scan
request-no_device s a settings b v e = ground arith

-- Requests that the kernel answers with ENODEV, one after the other: while the count stays at 3 or
-- below they are survived and counted, and the one that takes it to 4 ends the process.
pub nodev_aborts :
    (k : ℕ) (s : Scanner) (a : Bool) (settings : SingleScanSettings) (b : Bool)
    → s.valid ≡ true
    → s.nodev_counter ≤ 3
    → is_scan_type_supported settings.scan_type s.wiphy_features ≡ ok b
    → run (replicate k (request no_device a settings)) s ≡ (
        if leb (s.nodev_counter + k) 3
        then ok (record s { nodev_counter = s.nodev_counter + k })
        else faults)
unfolding run
nodev_aborts zero s a settings b v c e = ground arith
nodev_aborts (suc k) s a settings b v c e = elim (Bool-cases (leb (s.nodev_counter + 1) 3)) [
  | inl more ↦
      let s' = record s { nodev_counter = s.nodev_counter + 1 } in
      let first = request-no_device s a settings b v e in
      let sum : s.nodev_counter + 1 + k ≡ s.nodev_counter + suc k = omega arith in
      rw (first, more)
        (nodev_aborts k s' a settings b v (ground arith) e
          ∙ ap (λ n. if leb n 3 then ok (record s { nodev_counter = n }) else faults) sum)
  | inr last ↦
      let first = request-no_device s a settings b v e in
      rw (first, last, leb-false (s.nodev_counter + suc k) 3 (ground arith)) refl
]
