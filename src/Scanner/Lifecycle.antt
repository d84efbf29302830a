-- ===== src/Scanner/Lifecycle.antt =====
-- A scanner after Invalidate.
use dumbos_platform_system_c.Base.{◌≡◌, refl, ◌∙◌, List, [], ◌∷◌, arith, ok, false, none, ==_refl}
use dumbos_platform_system_c.Base.Assoc.{lookup, lookup-erase}
use dumbos_platform_system_c.Manager.State.{
  Manager, scan_result, sched_scan_result, handlers_of, unsubscribe as unsubscribe_topic,
}
use dumbos_platform_system_c.Scanner.State.{Scanner}
use dumbos_platform_system_c.Scanner.Request.{scan_request}
use dumbos_platform_system_c.Scanner.Pno.{start_pno_scan, stop_pno_scan}
use dumbos_platform_system_c.Scanner.Events.{
  invalidate, subscribe_scan_events, unsubscribe_scan_events, subscribe_pno_scan_events,
  unsubscribe_pno_scan_events, on_scan_results_ready, on_sched_scan_results_ready,
}
use dumbos_platform_system_c.Scanner.Counter.{
  Op, apply, run, request, start_pno, stop_pno, subscribe, unsubscribe, subscribe_pno,
  unsubscribe_pno, results_ready, sched_results_ready, destroy,
}

-- What a dead scanner keeps.
pub record StaysDead (s t : Scanner) : Type 0 where
  pub dead : t.valid ≡ false
  pub no_scan : s.scan_started ≡ false → t.scan_started ≡ false
  pub no_pno : s.pno_scan_started ≡ false → t.pno_scan_started ≡ false
  pub counter : t.nodev_counter ≡ s.nodev_counter

apply_dead :
    (op : Op) (s : Scanner) → s.valid ≡ false → (t : Scanner) × (apply op s ≡ ok t) × StaysDead s t
unfolding apply scan_request start_pno_scan stop_pno_scan subscribe_scan_events
    unsubscribe_scan_events subscribe_pno_scan_events unsubscribe_pno_scan_events
    on_scan_results_ready on_sched_scan_results_ready invalidate
apply_dead (request kernel a settings) s v = (s, ground arith, ground arith)
apply_dead (start_pno kernel b a settings) s v = (s, ground arith, ground arith)
apply_dead (stop_pno kernel) s v = (s, ground arith, ground arith)
apply_dead (subscribe x) s v = (s, ground arith, ground arith)
apply_dead unsubscribe s v = (_, refl, ground arith)
apply_dead (subscribe_pno x) s v = (s, ground arith, ground arith)
apply_dead unsubscribe_pno s v = (_, refl, ground arith)
apply_dead (results_ready aborted) s v = (_, refl, ground arith)
apply_dead (sched_results_ready stopped) s v = (_, refl, ground arith)
apply_dead (destroy m) s v = (_, refl, ground arith)

run_invalid :
    (ops : List Op) (s : Scanner)
    → s.valid ≡ false
    → (t : Scanner) × (run ops s ≡ ok t) × StaysDead s t
unfolding run
run_invalid [] s v = (s, refl, ground arith)
run_invalid (op ∷ ops) s v =
    let (t, first, d) = apply_dead op s v in
    let (u, later, e) = run_invalid ops t d.dead in
    (
      u,
      rw first later,
      record {
        dead = e.dead;
        no_scan = λ h. e.no_scan (d.no_scan h);
        no_pno = λ h. e.no_pno (d.no_pno h);
        counter = e.counter ∙ d.counter;
      },
    )

-- Invalidate takes the scanner's handlers for scan results and scheduled scan results out of the manager,
-- and after it every sequence of calls and notifications returns, starts no scan, leaves the failure count,
-- and leaves the scanner invalid.
pub run_dead :
    (ops : List Op) (s : Scanner) (m : Manager)
    → ((t : Scanner) × (run ops (invalidate s m).0 ≡ ok t) × StaysDead s t)
      × (lookup s.interface_index (handlers_of scan_result (invalidate s m).1) ≡ none)
      × (lookup s.interface_index (handlers_of sched_scan_result (invalidate s m).1) ≡ none)
unfolding invalidate unsubscribe_topic
run_dead ops s m =
    let i = s.interface_index in
    let (t, ran, d) = run_invalid ops (record s { valid = false }) refl in
    (
      (
        t,
        ran,
        record { dead = d.dead; no_scan = d.no_scan; no_pno = d.no_pno; counter = d.counter },
      ),
      lookup-erase i i (handlers_of scan_result m) ∙ rw (==_refl i) refl,
      lookup-erase i i (handlers_of sched_scan_result m) ∙ rw (==_refl i) refl,
    )
