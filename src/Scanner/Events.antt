-- ===== src/Scanner/Events.antt =====
-- ScannerImpl: Invalidate, the subscriptions of callbacks, and the notifications from the kernel.
use dumbos_platform_system_c.Base.{
  ℕ, Bool, true, false, not, Option, none, some, List, [], ◌∷◌, if◌then◌else◌,
}
use dumbos_platform_system_c.Manager.State.{Manager, scan_result, sched_scan_result, unsubscribe}
use dumbos_platform_system_c.Scanner.State.{Scanner, ScanStatus, failed_abort}

-- Calls of the callback objects IScanEvent and IPnoScanEvent.
pub data Callback : Type 0 where
  on_scan_request_failed : ℕ → ScanStatus → Callback
  on_scan_result_ready : ℕ → Callback
  on_pno_scan_failed : ℕ → Callback
  on_pno_network_found : ℕ → Callback

-- Invalidate.
unfoldable pub invalidate : Scanner → Manager → Scanner × Manager
invalidate s m = (
  record s { valid = false },
  unsubscribe sched_scan_result s.interface_index (unsubscribe scan_result s.interface_index m),
)

-- subscribeScanEvents, unsubscribeScanEvents, and the same for PNO.
unfoldable pub subscribe_scan_events : ℕ → Scanner → Scanner
subscribe_scan_events handler s =
    if not s.valid then s else record s { scan_event_handler = some handler }

unfoldable pub unsubscribe_scan_events : Scanner → Scanner
unsubscribe_scan_events s = record s { scan_event_handler = none }

unfoldable pub subscribe_pno_scan_events : ℕ → Scanner → Scanner
subscribe_pno_scan_events handler s =
    if not s.valid then s else record s { pno_scan_event_handler = some handler }

unfoldable pub unsubscribe_pno_scan_events : Scanner → Scanner
unsubscribe_pno_scan_events s = record s { pno_scan_event_handler = none }

scan_callbacks : Bool → Option ℕ → List Callback
scan_callbacks aborted none = []
scan_callbacks true (some h) = on_scan_request_failed h failed_abort ∷ []
scan_callbacks false (some h) = on_scan_result_ready h ∷ []

-- OnScanResultsReady.
unfoldable pub on_scan_results_ready : Bool → Scanner → Scanner × List Callback
unfolding scan_callbacks
on_scan_results_ready aborted s =
    (record s { scan_started = false }, scan_callbacks aborted s.scan_event_handler)

pno_stopped : Option ℕ → Bool → Scanner → Scanner × List Callback
pno_stopped none scan_stopped s = (s, [])
pno_stopped (some h) true s = (
  record s { pno_scan_started = false },
  if s.pno_scan_started then on_pno_scan_failed h ∷ [] else [],
)
pno_stopped (some h) false s = (s, on_pno_network_found h ∷ [])

-- OnSchedScanResultsReady.
unfoldable pub on_sched_scan_results_ready : Bool → Scanner → Scanner × List Callback
unfolding pno_stopped
on_sched_scan_results_ready scan_stopped s = pno_stopped s.pno_scan_event_handler scan_stopped s
