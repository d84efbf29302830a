-- ===== src/Requests.antt =====
-- scanning/scan_utils.cpp, the requests that ScanUtils sends: Scan, StartScheduledScan,
-- StopScheduledScan and AbortScan. `pid` is what getpid() returns.
pub mod Built
pub mod Echo
pub mod Scheduled
pub mod Acknowledged
use dumbos_platform_system_c.Base.{
  ℕ, suc, ◌+◌, ◌-◌, ◌/◌, Bool, true, false, not, List, [], ◌∷◌, ◌==◌, if◌then◌else◌, Bytes, u8,
  bit_or, le_bytes, is_empty, length, Option, none, some, Outcome, ok, fails, faults, ◌>>=◌,
  from_option,
}
use dumbos_platform_system_c.Uapi.{nlm_f_ack}
use dumbos_platform_system_c.Nl80211
use dumbos_platform_system_c.Attribute
use dumbos_platform_system_c.Attribute.{new_raw, new_int, new_nested}
use dumbos_platform_system_c.Packet
use dumbos_platform_system_c.Packet.{add_flag}
use dumbos_platform_system_c.Manager.{
  Manager, Origin, origin, request, get_sequence_number, Exchange, Called, exchange, conclude,
  single, ack_or_error_code, is_ack,
}
use dumbos_platform_system_c.Scanner.State.{
  ScanType, low_span, low_power, high_accuracy, default, other,
}
use dumbos_platform_system_c.Scanner.Request.{ScanParams}
use dumbos_platform_system_c.Scanner.Pno.{SchedScanParams, SchedScanIntervalSetting}

-- The loops `attr.AddAttribute(NL80211Attr<T>(i, xs[i]))`.
unfoldable pub add_indexed {ℓ} : {A : Type ℓ} → (ℕ → A → Bytes) → ℕ → List A → Bytes → Bytes
add_indexed make i [] attr = attr
add_indexed make i (x ∷ xs) attr =
    add_indexed make (suc i) xs (Attribute.add_attribute (make i x) attr)

-- `if (!condition) packet.AddAttribute(attribute)`.
abbrev pub add_unless : Bool → Bytes → Bytes → Bytes
add_unless condition attribute packet =
    if condition then packet else Packet.add_attribute attribute packet

unfoldable pub ssids_attr : ℕ → List Bytes → Bytes
unfolding add_indexed
ssids_attr id ssids = add_indexed new_raw 0 ssids (new_nested id)

unfoldable pub freqs_attr : ℕ → List ℕ → Bytes
unfolding add_indexed
freqs_attr id freqs = add_indexed (new_int 4) 0 freqs (new_nested id)

-- `if (condition) flags |= flag`.
abbrev pub or_flag : Bool → ℕ → ℕ → ℕ
or_flag condition flag flags = if condition then bit_or flags flag else flags

-- The `switch` over the scan type.
unfoldable pub scan_type_flag : ScanType → ℕ → Outcome ℕ
scan_type_flag low_span flags = ok (bit_or flags Nl80211.scan_flag_low_span)
scan_type_flag low_power flags = ok (bit_or flags Nl80211.scan_flag_low_power)
scan_type_flag high_accuracy flags = ok (bit_or flags Nl80211.scan_flag_high_accuracy)
scan_type_flag default flags = ok flags
scan_type_flag other flags = faults

-- The packet that Scan sends, once the flags are known.
unfoldable pub scan_packet : Origin → ScanParams → ℕ → Bytes
scan_packet o p scan_flags =
    let trigger_scan = add_flag nlm_f_ack (request o Nl80211.cmd_trigger_scan) in
    let with_index =
      Packet.add_attribute (new_int 4 Nl80211.attr_ifindex p.interface_index) trigger_scan in
    let with_ssids = Packet.add_attribute (ssids_attr Nl80211.attr_scan_ssids p.ssids) with_index in
    let with_freqs =
      add_unless (is_empty p.freqs) (freqs_attr Nl80211.attr_scan_frequencies p.freqs) with_ssids in
    let with_flags =
      add_unless (scan_flags == 0) (new_int 4 Nl80211.attr_scan_flags scan_flags) with_freqs in
    add_unless (is_empty p.vendor_ies) (new_raw Nl80211.attr_ie p.vendor_ies) with_flags

unfoldable pub scan_flags_of : ScanParams → Outcome ℕ
unfolding scan_type_flag
scan_flags_of p =
    scan_type_flag p.scan_type (or_flag p.request_random_mac Nl80211.scan_flag_random_addr 0)
    >>= λ flags. ok (or_flag p.enable_6ghz_rnr Nl80211.scan_flag_colocated_6ghz flags)

-- What Scan and StartScheduledScan return after SendMessageAndGetAckOrError: true or false, and the
-- error code; `stale` is what the caller's variable held before.
abbrev pub acknowledged : ℕ → Option ℕ → Bool × ℕ
acknowledged stale none = (false, stale)
acknowledged stale (some error_code) = (error_code == 0, error_code)

-- Scan.
unfoldable pub scan : Exchange → ℕ → ℕ → ScanParams → Manager → Outcome (Called (Bool × ℕ))
scan e pid stale p m = do
  flags ← scan_flags_of p
  s ← exchange e (scan_packet (origin m pid) p flags) (get_sequence_number m).0
  conclude s (ok (acknowledged stale (ack_or_error_code s)))

-- ENOENT.
abbrev pub enoent : ℕ
enoent = 2

unfoldable pub stop_scheduled_scan_packet : Origin → ℕ → Bytes
stop_scheduled_scan_packet o interface_index =
    Packet.add_attribute (new_int 4 Nl80211.attr_ifindex interface_index)
      (add_flag nlm_f_ack (request o Nl80211.cmd_stop_sched_scan))

-- The branches over the error code.
abbrev pub stopped : Option ℕ → Bool
stopped none = false
stopped (some error_code) =
    if error_code == enoent then false else if not (error_code == 0) then false else true

-- StopScheduledScan.
unfoldable pub stop_scheduled_scan : Exchange → ℕ → ℕ → Manager → Outcome (Called Bool)
stop_scheduled_scan e pid interface_index m = do
  s ←
      exchange e (stop_scheduled_scan_packet (origin m pid) interface_index)
        (get_sequence_number m).0
  conclude s (ok (stopped (ack_or_error_code s)))

unfoldable pub abort_scan_packet : Origin → ℕ → Bytes
abort_scan_packet o interface_index =
    Packet.add_attribute (new_int 4 Nl80211.attr_ifindex interface_index)
      (add_flag nlm_f_ack (request o Nl80211.cmd_abort_scan))

-- AbortScan.
unfoldable pub abort_scan : Exchange → ℕ → ℕ → Manager → Outcome (Called Bool)
abort_scan e pid interface_index m = do
  s ← exchange e (abort_scan_packet (origin m pid) interface_index) (get_sequence_number m).0
  conclude s (ok (is_ack (ack_or_error_code s)))

-- A match group of StartScheduledScan: the ssid and the threshold, a bit pattern of 32 bits.
unfoldable pub match_group : ℕ → ℕ → Bytes → Bytes
match_group rssi_threshold_5g i ssid =
    Attribute.add_attribute (new_int 4 Nl80211.sched_scan_match_attr_rssi rssi_threshold_5g)
      (Attribute.add_attribute (new_raw Nl80211.sched_scan_match_attr_ssid ssid) (new_nested i))

unfoldable pub scan_match_attr : ℕ → List Bytes → Bytes
unfolding add_indexed match_group
scan_match_attr rssi_threshold_5g match_ssids =
    add_indexed (match_group rssi_threshold_5g) 0 match_ssids
      (new_nested Nl80211.attr_sched_scan_match)

-- struct nl80211_bss_select_rssi_adjust: the band and the difference cut to 8 bits. The thresholds are
-- bit patterns of 32 bits.
unfoldable pub rssi_adjust : ℕ → ℕ → Bytes
rssi_adjust rssi_threshold_2g rssi_threshold_5g =
    Nl80211.band_2ghz ∷ u8 (rssi_threshold_2g + 4294967296 - rssi_threshold_5g) ∷ []

unfoldable pub scan_plan : ℕ → ℕ × ℕ → Bytes
scan_plan i (interval_ms, n_iterations) =
    Attribute.add_attribute (new_int 4 Nl80211.sched_scan_plan_iterations n_iterations) (
      Attribute.add_attribute (new_int 4 Nl80211.sched_scan_plan_interval (interval_ms / 1000))
        (new_nested i))

-- The scan plans, or the single interval where there are none.
unfoldable pub plans_attr : SchedScanIntervalSetting → Bytes
unfolding add_indexed scan_plan
plans_attr setting =
    let last_scan_plan =
      Attribute.add_attribute
        (new_int 4 Nl80211.sched_scan_plan_interval (setting.final_interval_ms / 1000))
        (new_nested (length setting.plans + 1)) in
    if is_empty setting.plans
    then new_int 4 Nl80211.attr_sched_scan_interval setting.final_interval_ms
    else Attribute.add_attribute last_scan_plan
        (add_indexed scan_plan 1 setting.plans (new_nested Nl80211.attr_sched_scan_plans))

-- The packet that StartScheduledScan sends.
unfoldable pub start_scheduled_scan_packet : Origin → SchedScanParams → Bytes
start_scheduled_scan_packet o p =
    let start_sched_scan = add_flag nlm_f_ack (request o Nl80211.cmd_start_sched_scan) in
    let with_match =
      Packet.add_attribute (scan_match_attr p.min_5g_rssi p.match_ssids) start_sched_scan in
    let with_adjust =
      add_unless (not p.req_flags.request_sched_scan_relative_rssi)
        (new_raw Nl80211.attr_sched_scan_rssi_adjust (rssi_adjust p.min_2g_rssi p.min_5g_rssi))
        with_match in
    let with_index =
      Packet.add_attribute (new_int 4 Nl80211.attr_ifindex p.interface_index) with_adjust in
    let with_ssids =
      Packet.add_attribute (ssids_attr Nl80211.attr_scan_ssids p.scan_ssids) with_index in
    let with_freqs =
      add_unless (is_empty p.freqs) (freqs_attr Nl80211.attr_scan_frequencies p.freqs) with_ssids in
    let with_plans = Packet.add_attribute (plans_attr p.interval_setting) with_freqs in
    let scan_flags =
      or_flag p.req_flags.request_low_power Nl80211.scan_flag_low_power
        (or_flag p.req_flags.request_random_mac Nl80211.scan_flag_random_addr 0) in
    add_unless (scan_flags == 0) (new_int 4 Nl80211.attr_scan_flags scan_flags) with_plans

-- StartScheduledScan.
unfoldable pub start_scheduled_scan :
    Exchange → ℕ → ℕ → SchedScanParams → Manager → Outcome (Called (Bool × ℕ))
start_scheduled_scan e pid stale p m = do
  s ← exchange e (start_scheduled_scan_packet (origin m pid) p) (get_sequence_number m).0
  conclude s (ok (acknowledged stale (ack_or_error_code s)))
