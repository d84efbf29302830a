-- ===== src/Examples/Scans.antt =====
-- A concrete scanner, with limits and requests.
use dumbos_platform_system_c.Base.{
  ◌≡◌, ◌≤◌, ◌-◌, refl, arith, [], ◌∷◌, ◌++◌, ok, faults, true, false, length, take, replicate, max,
  none,
}
use dumbos_platform_system_c.Wiphy.Info.{BandInfo, new_band_info, ScanCapabilities, WiphyFeatures}
use dumbos_platform_system_c.Scanner.State.{Scanner, low_span, is_scan_type_supported}
use dumbos_platform_system_c.Scanner.Request.{SingleScanSettings, collect_ssids}
use dumbos_platform_system_c.Scanner.Pno.{PnoSettings, parse_pno_settings}
use dumbos_platform_system_c.Scanner.Ssids.{collect_ssids_lem, length-collect_ssids}
use dumbos_platform_system_c.Scanner.PnoBounds.{WithinLimits, parse_pno_settings-WithinLimits}
use dumbos_platform_system_c.Base.Assoc.{lookup}
use dumbos_platform_system_c.Manager.State.{Manager, scan_result, sched_scan_result, handlers_of}
use dumbos_platform_system_c.Scanner.Events.{invalidate}
use dumbos_platform_system_c.Scanner.Counter.{run, request, results_ready, no_device, nodev_aborts}
use dumbos_platform_system_c.Scanner.Failures.{failures_since_success, answers, run-counter}
use dumbos_platform_system_c.Scanner.Lifecycle.{StaysDead, run_dead}

abbrev capabilities : ScanCapabilities
capabilities = record {
  max_num_scan_ssids = 2;
  max_num_sched_scan_ssids = 2;
  max_match_sets = 1;
  max_num_scan_plans = 0;
  max_scan_plan_interval = 0;
  max_scan_plan_iterations = 0;
}

abbrev features : WiphyFeatures
features = record {
  supports_random_mac_oneshot_scan = true;
  supports_random_mac_sched_scan = true;
  supports_low_span_oneshot_scan = true;
  supports_low_power_oneshot_scan = false;
  supports_high_accuracy_oneshot_scan = false;
  supports_tx_mgmt_frame_mcs = false;
  supports_ext_sched_scan_relative_rssi = false;
}

abbrev scanner : Scanner
scanner = record {
  valid = true;
  scan_started = false;
  pno_scan_started = false;
  nodev_counter = 0;
  interface_index = 3;
  scan_capabilities = capabilities;
  wiphy_features = features;
  pno_scan_event_handler = none;
  scan_event_handler = none;
}

abbrev manager : Manager
manager = record {
  sequence_number = 0;
  message_handlers = [];
  family_id = 20;
  on_scan_result_ready_handler = (3, 1) ∷ (4, 2) ∷ [];
  on_sched_scan_result_ready_handler = (3, 1) ∷ [];
  on_mlme_event_handler = [];
  on_station_event_handler = [];
  on_reg_domain_changed_handler = [];
  on_channel_switch_event_handler = [];
  on_frame_tx_status_event_handler = [];
}

abbrev settings : SingleScanSettings
settings = record {
  scan_type = low_span;
  enable_6ghz_rnr = false;
  channel_settings = [];
  hidden_networks = (1 ∷ []) ∷ (2 ∷ []) ∷ [];
  vendor_ies = [];
}

collect_ssids_lem_example :
    collect_ssids 2 ((1 ∷ []) ∷ (2 ∷ []) ∷ []) ([] ∷ [])
    ≡ ([] ∷ []) ++ take (2 - 1) ((1 ∷ []) ∷ (2 ∷ []) ∷ [])
collect_ssids_lem_example = collect_ssids_lem 2 ((1 ∷ []) ∷ (2 ∷ []) ∷ []) ([] ∷ [])

length-collect_ssids_example :
    length (collect_ssids 2 ((1 ∷ []) ∷ (2 ∷ []) ∷ []) ([] ∷ [])) ≤ max 1 2
length-collect_ssids_example = length-collect_ssids 2 ((1 ∷ []) ∷ (2 ∷ []) ∷ [])

abbrev bands : BandInfo
bands = record new_band_info { band_2g = 2412 ∷ 2437 ∷ []; band_5g = 5180 ∷ [] }

abbrev pno : PnoSettings
pno = record {
  interval_ms = 1000;
  min_2g_rssi = 0;
  min_5g_rssi = 0;
  min_6g_rssi = 0;
  scan_iterations = 3;
  scan_interval_multiplier = 2;
  pno_networks =
      record { is_hidden = true; ssid = 1 ∷ []; frequencies = 5180 ∷ 2412 ∷ 9999 ∷ [] }
      ∷ record { is_hidden = true; ssid = 2 ∷ []; frequencies = [] }
      ∷ [];
}

parse_pno_settings-WithinLimits_example :
    WithinLimits 2 1 bands (parse_pno_settings bands pno scanner)
parse_pno_settings-WithinLimits_example = parse_pno_settings-WithinLimits bands pno scanner

three_failures :
    run (replicate 3 (request no_device false settings)) scanner
    ≡ ok (record scanner { nodev_counter = 3 })
three_failures =
    nodev_aborts 3 scanner false settings true refl (omega arith)
      (unfold is_scan_type_supported in refl)

nodev_aborts_example : run (replicate 4 (request no_device false settings)) scanner ≡ faults
nodev_aborts_example =
    nodev_aborts 4 scanner false settings true refl (omega arith)
      (unfold is_scan_type_supported in refl)

run-counter_example :
    ((record scanner { nodev_counter = 3 }).nodev_counter
      ≡ failures_since_success 0 (answers (replicate 3 (request no_device false settings)) scanner))
    × ((record scanner { nodev_counter = 3 }).nodev_counter ≤ 3)
run-counter_example =
    run-counter (replicate 3 (request no_device false settings)) scanner (omega arith)
      three_failures

run_dead_example :
    ((t : Scanner) × (run
          (request no_device false settings ∷ results_ready false ∷ [])
          (invalidate scanner manager).0
        ≡ ok t)
      × StaysDead scanner t)
    × (lookup 3 (handlers_of scan_result (invalidate scanner manager).1) ≡ none)
    × (lookup 3 (handlers_of sched_scan_result (invalidate scanner manager).1) ≡ none)
run_dead_example =
    run_dead (request no_device false settings ∷ results_ready false ∷ []) scanner manager
