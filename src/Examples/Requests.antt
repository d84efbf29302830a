-- ===== src/Examples/Requests.antt =====
-- Concrete requests of ScanUtils.
use dumbos_platform_system_c.Base.{◌≡◌, refl, arith, [], ◌∷◌, Bytes, ok, true, false, some, ◌==◌}
use dumbos_platform_system_c.Nl80211
use dumbos_platform_system_c.Packet
use dumbos_platform_system_c.Packet.{get_error_code, is_multi}
use dumbos_platform_system_c.Packet.Layout.{encode_packet}
use dumbos_platform_system_c.Manager.{Manager, Origin, get_sequence_number, handled, append_packet}
use dumbos_platform_system_c.Manager.Answers.{IsAnswer}
use dumbos_platform_system_c.Manager.Answered.{IsReady, answering}
use dumbos_platform_system_c.Scanner.State.{low_power}
use dumbos_platform_system_c.Scanner.Request.{ScanParams}
use dumbos_platform_system_c.Scanner.Pno.{SchedScanParams}
use dumbos_platform_system_c.Requests.{scan_packet, scan, start_scheduled_scan_packet}
use dumbos_platform_system_c.Requests.Built.{FitsOrigin, FitsScan, ack_header}
use dumbos_platform_system_c.Requests.Echo.{read_ssids, read_freqs, scan_packet-echo}
use dumbos_platform_system_c.Requests.Scheduled.{
  FitsSched, sched_attributes, start_scheduled_scan_packet-encode,
}
use dumbos_platform_system_c.Requests.Acknowledged.{scan-acknowledged}

abbrev source : Origin
source = record { family_id = 20; sequence = 7; pid = 400 }

source-FitsOrigin : FitsOrigin source
source-FitsOrigin = record {
  family_fits = omega arith;
  sequence_fits = omega arith;
  pid_fits = omega arith;
}

abbrev params : ScanParams
params = record {
  interface_index = 3;
  request_random_mac = true;
  scan_type = low_power;
  enable_6ghz_rnr = false;
  ssids = [] ∷ (97 ∷ 98 ∷ []) ∷ [];
  freqs = 2412 ∷ 5180 ∷ [];
  vendor_ies = 221 ∷ 1 ∷ 0 ∷ [];
}

params-Fits : FitsScan params
params-Fits = record {
  ssids_fit = record { id_fits = omega arith; len_fits = omega arith };
  freqs_fit = record { id_fits = omega arith; len_fits = omega arith };
  ies_fit = record { id_fits = omega arith; len_fits = omega arith };
}

scan_packet-echo_example :
    (read_ssids (scan_packet source params 8) ≡ ok ([] ∷ (97 ∷ 98 ∷ []) ∷ []))
    × (read_freqs (scan_packet source params 8) ≡ ok (2412 ∷ 5180 ∷ []))
scan_packet-echo_example =
    scan_packet-echo source params 8 source-FitsOrigin params-Fits (omega arith)

abbrev sched_params : SchedScanParams
sched_params = record {
  interface_index = 3;
  interval_setting = record { plans = (20000, 3) ∷ []; final_interval_ms = 60000 };
  min_2g_rssi = 4294967216;
  min_5g_rssi = 4294967219;
  min_6g_rssi = 4294967219;
  req_flags = record {
    request_random_mac = true;
    request_low_power = false;
    request_sched_scan_relative_rssi = true;
  };
  scan_ssids = [] ∷ [];
  match_ssids = (97 ∷ 98 ∷ []) ∷ (99 ∷ []) ∷ [];
  freqs = 2412 ∷ [];
}

sched_params-Fits : FitsSched sched_params
sched_params-Fits = record {
  match_fit = record { id_fits = omega arith; len_fits = omega arith };
  ssids_fit = record { id_fits = omega arith; len_fits = omega arith };
  freqs_fit = record { id_fits = omega arith; len_fits = omega arith };
  plans_fit = record { id_fits = omega arith; len_fits = omega arith };
  threshold_fits = omega arith;
}

start_scheduled_scan_packet-encode_example :
    start_scheduled_scan_packet source sched_params
    ≡ encode_packet (ack_header source Nl80211.cmd_start_sched_scan) (sched_attributes sched_params)
start_scheduled_scan_packet-encode_example =
    start_scheduled_scan_packet-encode source sched_params source-FitsOrigin sched_params-Fits

abbrev manager : Manager
manager = record {
  sequence_number = 4294967295;
  message_handlers = (9, 4) ∷ [];
  family_id = 20;
  on_scan_result_ready_handler = [];
  on_sched_scan_result_ready_handler = [];
  on_mlme_event_handler = [];
  on_station_event_handler = [];
  on_reg_domain_changed_handler = [];
  on_channel_switch_event_handler = [];
  on_frame_tx_status_event_handler = [];
}

manager-IsReady : IsReady manager
unfolding get_sequence_number
manager-IsReady = record { counter_fits = omega arith; family_fits = omega arith; free = refl }

-- EBUSY, in a message of 20 bytes.
abbrev busy : Bytes
busy = 20 ∷ 0 ∷ 0 ∷ 0 ∷ 2 ∷ 0 ∷ 0 ∷ 0 ∷ 1 ∷ 0 ∷ 0 ∷ 0 ∷ 144 ∷ 1 ∷ 0 ∷ 0 ∷ 240 ∷ 255 ∷ 255 ∷ 255 ∷ []

busy-IsAnswer : IsAnswer (get_sequence_number manager).1 busy
unfolding get_sequence_number Packet.is_valid
busy-IsAnswer = record {
  valid = refl;
  exact = refl;
  sequence = refl;
  ne_done = λ e. omega arith;
  ne_noop = λ e. omega arith;
  ne_overrun = λ e. omega arith;
}

busy_alone : is_multi busy ≡ false
unfolding is_multi
busy_alone = refl

scan-acknowledged_example :
    scan (answering busy (0 ∷ []) 12 []) 400 0 params manager
    ≡ ok (record {
      after = (get_sequence_number manager).0;
      seen = handled append_packet busy ∷ [];
      value = some (get_error_code busy == 0, get_error_code busy);
    })
scan-acknowledged_example =
    scan-acknowledged manager params 400 0 busy (0 ∷ []) 12 [] manager-IsReady (omega arith)
      params-Fits (λ e. cc) busy-IsAnswer busy_alone refl (omega arith)
