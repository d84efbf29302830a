-- ===== src/Examples/Clients.antt =====
-- Concrete information elements, MLME events and management frames.
use dumbos_platform_system_c.Base.{ℕ, ◌≡◌, arith, true, false, List, [], ◌∷◌, some, none, zeros, ok}
use dumbos_platform_system_c.Wiphy.Info.{new_band_info}
use dumbos_platform_system_c.Mlme.{MlmeEvent}
use dumbos_platform_system_c.Manager.Dispatch.{on_connect, on_disconnect}
use dumbos_platform_system_c.Results.{get_ssid_from_info_element}
use dumbos_platform_system_c.Results.Elements.{
  Element, encode_elements, IsInside, get_ssid_from_info_element-encode_elements,
  get_ssid_from_info_element-IsInside,
}
use dumbos_platform_system_c.Client.{Client, on_ack, send_mgmt_frame}
use dumbos_platform_system_c.Client.Association.{Report, Decides, handle_all, handle_all-Decides}
use dumbos_platform_system_c.Client.Frames.{report_all, send_mgmt_frame-report_all}

abbrev elements : List Element
elements = record { id = 3; value = 6 ∷ [] } ∷ record { id = 0; value = 104 ∷ 105 ∷ [] } ∷ []

get_ssid_from_info_element-encode_elements_example :
    get_ssid_from_info_element (encode_elements elements) ≡ ok (104 ∷ 105 ∷ [])
get_ssid_from_info_element-encode_elements_example =
    get_ssid_from_info_element-encode_elements elements

finds_ssid : get_ssid_from_info_element (encode_elements elements) ≡ ok (104 ∷ 105 ∷ [])
finds_ssid = get_ssid_from_info_element-encode_elements elements

get_ssid_from_info_element-IsInside_example :
    (skipped : ℕ) × IsInside skipped (encode_elements elements) (104 ∷ 105 ∷ [])
get_ssid_from_info_element-IsInside_example =
    get_ssid_from_info_element-IsInside (encode_elements elements) finds_ssid

abbrev client : Client
client = record {
  is_associated = false;
  bssid = zeros 6;
  associate_freq = 0;
  band_info = new_band_info;
  scan_capabilities = record {
    max_num_scan_ssids = 4;
    max_num_sched_scan_ssids = 16;
    max_match_sets = 16;
    max_num_scan_plans = 2;
    max_scan_plan_interval = 65535;
    max_scan_plan_iterations = 254;
  };
  wiphy_features = record {
    supports_random_mac_oneshot_scan = true;
    supports_random_mac_sched_scan = false;
    supports_low_span_oneshot_scan = false;
    supports_low_power_oneshot_scan = false;
    supports_high_accuracy_oneshot_scan = false;
    supports_tx_mgmt_frame_mcs = false;
    supports_ext_sched_scan_relative_rssi = false;
  };
  frame_tx_in_progress = false;
  frame_tx_status_cookie = 0;
  on_frame_tx_status_event_handler = none;
}

abbrev connected : MlmeEvent
connected = record {
  interface_index = 3;
  bssid = 1 ∷ 2 ∷ 3 ∷ 4 ∷ 5 ∷ 6 ∷ [];
  status_code = 0;
  is_timeout = false;
}

abbrev disconnection : Report
disconnection = record { scan = none; kind = on_disconnect; event = connected }

abbrev connection : Report
connection = record { scan = none; kind = on_connect; event = connected }

handle_all-Decides_example :
    Decides on_connect connected (handle_all (disconnection ∷ connection ∷ []) client)
handle_all-Decides_example = handle_all-Decides (disconnection ∷ []) connection client

send_mgmt_frame-report_all_example :
    report_all
      ((8, false) ∷ (7, true) ∷ (7, true) ∷ [])
      (send_mgmt_frame 42 false (some 7) client).0
    ≡ on_ack 42 ∷ []
send_mgmt_frame-report_all_example =
    send_mgmt_frame-report_all ((8, false) ∷ []) ((7, true) ∷ []) 7 42 true client
      ((λ e. omega arith), tt)
