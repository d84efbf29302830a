-- ===== src/Examples/Starts.antt =====
-- A start of NetlinkManager, an access point with a station, and a client interface that comes and goes.
use dumbos_platform_system_c.Base.{
  ℕ, ◌≡◌, refl, arith, inl, List, [], ◌∷◌, ◌++◌, Bytes, le_bytes, ok, true, false, none, some,
  ◌>>=◌, ◌==◌,
}
use dumbos_platform_system_c.Nl80211
use dumbos_platform_system_c.Attribute
use dumbos_platform_system_c.Attribute.Layout.{Attr}
use dumbos_platform_system_c.Attribute.Nested.{nested}
use dumbos_platform_system_c.Packet
use dumbos_platform_system_c.Packet.{is_multi, get_command}
use dumbos_platform_system_c.Packet.Layout.{Header, encode_packet}
use dumbos_platform_system_c.Manager.{
  Manager, get_sequence_number, broadcast_handler, Startup, Platform, start, nl80211_genl_name,
  multicast_group_reg, multicast_group_scan, multicast_group_mlme,
}
use dumbos_platform_system_c.Manager.Answers.{IsAnswer}
use dumbos_platform_system_c.Manager.Answered.{IsReady, answering}
use dumbos_platform_system_c.Manager.Started.{
  TellsGroup, TellsGroups, no_groups, one_group, TellsFamily, Cooperates, HasGroups, start-answered,
}
use dumbos_platform_system_c.Manager.State.{
  Topic, scan_result, sched_scan_result, mlme, station, reg_domain, channel_switch, frame_tx_status,
  handlers_of,
}
use dumbos_platform_system_c.Wiphy.Info.{new_band_info, ScanCapabilities, WiphyFeatures}
use dumbos_platform_system_c.Client.{WiphyAnswer}
use dumbos_platform_system_c.Client.Lifetime.{
  new_client_interface, destroy_client_interface, binder_packet_counters, IsFree,
  destroy_client_interface-new_client_interface,
}
use dumbos_platform_system_c.Requests.Built.{word}
use dumbos_platform_system_c.Ap.{
  ApInterface, on_connected_clients_changed, new_ap_interface, destroy, register_callback,
  run_handlers,
}
use dumbos_platform_system_c.Ap.Events.{TellsOfStation, broadcast_handler-new_ap_interface}

abbrev manager : Manager
manager = record {
  sequence_number = 0;
  message_handlers = [];
  family_id = 0;
  on_scan_result_ready_handler = [];
  on_sched_scan_result_ready_handler = [];
  on_mlme_event_handler = [];
  on_station_event_handler = (3, 1) ∷ [];
  on_reg_domain_changed_handler = [];
  on_channel_switch_event_handler = [];
  on_frame_tx_status_event_handler = [];
}

manager-IsReady : IsReady manager
unfolding get_sequence_number
manager-IsReady = record { counter_fits = omega arith; family_fits = omega arith; free = refl }

abbrev startup : Startup
startup = record { manager = manager; started = false; message_types = []; memberships = [] }

abbrev group : Bytes → ℕ → List Attr
group name id = word 2 id ∷ (record { id = 1; content = name ++ 0 ∷ [] }) ∷ []

abbrev group_list : List Attr
group_list =
    nested 1 (group multicast_group_scan 5)
    ∷ nested 2 (group multicast_group_reg 6)
    ∷ nested 3 (group multicast_group_mlme 7)
    ∷ []

abbrev groups : List (Bytes × ℕ)
groups = (multicast_group_scan, 5) ∷ (multicast_group_reg, 6) ∷ (multicast_group_mlme, 7) ∷ []

abbrev family_header : Header
family_header = record { type = 16; flags = 0; sequence = 1; pid = 400; command = 1 }

abbrev family : List Attr
family =
    (record { id = 2; content = nl80211_genl_name ++ 0 ∷ [] })
    ∷ (record { id = 1; content = le_bytes 2 28 })
    ∷ nested 7 group_list
    ∷ []

scan-TellsGroup : TellsGroup (group multicast_group_scan 5) multicast_group_scan 5
scan-TellsGroup = record {
  fit = omega arith;
  pad = 1;
  named = refl;
  name_ends = λ e. omega arith;
  numbered = refl;
  id_fits = omega arith;
}

reg-TellsGroup : TellsGroup (group multicast_group_reg 6) multicast_group_reg 6
reg-TellsGroup = record {
  fit = omega arith;
  pad = 1;
  named = refl;
  name_ends = λ e. omega arith;
  numbered = refl;
  id_fits = omega arith;
}

mlme-TellsGroup : TellsGroup (group multicast_group_mlme 7) multicast_group_mlme 7
mlme-TellsGroup = record {
  fit = omega arith;
  pad = 1;
  named = refl;
  name_ends = λ e. omega arith;
  numbered = refl;
  id_fits = omega arith;
}

groups-TellsGroups : TellsGroups group_list groups
groups-TellsGroups =
    one_group 1 scan-TellsGroup (one_group 2 reg-TellsGroup (one_group 3 mlme-TellsGroup no_groups))

family-TellsFamily : TellsFamily family_header family group_list 28 groups
family-TellsFamily = record {
  header_fits = record {
    type_fits = omega arith;
    flags_fit = omega arith;
    sequence_fits = omega arith;
    pid_fits = omega arith;
    command_fits = omega arith;
  };
  type = refl;
  command = refl;
  fit = omega arith;
  groups_fit = omega arith;
  pad = 1;
  numbered = refl;
  id_fits = omega arith;
  named = refl;
  listed = refl;
  tells = groups-TellsGroups;
}

abbrev platform : Platform
platform = record {
  sync_socket = true;
  async_socket = true;
  discovery = answering (encode_packet family_header family) [] 3 [];
  watched = true;
  joins = λ id. true;
}

platform-Cooperates : Cooperates platform 6 5 7
platform-Cooperates = record {
  sync_socket = refl;
  async_socket = refl;
  watched = refl;
  joins_reg = refl;
  joins_scan = refl;
  joins_mlme = refl;
}

groups-HasGroups : HasGroups groups 6 5 7
groups-HasGroups = record { has_reg = refl; has_scan = refl; has_mlme = refl }

family-IsAnswer : IsAnswer (get_sequence_number manager).1 (encode_packet family_header family)
unfolding get_sequence_number Packet.is_valid
family-IsAnswer = record {
  valid = refl;
  exact = refl;
  sequence = refl;
  ne_done = λ e. omega arith;
  ne_noop = λ e. omega arith;
  ne_overrun = λ e. omega arith;
}

family_alone : is_multi (encode_packet family_header family) ≡ false
unfolding is_multi
family_alone = refl

start-answered_example :
    (end : Startup) × (start platform 400 startup ≡ ok (end, true))
    × (end.started ≡ true)
    × (end.manager ≡ record (get_sequence_number manager).0 { family_id = 28 })
    × (end.memberships ≡ 6 ∷ 5 ∷ 7 ∷ [])
start-answered_example =
    start-answered platform startup 400 family_header family group_list 28 groups 6 5 7 [] 3 [] refl
      platform-Cooperates refl groups-HasGroups manager-IsReady (omega arith) family-TellsFamily
      family-IsAnswer family_alone (omega arith)

abbrev station_packet : Bytes
station_packet =
    encode_packet (record { type = 0; flags = 0; sequence = 0; pid = 0; command = 19 })
      (word Nl80211.attr_ifindex 5
        ∷ (record { id = Nl80211.attr_mac; content = 2 ∷ 0 ∷ 0 ∷ 0 ∷ 0 ∷ 1 ∷ [] })
        ∷ [])

station_packet-TellsOfStation : TellsOfStation manager station_packet 5 (2 ∷ 0 ∷ 0 ∷ 0 ∷ 0 ∷ 1 ∷ [])
unfolding Attribute.get_int Attribute.get_array Attribute.get_valid Attribute.get_attribute_impl
    Attribute.get_attribute_loop Attribute.is_valid Attribute.is_valid_int Attribute.array_value
station_packet-TellsOfStation = record {
  family = refl;
  command = inl refl;
  interface = refl;
  address = refl;
}

abbrev gone : ApInterface
gone = record {
  interface_name = 8;
  interface_index = 5;
  handler = 2;
  event_callback = none;
  has_impl = true;
}

broadcast_handler-new_ap_interface_example :
    ((broadcast_handler [] 0 (new_ap_interface 8 5 2 manager).1 station_packet >>= λ events.
    ok (run_handlers (register_callback (some 6) (new_ap_interface 8 5 2 manager).0).0 events))
      ≡ ok (
          on_connected_clients_changed 6
            (2 ∷ 0 ∷ 0 ∷ 0 ∷ 0 ∷ 1 ∷ [])
            (get_command station_packet == Nl80211.cmd_new_station)
          ∷ []))
    × (broadcast_handler [] 0 (destroy gone manager).1.0 station_packet ≡ ok [])
broadcast_handler-new_ap_interface_example =
    broadcast_handler-new_ap_interface 8 5 2 6 [] 0 manager station_packet
      (2 ∷ 0 ∷ 0 ∷ 0 ∷ 0 ∷ 1 ∷ []) gone station_packet-TellsOfStation refl

abbrev capabilities : ScanCapabilities
capabilities = record {
  max_num_scan_ssids = 4;
  max_num_sched_scan_ssids = 16;
  max_match_sets = 16;
  max_num_scan_plans = 2;
  max_scan_plan_interval = 65535;
  max_scan_plan_iterations = 254;
}

abbrev features : WiphyFeatures
features = record {
  supports_random_mac_oneshot_scan = true;
  supports_random_mac_sched_scan = false;
  supports_low_span_oneshot_scan = false;
  supports_low_power_oneshot_scan = false;
  supports_high_accuracy_oneshot_scan = false;
  supports_tx_mgmt_frame_mcs = true;
  supports_ext_sched_scan_relative_rssi = false;
}

-- The request takes a sequence number.
abbrev wiphy_answer : WiphyAnswer
wiphy_answer m =
    (record m { sequence_number = 1 }, λ members. (members.0, (capabilities, features)))

keeps : (topic : Topic) (m : Manager) → handlers_of topic (wiphy_answer m).0 ≡ handlers_of topic m
keeps scan_result m = refl
keeps sched_scan_result m = refl
keeps mlme m = refl
keeps station m = refl
keeps reg_domain m = refl
keeps channel_switch m = refl
keeps frame_tx_status m = refl

manager-IsFree : IsFree 5 manager
manager-IsFree = record {
  mlme_free = refl;
  frame_free = refl;
  channel_free = refl;
  scan_free = refl;
  sched_free = refl;
}

destroy_client_interface-new_client_interface_example :
    let made =
      new_client_interface [] 0
        (new_band_info, (capabilities, features))
        wiphy_answer
        8
        5
        2
        []
        manager in
    let gone = destroy_client_interface made.0 made.1.0 in
    (handlers_of mlme gone.1.0 ≡ handlers_of mlme manager)
    × (gone.0.scanner.valid ≡ false)
    × (binder_packet_counters (λ mac. none) gone.0 ≡ none)
destroy_client_interface-new_client_interface_example =
    destroy_client_interface-new_client_interface [] 0 (new_band_info, (capabilities, features))
      wiphy_answer 8 5 2 [] manager mlme (λ mac. none) keeps manager-IsFree
