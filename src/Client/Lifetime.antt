-- ===== src/Client/Lifetime.antt =====
-- client_interface_impl.cpp: the constructor and destructor of ClientInterfaceImpl, and
-- client_interface_binder.cpp: the binder, which may outlive the object.
use dumbos_platform_system_c.Base.{
  ℕ, Bool, true, false, not, ◌≡◌, refl, ◌∙◌, ap, List, [], ◌∷◌, Option, none, some, if◌then◌else◌,
  Bytes,
}
use dumbos_platform_system_c.Base.Assoc.{lookup, insert, erase}
use dumbos_platform_system_c.Scanner.State.{Scanner, new_scanner}
use dumbos_platform_system_c.Scanner.Events.{invalidate}
use dumbos_platform_system_c.Manager.State.{
  Manager, Topic, scan_result, sched_scan_result, mlme, station, reg_domain, channel_switch,
  frame_tx_status, handlers_of, subscribe, unsubscribe,
}
use dumbos_platform_system_c.Manager.Answered.{erase-insert}
use dumbos_platform_system_c.Client.{
  Client, WiphyMembers, WiphyAnswer, StationInfo, FrameEvent, on_failure_unknown,
  get_packet_counters, signal_poll, send_mgmt_frame,
}

-- The object with its scanner and binder; `has_impl` is `impl_ != nullptr` in the binder.
pub record ClientInterface : Type 0 where
  pub interface_name : ℕ
  pub interface_index : ℕ
  pub interface_mac_addr : Bytes
  pub client : Client
  pub scanner : Scanner
  pub has_impl : Bool

-- InterfaceTool::SetUpState, with the name of the interface.
pub data UpState : Type 0 where
  set_up_state : ℕ → Bool → UpState

-- The members that the constructor does not set, `bssid_` and `associate_freq_`, have indeterminate values,
-- here `unset_bssid` and `unset_freq`; `members` are those that GetWiphyInfo has filled.
unfoldable pub new_client : Bytes → ℕ → WiphyMembers → Client
new_client unset_bssid unset_freq members = record {
  is_associated = false;
  bssid = unset_bssid;
  associate_freq = unset_freq;
  band_info = members.0;
  scan_capabilities = members.1.0;
  wiphy_features = members.1.1;
  frame_tx_in_progress = false;
  frame_tx_status_cookie = 0;
  on_frame_tx_status_event_handler = none;
}

-- The subscriptions of the constructor and of the destructor, without those of the scanner.
unfoldable pub subscribe_client : ℕ → ℕ → Manager → Manager
subscribe_client interface_index handler m =
    subscribe channel_switch interface_index handler
      (subscribe frame_tx_status interface_index handler (subscribe mlme interface_index handler m))

unfoldable pub unsubscribe_client : ℕ → Manager → Manager
unsubscribe_client interface_index m =
    unsubscribe channel_switch interface_index
      (unsubscribe mlme interface_index (unsubscribe frame_tx_status interface_index m))

-- The constructors of ClientInterfaceImpl, of its binder and of its scanner. `start` is what the members
-- hold that GetWiphyInfo fills, before it is called.
unfoldable pub new_client_interface :
    Bytes
    → ℕ
    → WiphyMembers
    → WiphyAnswer
    → ℕ
    → ℕ
    → ℕ
    → Bytes
    → Manager
    → ClientInterface × (Manager × List UpState)
unfolding new_client subscribe_client
new_client_interface unset_bssid unset_freq start get_wiphy_info name index handler mac_addr m =
    let asked = get_wiphy_info (subscribe_client index handler m) in
    let members = asked.1 start in
    let scanner = new_scanner index handler members.1.0 members.1.1 asked.0 in
    (
      record {
        interface_name = name;
        interface_index = index;
        interface_mac_addr = mac_addr;
        client = new_client unset_bssid unset_freq members;
        scanner = scanner.0;
        has_impl = true;
      },
      (scanner.1, set_up_state name true ∷ []),
    )

-- The destructor of ClientInterfaceImpl.
unfoldable pub destroy_client_interface :
    ClientInterface → Manager → ClientInterface × (Manager × List UpState)
unfolding unsubscribe_client
destroy_client_interface c m = (
  record c { has_impl = false; scanner = (invalidate c.scanner m).0 },
  (
    unsubscribe_client c.interface_index (invalidate c.scanner m).1,
    set_up_state c.interface_name false ∷ [],
  ),
)

-- The methods of ClientInterfaceBinder; without an implementation they leave the output as it is.
unfoldable pub binder_packet_counters :
    (Bytes → Option StationInfo) → ClientInterface → Option (List ℕ)
binder_packet_counters get_station_info c =
    if not c.has_impl then none else get_packet_counters get_station_info c.client

unfoldable pub binder_signal_poll : (Bytes → Option StationInfo) → ClientInterface → Option (List ℕ)
binder_signal_poll get_station_info c =
    if not c.has_impl then none else signal_poll get_station_info c.client

unfoldable pub binder_mac_address : ClientInterface → Option Bytes
binder_mac_address c = if not c.has_impl then none else some c.interface_mac_addr

unfoldable pub binder_interface_name : ClientInterface → Option ℕ
binder_interface_name c = if not c.has_impl then none else some c.interface_name

unfoldable pub binder_wifi_scanner_impl : ClientInterface → Option Scanner
binder_wifi_scanner_impl c = if not c.has_impl then none else some c.scanner

unfoldable pub binder_send_mgmt_frame :
    ℕ → Bool → Option ℕ → ClientInterface → ClientInterface × List FrameEvent
binder_send_mgmt_frame callback has_mcs cookie c =
    if not c.has_impl then (c, on_failure_unknown callback ∷ []) else (
      record c { client = (send_mgmt_frame callback has_mcs cookie c.client).0 },
      (send_mgmt_frame callback has_mcs cookie c.client).1,
    )

-- No handler is registered for the interface among those that the constructors register.
pub record IsFree (index : ℕ) (m : Manager) : Type 0 where
  pub mlme_free : lookup index m.on_mlme_event_handler ≡ none
  pub frame_free : lookup index m.on_frame_tx_status_event_handler ≡ none
  pub channel_free : lookup index m.on_channel_switch_event_handler ≡ none
  pub scan_free : lookup index m.on_scan_result_ready_handler ≡ none
  pub sched_free : lookup index m.on_sched_scan_result_ready_handler ≡ none

-- One topic: GetWiphyInfo runs between the subscription of the interface and that of the scanner.
restored :
    (index handler : ℕ) (before asked : List (ℕ × ℕ))
    → asked ≡ before
    → lookup index before ≡ none
    → erase index (insert index handler asked) ≡ before
restored index handler before asked e free =
    ap (λ l. erase index (insert index handler l)) e ∙ erase-insert index handler before free

-- A client interface that is made and then destroyed, on an index without handlers for MLME, frame, channel
-- and scan events and with a GetWiphyInfo that keeps the handlers of events, leaves all handlers of events
-- as they were; its scanner is not valid, and its binder gives no packet counters.
pub destroy_client_interface-new_client_interface :
    (unset_bssid : Bytes) (unset_freq : ℕ) (start : WiphyMembers) (get_wiphy_info : WiphyAnswer)
    (name index handler : ℕ) (mac_addr : Bytes) (m : Manager) (topic : Topic)
    (get_station_info : Bytes → Option StationInfo)
    → ((t : Topic) (n : Manager) → handlers_of t (get_wiphy_info n).0 ≡ handlers_of t n)
    → IsFree index m
    → let made =
        new_client_interface unset_bssid unset_freq start get_wiphy_info name index handler mac_addr
          m in
      let gone = destroy_client_interface made.0 made.1.0 in
      (handlers_of topic gone.1.0 ≡ handlers_of topic m)
      × (gone.0.scanner.valid ≡ false)
      × (binder_packet_counters get_station_info gone.0 ≡ none)
unfolding destroy_client_interface new_client_interface binder_packet_counters unsubscribe_client
    subscribe_client unsubscribe subscribe invalidate new_scanner
destroy_client_interface-new_client_interface unset_bssid unset_freq start info name index handler
      mac_addr m topic get_station_info keeps free =
    (left topic, refl, refl)
  where
    left :
        (t : Topic)
        → handlers_of t
            (destroy_client_interface
              (new_client_interface unset_bssid unset_freq start info name index handler mac_addr
                m).0
              (new_client_interface unset_bssid unset_freq start info name index handler mac_addr
                m).1.0).1.0
          ≡ handlers_of t m
    left scan_result = restored index handler _ _ (keeps scan_result _) free.scan_free
    left sched_scan_result = restored index handler _ _ (keeps sched_scan_result _) free.sched_free
    left station = keeps station _
    left reg_domain = keeps reg_domain _
    left mlme = ap (erase index) (keeps mlme _) ∙ erase-insert index handler _ free.mlme_free
    left channel_switch =
        ap (erase index) (keeps channel_switch _) ∙ erase-insert index handler _ free.channel_free
    left frame_tx_status =
        ap (erase index) (keeps frame_tx_status _) ∙ erase-insert index handler _ free.frame_free
