-- ===== src/Manager/Dispatch.antt =====
-- BroadcastHandler and the On... functions: which handler a multicast message reaches, and with what.
-- In each of them the model `fails` where the source returns before it runs a handler.
use dumbos_platform_system_c.Base.{
  ℕ, Bool, not, ◌||◌, List, [], ◌∷◌, map, Option, none, some, ◌==◌, if◌then◌else◌, Bytes, Outcome,
  ok, fails, ◌>>=◌, or_default, attempt, from_option,
}
use dumbos_platform_system_c.Base.Assoc.{lookup}
use dumbos_platform_system_c.Nl80211
use dumbos_platform_system_c.Attribute.{
  is_valid, is_valid_int, int_value, raw_value, get_list_of_attribute_values,
}
use dumbos_platform_system_c.Packet
use dumbos_platform_system_c.Packet.{get_message_type, get_command}
use dumbos_platform_system_c.Mlme.{
  MlmeEvent, connect_from_packet, associate_from_packet, roam_from_packet, disconnect_from_packet,
  disassociate_from_packet,
}
use dumbos_platform_system_c.Manager.State.{Manager}

-- net/mlme_event_handler.h: the methods of a handler.
pub data MlmeKind : Type 0 where
  on_connect on_associate on_roam on_disconnect on_disassociate : MlmeKind

-- net/netlink_manager.h: enum ChannelBandwidth.
pub data ChannelBandwidth : Type 0 where
  bw_invalid bw_20_noht bw_20 bw_40 bw_80 bw_80p80 bw_160 bw_320 : ChannelBandwidth

-- A call of a handler; the first number is the handler.
pub data Event : Type 0 where
  scan_results_ready : ℕ → ℕ → Bool → List Bytes → List ℕ → Event
  sched_scan_results_ready : ℕ → ℕ → Bool → Event
  mlme_event : ℕ → MlmeKind → MlmeEvent → Event
  reg_domain_changed : ℕ → ℕ → Bytes → Event
  new_station : ℕ → Bytes → Event
  del_station : ℕ → Bytes → Event
  channel_switched : ℕ → ℕ → ChannelBandwidth → Event
  frame_tx_status : ℕ → ℕ → Bool → Event

-- getBandwidthType.
unfoldable pub get_bandwidth_type : ℕ → ChannelBandwidth
get_bandwidth_type bandwidth =
    if bandwidth == Nl80211.chan_width_20_noht
    then bw_20_noht
    else if bandwidth == Nl80211.chan_width_20
    then bw_20
    else if bandwidth == Nl80211.chan_width_40
    then bw_40
    else if bandwidth == Nl80211.chan_width_80
    then bw_80
    else if bandwidth == Nl80211.chan_width_80p80
    then bw_80p80
    else if bandwidth == Nl80211.chan_width_160
    then bw_160
    else if bandwidth == Nl80211.chan_width_320
    then bw_320
    else bw_invalid

-- GetListOfAttributeValues, where the nested attribute is present.
unfoldable pub list_values {ℓ} :
    {A : Type ℓ} → (Bytes → Bool) → (Bytes → Outcome A) → Option Bytes → Outcome (List A)
list_values valid value none = ok []
list_values valid value (some attr) = get_list_of_attribute_values valid value attr

-- OnScanResultsReady.
unfoldable pub on_scan_results_ready : Manager → Bytes → Outcome (List Event)
on_scan_results_ready m packet = do
  if_index ← Packet.get_int 4 packet Nl80211.attr_ifindex
  handler ← from_option (lookup if_index m.on_scan_result_ready_handler)
  ssids_attr ← attempt (Packet.get_nested packet Nl80211.attr_scan_ssids)
  ssids ← list_values is_valid raw_value ssids_attr
  freqs_attr ← attempt (Packet.get_nested packet Nl80211.attr_scan_frequencies)
  freqs ← list_values (is_valid_int 4) (int_value 4) freqs_attr
  ok (
      scan_results_ready handler if_index (get_command packet == Nl80211.cmd_scan_aborted) ssids
        freqs
      ∷ [])

-- OnSchedScanResultsReady.
unfoldable pub on_sched_scan_results_ready : Manager → Bytes → Outcome (List Event)
on_sched_scan_results_ready m packet = do
  if_index ← Packet.get_int 4 packet Nl80211.attr_ifindex
  handler ← from_option (lookup if_index m.on_sched_scan_result_ready_handler)
  ok (
      sched_scan_results_ready handler if_index
        (get_command packet == Nl80211.cmd_sched_scan_stopped)
      ∷ [])

-- The ladder of OnMlmeEvent.
unfoldable pub read_mlme_event : Bytes → Bytes → Outcome (MlmeKind × MlmeEvent)
read_mlme_event unset packet =
    let command = get_command packet in
    if command == Nl80211.cmd_connect
    then (connect_from_packet unset packet >>= λ e. ok (on_connect, e))
    else if command == Nl80211.cmd_associate
    then (associate_from_packet unset packet >>= λ e. ok (on_associate, e))
    else if command == Nl80211.cmd_roam
    then (roam_from_packet unset packet >>= λ e. ok (on_roam, e))
    else if command == Nl80211.cmd_disconnect
    then (disconnect_from_packet unset packet >>= λ e. ok (on_disconnect, e))
    else if command == Nl80211.cmd_disassociate
    then (disassociate_from_packet unset packet >>= λ e. ok (on_disassociate, e))
    else fails

-- OnMlmeEvent.
unfoldable pub on_mlme_event : Bytes → Manager → Bytes → Outcome (List Event)
unfolding read_mlme_event
on_mlme_event unset m packet = do
  if_index ← Packet.get_int 4 packet Nl80211.attr_ifindex
  handler ← from_option (lookup if_index m.on_mlme_event_handler)
  event ← read_mlme_event unset packet
  ok (mlme_event handler event.0 event.1 ∷ [])

-- The regulatory domain of OnRegChangeEvent: a country code, or empty for the world domains.
unfoldable pub country_of_reg_type : ℕ → Bytes → Outcome Bytes
country_of_reg_type reg_type packet =
    if reg_type == Nl80211.regdom_type_country
    then Packet.get_string packet Nl80211.attr_reg_alpha2
    else if (reg_type == Nl80211.regdom_type_world)
        || ((reg_type == Nl80211.regdom_type_custom_world)
            || (reg_type == Nl80211.regdom_type_intersection))
    then ok []
    else fails

-- OnRegChangeEvent. Without NL80211_ATTR_REG_TYPE the variable `reg_type` keeps its indeterminate value,
-- `unset` here.
unfoldable pub on_reg_change_event : ℕ → Manager → Bytes → Outcome (List Event)
unfolding country_of_reg_type
on_reg_change_event unset m packet = do
  reg_type ← or_default unset (Packet.get_int 1 packet Nl80211.attr_reg_type)
  country_code ← country_of_reg_type reg_type packet
  ok (
      map (λ entry. reg_domain_changed entry.1 entry.0 country_code)
        m.on_reg_domain_changed_handler)

-- The station branch of BroadcastHandler.
unfoldable pub on_station_event : Manager → Bytes → Outcome (List Event)
on_station_event m packet = do
  if_index ← Packet.get_int 4 packet Nl80211.attr_ifindex
  handler ← from_option (lookup if_index m.on_station_event_handler)
  mac_address ← Packet.get_array 6 packet Nl80211.attr_mac
  ok (
      (if get_command packet == Nl80211.cmd_new_station
        then new_station handler mac_address
        else del_station handler mac_address)
      ∷ [])

-- OnChannelSwitchEvent.
unfoldable pub on_channel_switch_event : Manager → Bytes → Outcome (List Event)
unfolding get_bandwidth_type
on_channel_switch_event m packet = do
  if_index ← Packet.get_int 4 packet Nl80211.attr_ifindex
  frequency ← Packet.get_int 4 packet Nl80211.attr_wiphy_freq
  bandwidth ← Packet.get_int 4 packet Nl80211.attr_channel_width
  handler ← from_option (lookup if_index m.on_channel_switch_event_handler)
  ok (channel_switched handler frequency (get_bandwidth_type bandwidth) ∷ [])

-- OnFrameTxStatusEvent.
unfoldable pub on_frame_tx_status_event : Manager → Bytes → Outcome (List Event)
on_frame_tx_status_event m packet = do
  if_index ← Packet.get_int 4 packet Nl80211.attr_ifindex
  cookie ← Packet.get_int 8 packet Nl80211.attr_cookie
  was_acked ← Packet.has_attribute packet Nl80211.attr_ack
  handler ← from_option (lookup if_index m.on_frame_tx_status_event_handler)
  ok (frame_tx_status handler cookie was_acked ∷ [])

-- The ladder of BroadcastHandler over the command.
unfoldable pub broadcast_command : Bytes → ℕ → Manager → Bytes → Outcome (List Event)
broadcast_command unset_bssid unset_reg m packet =
    let c = get_command packet in
    if (c == Nl80211.cmd_new_scan_results) || (c == Nl80211.cmd_scan_aborted)
    then on_scan_results_ready m packet
    else if (c == Nl80211.cmd_sched_scan_results) || (c == Nl80211.cmd_sched_scan_stopped)
    then on_sched_scan_results_ready m packet
    else if (c == Nl80211.cmd_connect)
        || ((c == Nl80211.cmd_associate)
            || ((c == Nl80211.cmd_roam)
                || ((c == Nl80211.cmd_disconnect) || (c == Nl80211.cmd_disassociate))))
    then on_mlme_event unset_bssid m packet
    else if (c == Nl80211.cmd_reg_change) || (c == Nl80211.cmd_wiphy_reg_change)
    then on_reg_change_event unset_reg m packet
    else if (c == Nl80211.cmd_new_station) || (c == Nl80211.cmd_del_station)
    then on_station_event m packet
    else if c == Nl80211.cmd_ch_switch_notify
    then on_channel_switch_event m packet
    else if c == Nl80211.cmd_frame_tx_status
    then on_frame_tx_status_event m packet
    else fails

-- BroadcastHandler: the handlers that run, in order.
unfoldable pub broadcast_handler : Bytes → ℕ → Manager → Bytes → Outcome (List Event)
broadcast_handler unset_bssid unset_reg m packet =
    if not (get_message_type packet == m.family_id)
    then ok []
    else or_default [] (broadcast_command unset_bssid unset_reg m packet)
