-- ===== src/Utils.antt =====
-- net/netlink_utils.cpp: the requests of NetlinkUtils and how it reads the answers. `pid` is what getpid()
-- returns. GetWiphyInfo is in Utils.Split.
pub mod Split
pub mod Merged
pub mod Packets
pub mod Whole
pub mod Stations
use dumbos_platform_system_c.Base.{
  ℕ, Bool, true, false, not, ◌&&◌, List, [], ◌∷◌, ◌==◌, if◌then◌else◌, Bytes, has_bits, Option,
  none, some, Outcome, ok, fails, ◌>>=◌, attempt, or_default, from_option,
}
use dumbos_platform_system_c.Uapi.{nlm_f_ack, nlm_f_dump, nlmsg_error}
use dumbos_platform_system_c.Nl80211
use dumbos_platform_system_c.Attribute
use dumbos_platform_system_c.Attribute.{new_raw, new_int, payload}
use dumbos_platform_system_c.Packet
use dumbos_platform_system_c.Packet.{add_flag, get_message_type, get_command}
use dumbos_platform_system_c.Manager.{
  Manager, get_sequence_number, Origin, origin, request, Exchange, Sent, Called, exchange,
  exchange_with_retry, conclude, single, ack_or_error_code, is_ack,
}
use dumbos_platform_system_c.Client.{StationInfo}

-- GetProtocolFeatures.
unfoldable pub read_protocol_features : Option Bytes → Outcome ℕ
read_protocol_features response = do
  packet ← from_option response
  Packet.get_int 4 packet Nl80211.attr_protocol_features

unfoldable pub get_protocol_features : Exchange → ℕ → Manager → Outcome (Called ℕ)
get_protocol_features e pid m = do
  s ←
      exchange e (request (origin m pid) Nl80211.cmd_get_protocol_features)
        (get_sequence_number m).0
  conclude s (read_protocol_features (single s))

-- NetlinkUtils::NetlinkUtils, on a manager that is started: the member supports_split_wiphy_dump_.
abbrev pub splits_dump : Option ℕ → Bool
splits_dump none = false
splits_dump (some features) = has_bits features Nl80211.protocol_feature_split_wiphy_dump

-- GetWiphyIndex: the request, for an interface index where a name is given.
unfoldable pub wiphy_request : Origin → Option ℕ → Bytes
wiphy_request o none = add_flag nlm_f_dump (request o Nl80211.cmd_get_wiphy)
wiphy_request o (some ifindex) =
    Packet.add_attribute (new_int 4 Nl80211.attr_ifindex ifindex)
      (add_flag nlm_f_dump (request o Nl80211.cmd_get_wiphy))

-- The three checks of a message at the head of the loops of GetWiphyIndex and GetInterfaces.
abbrev pub expected : ℕ → ℕ → Bytes → Outcome Bytes
expected family_id command packet =
    if get_message_type packet == nlmsg_error
    then fails
    else if not (get_message_type packet == family_id)
    then fails
    else if not (get_command packet == command)
    then fails
    else ok packet

-- The loop over the responses: the last index counts.
unfoldable pub wiphy_index_loop : ℕ → ℕ → List Bytes → Outcome ℕ
wiphy_index_loop family_id index [] = ok index
wiphy_index_loop family_id index (packet ∷ response) = do
  checked ← expected family_id Nl80211.cmd_new_wiphy packet
  found ← Packet.get_int 4 checked Nl80211.attr_wiphy
  wiphy_index_loop family_id found response

unfoldable pub read_wiphy_index : ℕ → Bool → List Bytes → Outcome ℕ
read_wiphy_index family_id false response = fails
read_wiphy_index family_id true [] = fails
read_wiphy_index family_id true (packet ∷ response) =
    wiphy_index_loop family_id 0 (packet ∷ response)

-- GetWiphyIndex once the request is built.
unfoldable pub ask_wiphy_index : Exchange → Exchange → ℕ → Option ℕ → Manager → Outcome (Called ℕ)
ask_wiphy_index e retry pid index m = do
  s ← exchange_with_retry e retry (wiphy_request (origin m pid) index) (get_sequence_number m).0
  conclude s (read_wiphy_index m.family_id s.done s.response)

-- GetWiphyIndex; `ifindex` is what if_nametoindex returns for a name that is not empty, where 0 is its
-- failure. The sequence number is taken before the name is looked up.
unfoldable pub get_wiphy_index : Exchange → Exchange → ℕ → Option ℕ → Manager → Outcome (Called ℕ)
unfolding ask_wiphy_index
get_wiphy_index e retry pid none m = ask_wiphy_index e retry pid none m
get_wiphy_index e retry pid (some index) m =
    if index == 0
    then ok (record { after = (get_sequence_number m).0; seen = []; value = none })
    else ask_wiphy_index e retry pid (some index) m

-- net/netlink_utils.h: InterfaceInfo.
pub record InterfaceInfo : Type 0 where
  pub if_index : ℕ
  pub wiphy_index : ℕ
  pub name : Bytes
  pub mac_address : Bytes

unfoldable pub interfaces_request : Origin → ℕ → Bytes
interfaces_request o wiphy_index =
    Packet.add_attribute (new_int 4 Nl80211.attr_wiphy wiphy_index)
      (add_flag nlm_f_dump (request o Nl80211.cmd_get_interface))

-- One message of the dump: `fails` where the loop goes on with the next, as for a pseudo interface.
unfoldable pub read_interface : ℕ → Bytes → Outcome InterfaceInfo
read_interface wiphy_index packet = do
  if_index ← Packet.get_int 4 packet Nl80211.attr_ifindex
  if_name ← Packet.get_string packet Nl80211.attr_ifname
  if_mac_addr ← Packet.get_array 6 packet Nl80211.attr_mac
  ok (record {
    if_index = if_index;
    wiphy_index = wiphy_index;
    name = if_name;
    mac_address = if_mac_addr;
  })

abbrev add_interface : Option InterfaceInfo → List InterfaceInfo → List InterfaceInfo
add_interface none later = later
add_interface (some info) later = info ∷ later

-- The loop of GetInterfaces.
unfoldable pub interfaces_loop : ℕ → ℕ → List Bytes → Outcome (List InterfaceInfo)
interfaces_loop family_id wiphy_index [] = ok []
interfaces_loop family_id wiphy_index (packet ∷ response) = do
  checked ← expected family_id Nl80211.cmd_new_interface packet
  info ← attempt (read_interface wiphy_index checked)
  later ← interfaces_loop family_id wiphy_index response
  ok (add_interface info later)

unfoldable pub read_interfaces : ℕ → ℕ → Bool → List Bytes → Outcome (List InterfaceInfo)
read_interfaces family_id wiphy_index false response = fails
read_interfaces family_id wiphy_index true [] = fails
read_interfaces family_id wiphy_index true (packet ∷ response) =
    interfaces_loop family_id wiphy_index (packet ∷ response)

-- GetInterfaces.
unfoldable pub get_interfaces : Exchange → ℕ → ℕ → Manager → Outcome (Called (List InterfaceInfo))
get_interfaces e pid wiphy_index m = do
  s ← exchange e (interfaces_request (origin m pid) wiphy_index) (get_sequence_number m).0
  conclude s (read_interfaces m.family_id wiphy_index s.done s.response)

-- net/netlink_utils.h: enum InterfaceMode, an integer.
abbrev pub station_mode : ℕ
station_mode = 0

unfoldable pub set_interface_request : Origin → ℕ → Bytes
set_interface_request o interface_index =
    Packet.add_attribute (new_int 4 Nl80211.attr_iftype Nl80211.iftype_station) (
      Packet.add_attribute (new_int 4 Nl80211.attr_ifindex interface_index)
        (add_flag nlm_f_ack (request o Nl80211.cmd_set_interface)))

-- SetInterfaceMode; any mode but one is refused before a sequence number is taken.
unfoldable pub set_interface_mode : Exchange → ℕ → ℕ → ℕ → Manager → Outcome (Called Bool)
set_interface_mode e pid interface_index mode m =
    if not (mode == station_mode)
    then ok (record { after = m; seen = []; value = some false })
    else (exchange e (set_interface_request (origin m pid) interface_index)
          (get_sequence_number m).0
        >>= λ s. conclude s (ok (is_ack (ack_or_error_code s))))

unfoldable pub station_request : Origin → ℕ → Bytes → Bytes
station_request o interface_index mac_address =
    Packet.add_attribute (new_raw Nl80211.attr_mac mac_address) (
      Packet.add_attribute (new_int 4 Nl80211.attr_ifindex interface_index)
        (request o Nl80211.cmd_get_station))

-- A rate: 0 where the nested attribute or the value in it is missing.
unfoldable pub read_bitrate : Bytes → ℕ → Outcome ℕ
read_bitrate sta_info id = or_default 0 (
    Attribute.get_nested (payload sta_info) id >>= λ rate.
    or_default 0 (Attribute.get_int 4 (payload rate) Nl80211.rate_info_bitrate32))

-- What GetStationInfo reads of the answer.
unfoldable pub read_station_info : Option Bytes → Outcome StationInfo
unfolding read_bitrate
read_station_info response = do
  packet ← from_option response
  checked ← if not (get_command packet == Nl80211.cmd_new_station) then fails else ok packet
  sta_info ← Packet.get_nested checked Nl80211.attr_sta_info
  tx_good ← Attribute.get_int 4 (payload sta_info) Nl80211.sta_info_tx_packets
  tx_bad ← Attribute.get_int 4 (payload sta_info) Nl80211.sta_info_tx_failed
  current_rssi ← Attribute.get_int 1 (payload sta_info) Nl80211.sta_info_signal
  tx_bitrate ← read_bitrate sta_info Nl80211.sta_info_tx_bitrate
  rx_bitrate ← read_bitrate sta_info Nl80211.sta_info_rx_bitrate
  ok (record {
    station_tx_packets = tx_good;
    station_tx_failed = tx_bad;
    station_tx_bitrate = tx_bitrate;
    current_rssi = current_rssi;
    station_rx_bitrate = rx_bitrate;
  })

-- GetStationInfo.
unfoldable pub get_station_info : Exchange → ℕ → ℕ → Bytes → Manager → Outcome (Called StationInfo)
get_station_info e pid interface_index mac_address m = do
  s ←
      exchange e (station_request (origin m pid) interface_index mac_address)
        (get_sequence_number m).0
  conclude s (read_station_info (single s))

-- GetCountryCode.
unfoldable pub read_country_code : Option Bytes → Outcome Bytes
read_country_code response = do
  packet ← from_option response
  Packet.get_string packet Nl80211.attr_reg_alpha2

unfoldable pub get_country_code : Exchange → ℕ → Manager → Outcome (Called Bytes)
get_country_code e pid m = do
  s ← exchange e (request (origin m pid) Nl80211.cmd_get_reg) (get_sequence_number m).0
  conclude s (read_country_code (single s))

-- SendMgmtFrame; the MCS rate is not sent.
unfoldable pub frame_request : Origin → ℕ → Bytes → Bytes
frame_request o interface_index frame = Packet.add_attribute (new_raw Nl80211.attr_frame frame) (
    Packet.add_attribute (new_int 4 Nl80211.attr_ifindex interface_index)
      (request o Nl80211.cmd_frame))

unfoldable pub read_cookie : Option Bytes → Outcome ℕ
read_cookie response = do packet ← from_option response; Packet.get_int 8 packet Nl80211.attr_cookie

unfoldable pub send_mgmt_frame : Exchange → ℕ → ℕ → Bytes → Manager → Outcome (Called ℕ)
send_mgmt_frame e pid interface_index frame m = do
  s ← exchange e (frame_request (origin m pid) interface_index frame) (get_sequence_number m).0
  conclude s (read_cookie (single s))
