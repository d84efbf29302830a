-- ===== src/Utils/Stations.antt =====
-- GetStationInfo, when the kernel describes the station in time.
use dumbos_platform_system_c.Base.{
  ℕ, ◌<◌, ◌≡◌, ◌≢◌, refl, false, List, [], ◌∷◌, arith, length, Bytes, le_bytes, none, some, ok,
}
use dumbos_platform_system_c.Uapi.{nlmsg_error, nlm_f_request}
use dumbos_platform_system_c.Nl80211
use dumbos_platform_system_c.Attribute.Layout.{Attr, Fits, encode, new_int-encode, new_raw-encode}
use dumbos_platform_system_c.Attribute.Lookup.{AllFit, find_attr}
use dumbos_platform_system_c.Attribute.Nested.{nested, payload-nested}
use dumbos_platform_system_c.Attribute.Getters.{get_nested-encode_all, get_int-encode_all}
use dumbos_platform_system_c.Packet.{is_multi, get_message_type}
use dumbos_platform_system_c.Packet.Layout.{Header, encode_packet}
use dumbos_platform_system_c.Packet.Fields.{FitsHeader, getters-encode}
use dumbos_platform_system_c.Packet.Build.{IsBuilt, new_packet-IsBuilt, add_attribute-IsBuilt}
use dumbos_platform_system_c.Manager.{
  Manager, Origin, origin, get_sequence_number, Poll, handled, append_packet,
}
use dumbos_platform_system_c.Manager.Answers.{IsAnswer}
use dumbos_platform_system_c.Manager.Answered.{IsReady, answering, exchange-numbered, single-read}
use dumbos_platform_system_c.Client.{StationInfo}
use dumbos_platform_system_c.Requests.Built.{word, word-Fits}
use dumbos_platform_system_c.Requests.Acknowledged.{ready_origin}
use dumbos_platform_system_c.Utils.{
  station_request, read_bitrate, read_station_info, get_station_info,
}

-- A rate among the attributes of a station: the 32-bit value, or 0 where the rate is not there.
pub data Rate (id : ℕ) (k : List Attr) : ℕ → Type 0 where
  absent : {v : ℕ} → find_attr id k ≡ none → v ≡ 0 → Rate id k v
  given :
      {v : ℕ} (r : List Attr)
      → find_attr id k ≡ some (nested id r)
      → AllFit r
      → find_attr Nl80211.rate_info_bitrate32 r ≡ some (word Nl80211.rate_info_bitrate32 v)
      → v < 4294967296
      → Rate id k v

-- The attributes of NL80211_ATTR_STA_INFO describe a station.
pub record Describes (k : List Attr) (info : StationInfo) : Type 0 where
  pub fit : AllFit k
  pub packets :
      find_attr Nl80211.sta_info_tx_packets k
      ≡ some (word Nl80211.sta_info_tx_packets info.station_tx_packets)
  pub failed :
      find_attr Nl80211.sta_info_tx_failed k
      ≡ some (word Nl80211.sta_info_tx_failed info.station_tx_failed)
  pub signal :
      find_attr Nl80211.sta_info_signal k
      ≡ some (record { id = Nl80211.sta_info_signal; content = le_bytes 1 info.current_rssi })
  pub tx : Rate Nl80211.sta_info_tx_bitrate k info.station_tx_bitrate
  pub rx : Rate Nl80211.sta_info_rx_bitrate k info.station_rx_bitrate
  pub packets_fit : info.station_tx_packets < 4294967296
  pub failed_fit : info.station_tx_failed < 4294967296
  pub rssi_fits : info.current_rssi < 256

read_bitrate-Rate :
    (sta id : ℕ) (k : List Attr) {v : ℕ}
    → AllFit k
    → Rate id k v
    → read_bitrate (encode (nested sta k)) id ≡ ok v
unfolding read_bitrate
read_bitrate-Rate sta id k f (absent e z) =
    rw (payload-nested sta k) (rw (get_nested-encode_all id k f) (rw (e, z) refl))
read_bitrate-Rate sta id k {v} f (given r e g b h) = rw (payload-nested sta k) (
    rw (get_nested-encode_all id k f) (
      rw e (
        rw (payload-nested id r)
          (rw (get_int-encode_all 4 Nl80211.rate_info_bitrate32 v r g h b) refl))))

-- A message that describes a station.
pub record TellsStation (h : Header) (l k : List Attr) (info : StationInfo) : Type 0 where
  pub header_fits : FitsHeader h
  pub type : h.type ≢ nlmsg_error
  pub command : h.command ≡ Nl80211.cmd_new_station
  pub fit : AllFit l
  pub station : find_attr Nl80211.attr_sta_info l ≡ some (nested Nl80211.attr_sta_info k)
  pub describes : Describes k info

read_station_info-TellsStation :
    (h : Header) (l k : List Attr) (info : StationInfo)
    → TellsStation h l k info
    → read_station_info (some (encode_packet h l)) ≡ ok info
unfolding read_station_info
read_station_info-TellsStation h l k info t =
    let d = t.describes in
    rw ((getters-encode h l t.header_fits).4, t.command)
      (rw (get_nested-encode_all Nl80211.attr_sta_info l t.fit) (
        rw t.station (
          rw
            (
              read_bitrate-Rate Nl80211.attr_sta_info Nl80211.sta_info_tx_bitrate k d.fit d.tx,
              read_bitrate-Rate Nl80211.attr_sta_info Nl80211.sta_info_rx_bitrate k d.fit d.rx,
              payload-nested Nl80211.attr_sta_info k,
              get_int-encode_all 4 Nl80211.sta_info_tx_packets info.station_tx_packets k d.fit
                  d.packets_fit d.packets,
              get_int-encode_all 4 Nl80211.sta_info_tx_failed info.station_tx_failed k d.fit
                  d.failed_fit d.failed,
              get_int-encode_all 1 Nl80211.sta_info_signal info.current_rssi k d.fit d.rssi_fits
                  d.signal,
            )
            refl)))

abbrev plain_header : Origin → ℕ → Header
plain_header o command = record {
  type = o.family_id;
  flags = nlm_f_request;
  sequence = o.sequence;
  pid = o.pid;
  command = command;
}

station_request-IsBuilt :
    (o : Origin) (interface_index : ℕ) (mac_address : Bytes)
    → length mac_address ≡ 6
    → IsBuilt 2
        (plain_header o Nl80211.cmd_get_station)
        (word Nl80211.attr_ifindex interface_index
          ∷ (record { id = Nl80211.attr_mac; content = mac_address })
          ∷ [])
        (station_request o interface_index mac_address)
unfolding station_request
station_request-IsBuilt o interface_index mac_address six =
    let mac : Attr = record { id = Nl80211.attr_mac; content = mac_address } in
    let mac_fits : Fits mac = record { id_fits = omega arith; len_fits = omega arith } in
    let with_index =
      add_attribute-IsBuilt 0 _ [] (word Nl80211.attr_ifindex interface_index) _ _
        (new_packet-IsBuilt o.family_id Nl80211.cmd_get_station o.sequence o.pid)
        (new_int-encode 4 _ _) (word-Fits _ _ refl) refl in
    add_attribute-IsBuilt 1 _ _ mac _ _ with_index (new_raw-encode _ _) mac_fits refl

-- The kernel answers the request of GetStationInfo, in its first datagram and before 4000 milliseconds have
-- passed, with a message that describes a station: GetStationInfo returns that description, a rate that is
-- missing being 0, and leaves the manager with the next sequence number and the handlers as they were.
pub get_station_info-answered :
    (m : Manager) (pid interface_index : ℕ) (mac_address : Bytes) (h : Header) (l k : List Attr)
    (info : StationInfo) (junk : Bytes) (elapsed : ℕ) (polls : List Poll)
    → IsReady m
    → pid < 4294967296
    → length mac_address ≡ 6
    → TellsStation h l k info
    → IsAnswer (get_sequence_number m).1 (encode_packet h l)
    → is_multi (encode_packet h l) ≡ false
    → elapsed < 4000
    → get_station_info
        (answering (encode_packet h l) junk elapsed polls)
        pid
        interface_index
        mac_address
        m
      ≡ ok (record {
        after = (get_sequence_number m).0;
        seen = handled append_packet (encode_packet h l) ∷ [];
        value = some info;
      })
unfolding get_station_info
get_station_info-answered m pid interface_index mac_address h l k info junk elapsed polls r pf six t
      a i time =
    let o = origin m pid in
    let fo = ready_origin m pid r pf in
    let header_fits : FitsHeader (plain_header o Nl80211.cmd_get_station) = record {
      type_fits = fo.family_fits;
      flags_fit = omega arith;
      sequence_fits = fo.sequence_fits;
      pid_fits = fo.pid_fits;
      command_fits = omega arith;
    } in
    let ne_error : get_message_type (encode_packet h l) ≢ nlmsg_error =
      rw ((getters-encode h l t.header_fits).0) t.type in
    let answered =
      exchange-numbered m 2 _ _ _ (encode_packet h l) junk elapsed polls r
        (station_request-IsBuilt o interface_index mac_address six) header_fits refl a i time in
    rw answered (
      rw (single-read (encode_packet h l) ne_error)
        (rw (read_station_info-TellsStation h l k info t) refl))
