-- ===== src/Client.antt =====
-- client_interface_impl.{h,cpp}: the association state that MLME events drive, signal polls, and the
-- transmission of management frames. What netlink and ScanUtils answer are arguments.
pub mod Association
pub mod Frames
pub mod Lifetime
use dumbos_platform_system_c.Base.{
  ℕ, ◌/◌, Bool, true, false, not, ◌&&◌, List, [], ◌∷◌, Option, none, some, ◌==◌, if◌then◌else◌,
  Bytes, zeros,
}
use dumbos_platform_system_c.Mlme.{MlmeEvent}
use dumbos_platform_system_c.Manager.State.{Manager}
use dumbos_platform_system_c.Manager.Dispatch.{
  MlmeKind, on_connect, on_associate, on_roam, on_disconnect, on_disassociate,
}
use dumbos_platform_system_c.Wiphy.Info.{BandInfo, ScanCapabilities, WiphyFeatures}
use dumbos_platform_system_c.Results.{NativeScanResult, sign_extend}

-- The members that change. A callback is known by its binder; `none` is the handler that does nothing.
pub record Client : Type 0 where
  pub is_associated : Bool
  pub bssid : Bytes
  pub associate_freq : ℕ
  pub band_info : BandInfo
  pub scan_capabilities : ScanCapabilities
  pub wiphy_features : WiphyFeatures
  pub frame_tx_in_progress : Bool
  pub frame_tx_status_cookie : ℕ
  pub on_frame_tx_status_event_handler : Option ℕ

-- GetWiphyInfo with its three output parameters: the manager after the exchange, and what it leaves in
-- them, whether it succeeds or not.
abbrev pub WiphyMembers : Type 0
WiphyMembers = BandInfo × (ScanCapabilities × WiphyFeatures)

abbrev pub WiphyAnswer : Type 0
WiphyAnswer = Manager → Manager × (WiphyMembers → WiphyMembers)

-- UpdateBandInfo. The scanner keeps the copies of capabilities and features that it was made with.
unfoldable pub update_band_info : WiphyAnswer → Client → Manager → Client × Manager
update_band_info get_wiphy_info c m =
    let (asked, fill) = get_wiphy_info m in
    let (bands, (capabilities, features)) =
      fill (c.band_info, (c.scan_capabilities, c.wiphy_features)) in
    (
      record c { band_info = bands; scan_capabilities = capabilities; wiphy_features = features },
      asked,
    )

-- The loop of RefreshAssociateFreq: the last associated result counts.
unfoldable pub associated_freq : ℕ → List NativeScanResult → ℕ
associated_freq freq [] = freq
associated_freq freq (result ∷ results) =
    associated_freq (if result.associated then result.frequency else freq) results

-- RefreshAssociateFreq, from what GetScanResult returns.
unfoldable pub refresh_associate_freq : Option (List NativeScanResult) → Client → Client
unfolding associated_freq
refresh_associate_freq none c = c
refresh_associate_freq (some results) c = record c {
  associate_freq = associated_freq c.associate_freq results;
}

-- The branch of OnConnect, OnRoam and OnAssociate that sets the association.
abbrev pub associate : Option (List NativeScanResult) → Bytes → Client → Client
associate scan bssid c = record (refresh_associate_freq scan (record c { is_associated = true })) {
  bssid = bssid;
}

-- The branch that clears it, which is all of OnDisconnect and OnDisassociate.
abbrev pub dissociate : Client → Client
dissociate c = record c { is_associated = false; bssid = zeros 6 }

-- `!event->IsTimeout() && event->GetStatusCode() == 0`.
abbrev pub succeeded : MlmeEvent → Bool
succeeded event = not event.is_timeout && (event.status_code == 0)

-- The methods of MlmeEventHandlerImpl.
unfoldable pub handle_mlme_event :
    Option (List NativeScanResult) → MlmeKind → MlmeEvent → Client → Client
handle_mlme_event scan on_connect event c =
    if succeeded event then associate scan event.bssid c else dissociate c
handle_mlme_event scan on_roam event c = associate scan event.bssid c
handle_mlme_event scan on_associate event c =
    if succeeded event then associate scan event.bssid c else dissociate c
handle_mlme_event scan on_disconnect event c = dissociate c
handle_mlme_event scan on_disassociate event c = dissociate c

-- OnChannelSwitchEvent: the new state and the result.
unfoldable pub on_channel_switch_event : ℕ → Client → Client × Bool
on_channel_switch_event frequency c =
    if frequency == 0 then (c, false) else (record c { associate_freq = frequency }, true)

-- net/netlink_utils.h: the members of StationInfo that are read here; the rssi is a bit pattern.
pub record StationInfo : Type 0 where
  pub station_tx_packets : ℕ
  pub station_tx_failed : ℕ
  pub station_tx_bitrate : ℕ
  pub current_rssi : ℕ
  pub station_rx_bitrate : ℕ

counters : Option StationInfo → Option (List ℕ)
counters none = none
counters (some info) = some (info.station_tx_packets ∷ info.station_tx_failed ∷ [])

-- GetPacketCounters, from GetStationInfo.
unfoldable pub get_packet_counters : (Bytes → Option StationInfo) → Client → Option (List ℕ)
unfolding counters
get_packet_counters get_station_info c = counters (get_station_info c.bssid)

poll_results : ℕ → Option StationInfo → Option (List ℕ)
poll_results freq none = none
poll_results freq (some info) = some (
    sign_extend info.current_rssi
    ∷ info.station_tx_bitrate / 10
    ∷ freq
    ∷ info.station_rx_bitrate / 10
    ∷ [])

-- SignalPoll, from GetStationInfo.
unfoldable pub signal_poll : (Bytes → Option StationInfo) → Client → Option (List ℕ)
unfolding poll_results
signal_poll get_station_info c =
    if not c.is_associated then none else poll_results c.associate_freq (get_station_info c.bssid)

-- aidl ISendMgmtFrameEvent: a call of a callback, without the elapsed time of OnAck.
pub data FrameEvent : Type 0 where
  on_ack : ℕ → FrameEvent
  on_failure_unknown on_failure_mcs_unsupported on_failure_no_ack : ℕ → FrameEvent

-- SendMgmtFrame once NetlinkUtils::SendMgmtFrame has answered with a cookie or false.
abbrev pub sent_frame : ℕ → Option ℕ → Client → Client × List FrameEvent
sent_frame callback none c = (c, on_failure_unknown callback ∷ [])
sent_frame callback (some cookie) c = (
  record c {
    frame_tx_in_progress = true;
    frame_tx_status_cookie = cookie;
    on_frame_tx_status_event_handler = some callback;
  },
  [],
)

-- SendMgmtFrame; `has_mcs` is `mcs >= 0`.
unfoldable pub send_mgmt_frame : ℕ → Bool → Option ℕ → Client → Client × List FrameEvent
send_mgmt_frame callback has_mcs cookie c =
    if has_mcs && not c.wiphy_features.supports_tx_mgmt_frame_mcs
    then (c, on_failure_mcs_unsupported callback ∷ [])
    else sent_frame callback cookie c

abbrev pub run_handler : Option ℕ → Bool → List FrameEvent
run_handler none was_acked = []
run_handler (some callback) was_acked =
    if was_acked then on_ack callback ∷ [] else on_failure_no_ack callback ∷ []

-- The handler of frame transmission events that the constructor subscribes.
unfoldable pub on_frame_tx_status : ℕ → Bool → Client → Client × List FrameEvent
on_frame_tx_status cookie was_acked c =
    if c.frame_tx_in_progress && (c.frame_tx_status_cookie == cookie)
    then (
      record c {
        frame_tx_in_progress = false;
        frame_tx_status_cookie = 0;
        on_frame_tx_status_event_handler = none;
      },
      run_handler c.on_frame_tx_status_event_handler was_acked,
    )
    else (c, [])
