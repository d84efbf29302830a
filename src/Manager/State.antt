-- ===== src/Manager/State.antt =====
-- The members of NetlinkManager, sequence numbers, and the Subscribe and Unsubscribe functions.
use dumbos_platform_system_c.Base.{ℕ, ◌+◌, ◌==◌, if◌then◌else◌, List, u32}
use dumbos_platform_system_c.Base.Assoc.{insert, erase}

-- `message_handlers_` maps sequence numbers to handlers; the others map interface or wiphy indices.
pub record Manager : Type 0 where
  pub sequence_number : ℕ
  pub message_handlers : List (ℕ × ℕ)
  pub family_id : ℕ
  pub on_scan_result_ready_handler : List (ℕ × ℕ)
  pub on_sched_scan_result_ready_handler : List (ℕ × ℕ)
  pub on_mlme_event_handler : List (ℕ × ℕ)
  pub on_station_event_handler : List (ℕ × ℕ)
  pub on_reg_domain_changed_handler : List (ℕ × ℕ)
  pub on_channel_switch_event_handler : List (ℕ × ℕ)
  pub on_frame_tx_status_event_handler : List (ℕ × ℕ)

-- kBroadcastSequenceNumber.
abbrev pub broadcast_sequence_number : ℕ
broadcast_sequence_number = 0

-- GetSequenceNumber: the new state and the number; the counter is a uint32_t.
unfoldable pub get_sequence_number : Manager → Manager × ℕ
get_sequence_number m =
    let next = u32 (m.sequence_number + 1) in
    let number = if next == broadcast_sequence_number then u32 (next + 1) else next in
    (record m { sequence_number = number }, number)

-- The kinds of subscription.
pub data Topic : Type 0 where
  scan_result sched_scan_result mlme station reg_domain channel_switch frame_tx_status : Topic

abbrev pub handlers_of : Topic → Manager → List (ℕ × ℕ)
handlers_of scan_result m = m.on_scan_result_ready_handler
handlers_of sched_scan_result m = m.on_sched_scan_result_ready_handler
handlers_of mlme m = m.on_mlme_event_handler
handlers_of station m = m.on_station_event_handler
handlers_of reg_domain m = m.on_reg_domain_changed_handler
handlers_of channel_switch m = m.on_channel_switch_event_handler
handlers_of frame_tx_status m = m.on_frame_tx_status_event_handler

abbrev pub set_handlers : Topic → List (ℕ × ℕ) → Manager → Manager
set_handlers scan_result h m = record m { on_scan_result_ready_handler = h }
set_handlers sched_scan_result h m = record m { on_sched_scan_result_ready_handler = h }
set_handlers mlme h m = record m { on_mlme_event_handler = h }
set_handlers station h m = record m { on_station_event_handler = h }
set_handlers reg_domain h m = record m { on_reg_domain_changed_handler = h }
set_handlers channel_switch h m = record m { on_channel_switch_event_handler = h }
set_handlers frame_tx_status h m = record m { on_frame_tx_status_event_handler = h }

-- SubscribeStationEvent and its siblings: `map[index] = handler`.
unfoldable pub subscribe : Topic → ℕ → ℕ → Manager → Manager
subscribe topic index handler m = set_handlers topic (insert index handler (handlers_of topic m)) m

-- UnsubscribeStationEvent and its siblings: `map.erase(index)`.
unfoldable pub unsubscribe : Topic → ℕ → Manager → Manager
unsubscribe topic index m = set_handlers topic (erase index (handlers_of topic m)) m
