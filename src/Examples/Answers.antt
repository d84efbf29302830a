-- ===== src/Examples/Answers.antt =====
-- Concrete answers of the kernel: a dump, a station, and a split dump of a radio.
use dumbos_platform_system_c.Base.{
  ℕ, ◌+◌, ◌≡◌, refl, arith, List, [], ◌∷◌, ◌++◌, Bytes, ok, true, false, some, none, length, map,
}
use dumbos_platform_system_c.Nl80211
use dumbos_platform_system_c.Attribute.Layout.{Attr}
use dumbos_platform_system_c.Attribute.Nested.{nested}
use dumbos_platform_system_c.Packet
use dumbos_platform_system_c.Packet.{get_message_sequence, is_multi}
use dumbos_platform_system_c.Packet.Layout.{Header, encode_packet}
use dumbos_platform_system_c.Manager.{
  Manager, get_sequence_number, handled, append_packet, ready, send_message_and_get_responses,
}
use dumbos_platform_system_c.Manager.Answers.{IsAnswer, IsEnd}
use dumbos_platform_system_c.Manager.Answered.{IsReady, answering}
use dumbos_platform_system_c.Manager.Dumps.{
  Batch, joined, polls_of, dump_reply, send_message_and_get_responses-dump,
}
use dumbos_platform_system_c.Client.{StationInfo}
use dumbos_platform_system_c.Requests.Built.{word}
use dumbos_platform_system_c.Utils.{get_station_info}
use dumbos_platform_system_c.Utils.Split.{merge_packets_for_split_wiphy_dump}
use dumbos_platform_system_c.Utils.Merged.{Contents, Piece, PiecesRoom, piece_bytes, join_pieces}
use dumbos_platform_system_c.Utils.Packets.{PacketsFit, merged_packet, content_of, collect_pieces}
use dumbos_platform_system_c.Utils.Whole.{
  NoneTwice, is_there, described, merge_packets_for_split_wiphy_dump-joins,
}
use dumbos_platform_system_c.Base.Assoc.{lookup}
use dumbos_platform_system_c.Utils.Stations.{
  absent, given, Describes, TellsStation, get_station_info-answered,
}

abbrev dump_part : Bytes
dump_part = encode_packet (record { type = 20; flags = 2; sequence = 7; pid = 0; command = 34 }) []

abbrev dump_end : Bytes
dump_end = encode_packet (record { type = 3; flags = 2; sequence = 7; pid = 0; command = 0 }) []

dump_part-IsAnswer : IsAnswer 7 dump_part
unfolding Packet.is_valid
dump_part-IsAnswer = record {
  valid = refl;
  exact = refl;
  sequence = refl;
  ne_done = λ e. omega arith;
  ne_noop = λ e. omega arith;
  ne_overrun = λ e. omega arith;
}

part_multi : is_multi dump_part ≡ true
unfolding is_multi
part_multi = refl

dump_end-IsEnd : IsEnd 7 dump_end
unfolding Packet.is_valid
dump_end-IsEnd = record { valid = refl; exact = refl; sequence = refl; done = refl }

abbrev first_batch : Batch
first_batch = record { parts = dump_part ∷ dump_part ∷ []; junk = []; elapsed = 5 }

abbrev last_batch : Batch
last_batch = record { parts = dump_part ∷ []; junk = 1 ∷ []; elapsed = 7 }

send_message_and_get_responses-dump_example :
    send_message_and_get_responses true
      (polls_of (first_batch ∷ []) (
        ready
          (joined last_batch.parts ++ (dump_end ++ last_batch.junk))
          (some (length (joined last_batch.parts) + length dump_end))
          7
        ∷ []))
      dump_part
      ((8, 6) ∷ [])
    ≡ ok (dump_reply 7 ((8, 6) ∷ []) (dump_part ∷ dump_part ∷ dump_part ∷ []))
send_message_and_get_responses-dump_example =
    send_message_and_get_responses-dump dump_part (first_batch ∷ []) last_batch dump_end []
      ((8, 6) ∷ []) (λ e. omega arith)
      ((dump_part-IsAnswer, part_multi, (dump_part-IsAnswer, part_multi, tt)), tt)
      (dump_part-IsAnswer, part_multi, tt) dump_end-IsEnd (omega arith)

abbrev manager : Manager
manager = record {
  sequence_number = 41;
  message_handlers = (9, 4) ∷ [];
  family_id = 20;
  on_scan_result_ready_handler = [];
  on_sched_scan_result_ready_handler = [];
  on_mlme_event_handler = [];
  on_station_event_handler = [];
  on_reg_domain_changed_handler = [];
  on_channel_switch_event_handler = [];
  on_frame_tx_status_event_handler = [];
}

manager-IsReady : IsReady manager
unfolding get_sequence_number
manager-IsReady = record { counter_fits = omega arith; family_fits = omega arith; free = refl }

abbrev station_header : Header
station_header = record { type = 20; flags = 0; sequence = 42; pid = 400; command = 19 }

abbrev station_rate : List Attr
station_rate = word Nl80211.rate_info_bitrate32 8667 ∷ []

abbrev station : List Attr
station =
    word Nl80211.sta_info_tx_packets 120
    ∷ word Nl80211.sta_info_tx_failed 2
    ∷ (record { id = Nl80211.sta_info_signal; content = 196 ∷ [] })
    ∷ nested Nl80211.sta_info_tx_bitrate station_rate
    ∷ []

abbrev station_info : StationInfo
station_info = record {
  station_tx_packets = 120;
  station_tx_failed = 2;
  station_tx_bitrate = 8667;
  current_rssi = 196;
  station_rx_bitrate = 0;
}

abbrev station_attributes : List Attr
station_attributes = nested Nl80211.attr_sta_info station ∷ []

station-Describes : Describes station station_info
station-Describes = record {
  fit = omega arith;
  packets = refl;
  failed = refl;
  signal = refl;
  tx = given station_rate refl (omega arith) refl (omega arith);
  rx = absent refl refl;
  packets_fit = omega arith;
  failed_fit = omega arith;
  rssi_fits = omega arith;
}

station-TellsStation : TellsStation station_header station_attributes station station_info
station-TellsStation = record {
  header_fits = record {
    type_fits = omega arith;
    flags_fit = omega arith;
    sequence_fits = omega arith;
    pid_fits = omega arith;
    command_fits = omega arith;
  };
  type = λ e. omega arith;
  command = refl;
  fit = omega arith;
  station = refl;
  describes = station-Describes;
}

station-IsAnswer :
    IsAnswer (get_sequence_number manager).1 (encode_packet station_header station_attributes)
unfolding get_sequence_number Packet.is_valid
station-IsAnswer = record {
  valid = refl;
  exact = refl;
  sequence = refl;
  ne_done = λ e. omega arith;
  ne_noop = λ e. omega arith;
  ne_overrun = λ e. omega arith;
}

station_alone : is_multi (encode_packet station_header station_attributes) ≡ false
unfolding is_multi
station_alone = refl

get_station_info-answered_example :
    get_station_info
      (answering (encode_packet station_header station_attributes) [] 3 [])
      400
      5
      (2 ∷ 0 ∷ 0 ∷ 0 ∷ 0 ∷ 1 ∷ [])
      manager
    ≡ ok (record {
      after = (get_sequence_number manager).0;
      seen = handled append_packet (encode_packet station_header station_attributes) ∷ [];
      value = some station_info;
    })
get_station_info-answered_example =
    get_station_info-answered manager 400 5 (2 ∷ 0 ∷ 0 ∷ 0 ∷ 0 ∷ 1 ∷ []) station_header
      station_attributes station station_info [] 3 [] manager-IsReady (omega arith) refl
      station-TellsStation station-IsAnswer station_alone (omega arith)

abbrev piece : Bytes → Piece
piece content = record {
  header = record { type = 20; flags = 2; sequence = 7; pid = 0; command = 3 };
  wiphy = 0;
  attributes =
      word Nl80211.attr_wiphy 0
      ∷ (record { id = Nl80211.attr_wiphy_bands; content = content })
      ∷ [];
}

abbrev pieces : List Piece
pieces = piece (0x12 ∷ 0x34 ∷ []) ∷ piece (0x56 ∷ 0x78 ∷ []) ∷ []

pieces-PiecesRoom : PiecesRoom pieces []
unfolding join_pieces
pieces-PiecesRoom =
    (omega arith, omega arith, refl, omega arith, (omega arith, omega arith, refl, omega arith, tt))

pieces-PacketsFit : PacketsFit (join_pieces pieces [])
unfolding join_pieces
pieces-PacketsFit = omega arith

merge_packets_for_split_wiphy_dump-joins_example :
    (m : List (ℕ × Contents)) × (merge_packets_for_split_wiphy_dump (map piece_bytes pieces)
      ≡ ok (map merged_packet m))
    × NoneTwice m
    × ((w : ℕ) → is_there (lookup w m) ≡ described w pieces)
    × ((w id : ℕ) → content_of w id m ≡ collect_pieces w id pieces none)
merge_packets_for_split_wiphy_dump-joins_example =
    merge_packets_for_split_wiphy_dump-joins pieces pieces-PiecesRoom pieces-PacketsFit
