-- ===== src/Examples/Messages.antt =====
-- Concrete exchanges of messages.
use dumbos_platform_system_c.Base.{
  ℕ, ◌≡◌, ◌≢◌, ◌↔◌, ◌+◌, refl, arith, List, [], ◌∷◌, ◌++◌, Bytes, ok, hangs, true, false, length,
  some, none,
}
use dumbos_platform_system_c.Base.Assoc.{lookup}
use dumbos_platform_system_c.Uapi.{nlmsg_error}
use dumbos_platform_system_c.Packet.{
  get_message_sequence, get_message_type, get_error_code, is_multi,
}
use dumbos_platform_system_c.Packet.Layout.{Header, encode_packet}
use dumbos_platform_system_c.Packet.Fields.{FitsHeader}
use dumbos_platform_system_c.Manager.State.{Manager}
use dumbos_platform_system_c.Manager.Receive.{
  Delivery, broadcast, handled, receive_packet_and_run_handler,
}
use dumbos_platform_system_c.Manager.Request.{
  timed_out, Reply, wait_loop, send_message_and_get_responses, is_ack, ack_or_error,
  single_response_or_error,
}
use dumbos_platform_system_c.Manager.Sequence.{after_calls, get_sequence_number_unique}
use dumbos_platform_system_c.Manager.Running.{Run, run_datagram}
use dumbos_platform_system_c.Manager.Quiet.{run_datagram-datagram}
use dumbos_platform_system_c.Manager.Returns.{run_datagram-ne-hangs}
use dumbos_platform_system_c.Manager.Order.{
  to_all, to_handler, Part, datagram, AllRoute, receive-datagram_done,
}
use dumbos_platform_system_c.Manager.Replies.{send_message_and_get_responses-forgets, ack_iff}

abbrev multicast : Header
multicast = record { type = 20; flags = 0; sequence = 0; pid = 0; command = 34 }

abbrev dump_part : Header
dump_part = record { type = 20; flags = 2; sequence = 7; pid = 0; command = 34 }

abbrev dump_end : Header
dump_end = record { type = 3; flags = 2; sequence = 7; pid = 0; command = 0 }

abbrev parts : List Part
parts =
    record { header = multicast; attributes = [] }
    ∷ record { header = dump_part; attributes = [] }
    ∷ []

abbrev deliveries : List Delivery
deliveries = broadcast (encode_packet multicast []) ∷ handled 5 (encode_packet dump_part []) ∷ []

abbrev registered : List (ℕ × ℕ)
registered = (7, 5) ∷ (8, 6) ∷ []

multicast_fits : FitsHeader multicast
multicast_fits = record {
  type_fits = omega arith;
  flags_fit = omega arith;
  sequence_fits = omega arith;
  pid_fits = omega arith;
  command_fits = omega arith;
}

dump_part_fits : FitsHeader dump_part
dump_part_fits = record {
  type_fits = omega arith;
  flags_fit = omega arith;
  sequence_fits = omega arith;
  pid_fits = omega arith;
  command_fits = omega arith;
}

dump_end_fits : FitsHeader dump_end
dump_end_fits = record {
  type_fits = omega arith;
  flags_fit = omega arith;
  sequence_fits = omega arith;
  pid_fits = omega arith;
  command_fits = omega arith;
}

parts_route : AllRoute registered parts deliveries
parts_route = (
  multicast_fits,
  omega arith,
  to_all refl,
  (
    dump_part_fits,
    omega arith,
    to_handler 5 (λ e. omega arith) refl (λ e. omega arith) (λ e. omega arith) (λ e. omega arith)
        (unfold is_multi in refl),
    tt,
  ),
)

abbrev quiet : Run
quiet d handlers = ok (handlers, λ buffer. buffer)

run_datagram-datagram_example :
    run_datagram quiet (datagram parts ++ (1 ∷ 2 ∷ [])) (some (length (datagram parts))) registered
    ≡ ok (registered, deliveries)
run_datagram-datagram_example =
    run_datagram-datagram quiet parts deliveries (1 ∷ 2 ∷ []) registered (λ d handlers. refl)
      parts_route

receive-datagram_done_example :
    receive_packet_and_run_handler
      (datagram parts ++ (encode_packet dump_end [] ++ []))
      (some (length (datagram parts) + length (encode_packet dump_end [])))
      registered
    ≡ ok ((8, 6) ∷ [], deliveries)
receive-datagram_done_example =
    receive-datagram_done parts deliveries dump_end 5 [] registered parts_route dump_end_fits refl
      (λ e. omega arith) refl

-- It forgets the handlers and leaves nothing of the buffer.
abbrev rude : Run
rude d handlers = ok ([], λ buffer. [])

rude-Returns : (d : Delivery) (handlers : List (ℕ × ℕ)) → rude d handlers ≢ hangs
rude-Returns d handlers e = cc

run_datagram-ne-hangs_example :
    run_datagram rude (datagram parts) (some (length (datagram parts))) registered ≢ hangs
run_datagram-ne-hangs_example =
    run_datagram-ne-hangs rude (datagram parts) (some (length (datagram parts))) registered
      rude-Returns

abbrev timed_out_reply : Reply
timed_out_reply = record { done = false; handlers = (8, 6) ∷ []; response = []; deliveries = [] }

times_out :
    send_message_and_get_responses true (timed_out ∷ []) (encode_packet dump_part []) ((8, 6) ∷ [])
    ≡ ok timed_out_reply
unfolding send_message_and_get_responses wait_loop
times_out = refl

send_message_and_get_responses-forgets_example :
    lookup (get_message_sequence (encode_packet dump_part [])) timed_out_reply.handlers ≡ none
send_message_and_get_responses-forgets_example =
    send_message_and_get_responses-forgets true (timed_out ∷ []) (encode_packet dump_part [])
      ((8, 6) ∷ []) refl times_out

abbrev manager : Manager
manager = record {
  sequence_number = 4294967295;
  message_handlers = [];
  family_id = 20;
  on_scan_result_ready_handler = (3, 1) ∷ [];
  on_sched_scan_result_ready_handler = [];
  on_mlme_event_handler = [];
  on_station_event_handler = [];
  on_reg_domain_changed_handler = [];
  on_channel_switch_event_handler = [];
  on_frame_tx_status_event_handler = [];
}

abbrev ack : Bytes
ack = 20 ∷ 0 ∷ 0 ∷ 0 ∷ 2 ∷ 0 ∷ 0 ∷ 0 ∷ 7 ∷ 0 ∷ 0 ∷ 0 ∷ 0 ∷ 0 ∷ 0 ∷ 0 ∷ 0 ∷ 0 ∷ 0 ∷ 0 ∷ []

ack_iff_example : (is_ack (ack_or_error (single_response_or_error true (ack ∷ []))) ≡ true) ↔ (
    (true ≡ true)
    × (packet : Bytes) × (ack ∷ [] ≡ packet ∷ [])
    × (get_message_type packet ≡ nlmsg_error)
    × (get_error_code packet ≡ 0))
ack_iff_example = ack_iff true (ack ∷ [])

get_sequence_number_unique_example :
    (after_calls 1 manager).sequence_number ≢ (after_calls (1 + 2) manager).sequence_number
get_sequence_number_unique_example =
    get_sequence_number_unique 1 2 manager (omega arith) (omega arith) (omega arith) (omega arith)
