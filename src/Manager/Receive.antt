-- ===== src/Manager/Receive.antt =====
-- ReceivePacketAndRunHandler: the messages of one datagram, for handlers that leave the manager alone.
use dumbos_platform_system_c.Base.{
  ℕ, zero, suc, ◌-◌, not, ◌||◌, List, [], ◌∷◌, Option, none, some, ◌==◌, ltb, if◌then◌else◌, length,
  take, drop, Bytes, Outcome, ok, hangs, faults, ◌>>=◌,
}
use dumbos_platform_system_c.Base.Assoc.{lookup, erase}
use dumbos_platform_system_c.Uapi.{nlmsg_noop, nlmsg_done, nlmsg_overrun}
use dumbos_platform_system_c.Packet
use dumbos_platform_system_c.Packet.{nlmsg_len, get_message_type, get_message_sequence, is_multi}
use dumbos_platform_system_c.Manager.State.{broadcast_sequence_number}

-- A packet given to BroadcastHandler, or to the handler of its sequence number.
pub data Delivery : Type 0 where
  broadcast : Bytes → Delivery
  handled : ℕ → Bytes → Delivery

-- The handlers that are left, and the deliveries in order.
abbrev pub Received : Type 0
Received = List (ℕ × ℕ) × List Delivery

abbrev pub deliver : Delivery → Outcome Received → Outcome Received
deliver d later = later >>= λ r. ok (r.0, d ∷ r.1)

-- A message whose sequence number has the handler `h`; `later` goes on with the handlers given.
abbrev pub unicast :
    ℕ → ℕ → Bytes → List (ℕ × ℕ) → (List (ℕ × ℕ) → Outcome Received) → Outcome Received
unicast sequence h packet handlers later =
    let message_type = get_message_type packet in
    if (message_type == nlmsg_done) || (message_type == nlmsg_noop)
    then ok (erase sequence handlers, [])
    else if message_type == nlmsg_overrun
    then ok (erase sequence handlers, [])
    else deliver (handled h packet)
        (later (if not (is_multi packet) then erase sequence handlers else handlers))

abbrev pub find_handler :
    ℕ → Option ℕ → Bytes → List (ℕ × ℕ) → (List (ℕ × ℕ) → Outcome Received) → Outcome Received
find_handler sequence none packet handlers later = ok (handlers, [])
find_handler sequence (some h) packet handlers later = unicast sequence h packet handlers later

-- A valid packet.
abbrev pub dispatch : Bytes → List (ℕ × ℕ) → (List (ℕ × ℕ) → Outcome Received) → Outcome Received
dispatch packet handlers later =
    let sequence = get_message_sequence packet in
    if sequence == broadcast_sequence_number
    then deliver (broadcast packet) (later handlers)
    else find_handler sequence (lookup sequence handlers) packet handlers later

-- The loop: `buffer` is ReceiveBuffer from `ptr` on, `len` what is left of the datagram. A message that
-- states more bytes than ReceiveBuffer has is read past the end of the array. The calls of handlers are
-- recorded: this is the loop for handlers that leave the manager alone, as AppendPacket (Running lets
-- handlers run inside the loop).
unfoldable pub receive_loop : ℕ → Bytes → ℕ → List (ℕ × ℕ) → Outcome Received
receive_loop zero buffer len handlers = hangs
receive_loop (suc fuel) buffer len handlers =
    let later = λ (h : List (ℕ × ℕ)).
      receive_loop fuel (drop (nlmsg_len buffer) buffer) (len - nlmsg_len buffer) h in
    let packet = take (nlmsg_len buffer) buffer in
    if len == 0
    then ok (handlers, [])
    else if ltb len 16
    then ok (handlers, [])
    else if ltb (length buffer) (nlmsg_len buffer)
    then faults
    else if not (Packet.is_valid packet)
    then ok (handlers, [])
    else dispatch packet handlers later

-- ReceivePacketAndRunHandler, from what read() returns: `none` is an error.
unfoldable pub receive_packet_and_run_handler : Bytes → Option ℕ → List (ℕ × ℕ) → Outcome Received
receive_packet_and_run_handler buffer none handlers = ok (handlers, [])
receive_packet_and_run_handler buffer (some len) handlers =
    if len == 0 then ok (handlers, []) else receive_loop (suc len) buffer len handlers
