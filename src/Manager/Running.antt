-- ===== src/Manager/Running.antt =====
-- ReceivePacketAndRunHandler with handlers that run inside the loop: they may not return, and they may
-- send requests of their own, which change the handlers and overwrite ReceiveBuffer.
use dumbos_platform_system_c.Base.{
  ℕ, zero, suc, ◌-◌, not, ◌||◌, List, [], Option, none, some, ◌==◌, ltb, if◌then◌else◌, length,
  take, drop, Bytes, Outcome, ok, hangs, faults, ◌>>=◌,
}
use dumbos_platform_system_c.Base.Assoc.{lookup, erase}
use dumbos_platform_system_c.Uapi.{nlmsg_noop, nlmsg_done, nlmsg_overrun}
use dumbos_platform_system_c.Packet
use dumbos_platform_system_c.Packet.{nlmsg_len, get_message_type, get_message_sequence, is_multi}
use dumbos_platform_system_c.Manager.State.{broadcast_sequence_number}
use dumbos_platform_system_c.Manager.Receive.{Delivery, broadcast, handled, Received, deliver}

-- What a handler does with its packet: the handlers that are then registered, and how it overwrites what is
-- left of ReceiveBuffer.
abbrev pub Run : Type 0
Run = Delivery → List (ℕ × ℕ) → Outcome (List (ℕ × ℕ) × (Bytes → Bytes))

-- The loop after a handler has run.
abbrev pub Later : Type 0
Later = List (ℕ × ℕ) → (Bytes → Bytes) → Outcome Received

abbrev pub run_then : Run → Delivery → List (ℕ × ℕ) → Later → Outcome Received
run_then run d handlers later = run d handlers >>= λ r. deliver d (later r.0 r.1)

-- A message whose sequence number has the handler `h`.
abbrev pub run_unicast : Run → ℕ → ℕ → Bytes → List (ℕ × ℕ) → Later → Outcome Received
run_unicast run sequence h packet handlers later =
    let message_type = get_message_type packet in
    if (message_type == nlmsg_done) || (message_type == nlmsg_noop)
    then ok (erase sequence handlers, [])
    else if message_type == nlmsg_overrun
    then ok (erase sequence handlers, [])
    else run_then run (handled h packet) handlers (λ left overwrite.
      later (if not (is_multi packet) then erase sequence left else left) overwrite)

abbrev pub run_found : Run → ℕ → Option ℕ → Bytes → List (ℕ × ℕ) → Later → Outcome Received
run_found run sequence none packet handlers later = ok (handlers, [])
run_found run sequence (some h) packet handlers later =
    run_unicast run sequence h packet handlers later

abbrev pub run_dispatch : Run → Bytes → List (ℕ × ℕ) → Later → Outcome Received
run_dispatch run packet handlers later =
    let sequence = get_message_sequence packet in
    if sequence == broadcast_sequence_number
    then run_then run (broadcast packet) handlers later
    else run_found run sequence (lookup sequence handlers) packet handlers later

-- The loop; `ptr` moves on before a handler runs.
unfoldable pub run_loop : Run → ℕ → Bytes → ℕ → List (ℕ × ℕ) → Outcome Received
run_loop run zero buffer len handlers = hangs
run_loop run (suc fuel) buffer len handlers =
    let later = λ (h : List (ℕ × ℕ)) (overwrite : Bytes → Bytes).
      run_loop run fuel (overwrite (drop (nlmsg_len buffer) buffer)) (len - nlmsg_len buffer) h in
    let packet = take (nlmsg_len buffer) buffer in
    if len == 0
    then ok (handlers, [])
    else if ltb len 16
    then ok (handlers, [])
    else if ltb (length buffer) (nlmsg_len buffer)
    then faults
    else if not (Packet.is_valid packet)
    then ok (handlers, [])
    else run_dispatch run packet handlers later

-- ReceivePacketAndRunHandler.
unfoldable pub run_datagram : Run → Bytes → Option ℕ → List (ℕ × ℕ) → Outcome Received
run_datagram run buffer none handlers = ok (handlers, [])
run_datagram run buffer (some len) handlers =
    if len == 0 then ok (handlers, []) else run_loop run (suc len) buffer len handlers
