-- ===== src/Manager/Returns.antt =====
-- ReceivePacketAndRunHandler with handlers that end, whatever else they do.
use dumbos_platform_system_c.Base.{
  ℕ, zero, suc, ◌-◌, ◌<◌, ◌≢◌, refl, not, List, Option, none, some, ◌==◌, if◌then◌else◌, arith,
  take, drop, Bytes, Bool-cases, inl, inr, Outcome, ok, fails, hangs, faults, ◌>>=◌,
}
use dumbos_platform_system_c.Base.Assoc.{lookup, erase}
use dumbos_platform_system_c.Packet
use dumbos_platform_system_c.Packet.{nlmsg_len, get_message_type, get_message_sequence, is_multi}
use dumbos_platform_system_c.Manager.State.{broadcast_sequence_number}
use dumbos_platform_system_c.Manager.Receive.{Delivery, broadcast, handled, deliver}
use dumbos_platform_system_c.Manager.Delivery.{left_shorter, deliver-ne-hangs}
use dumbos_platform_system_c.Manager.Running.{
  Run, Later, run_then, run_found, run_dispatch, run_loop, run_datagram,
}

-- Handlers that do not loop for ever; what they do to the handlers and to ReceiveBuffer is open.
abbrev pub Returns : Run → Type 0
Returns run = (d : Delivery) (handlers : List (ℕ × ℕ)) → run d handlers ≢ hangs

then-ne-hangs :
    (run : Run) (d : Delivery) (handlers : List (ℕ × ℕ)) (later : Later)
    → Returns run
    → ((h : List (ℕ × ℕ)) (overwrite : Bytes → Bytes) → later h overwrite ≢ hangs)
    → run_then run d handlers later ≢ hangs
then-ne-hangs run d handlers later r n = after (run d handlers) (r d handlers)
  where
    after :
        (o : Outcome (List (ℕ × ℕ) × (Bytes → Bytes)))
        → o ≢ hangs
        → (o >>= λ r. deliver d (later r.0 r.1)) ≢ hangs
    after (ok (h, overwrite)) ne = deliver-ne-hangs d (later h overwrite) (n h overwrite)
    after fails ne = λ e. cc
    after hangs ne = λ e. ne refl
    after faults ne = λ e. cc

dispatch-ne-hangs :
    (run : Run) (packet : Bytes) (handlers : List (ℕ × ℕ)) (later : Later)
    → Returns run
    → ((h : List (ℕ × ℕ)) (overwrite : Bytes → Bytes) → later h overwrite ≢ hangs)
    → run_dispatch run packet handlers later ≢ hangs
dispatch-ne-hangs run packet handlers later r n e =
    elim (Bool-cases (get_message_sequence packet == broadcast_sequence_number)) [
      | inl b ↦ then-ne-hangs run (broadcast packet) handlers later r n (rw b at e)
      | inr b ↦ found (lookup (get_message_sequence packet) handlers) (rw b at e)
    ]
  where
    found :
        (o : Option ℕ) → run_found run (get_message_sequence packet) o packet handlers later ≢ hangs
    found none k = cc
    found (some h) k =
        let ran =
          then-ne-hangs run (handled h packet) handlers
            (λ left overwrite.
              later
                (if not (is_multi packet) then erase (get_message_sequence packet) left else left)
                overwrite)
            r (λ left overwrite. n _ overwrite) in
        ground (arith, ran)

loop-ne-hangs :
    (run : Run) (fuel : ℕ) (buffer : Bytes) (len : ℕ) (handlers : List (ℕ × ℕ))
    → Returns run
    → len < fuel
    → run_loop run fuel buffer len handlers ≢ hangs
unfolding run_loop
loop-ne-hangs run zero buffer len handlers r h e = absurd (omega arith)
loop-ne-hangs run (suc fuel) buffer len handlers r h e = elim (Bool-cases (len == 0)) [
  | inl z ↦ ground arith
  | inr z ↦ elim (Bool-cases (Packet.is_valid (take (nlmsg_len buffer) buffer))) [
    | inl v ↦
        let shorter = left_shorter fuel buffer len h z v in
        let one =
          dispatch-ne-hangs run (take (nlmsg_len buffer) buffer) handlers
            (λ left overwrite.
              run_loop run fuel (overwrite (drop (nlmsg_len buffer) buffer))
                (len - nlmsg_len buffer) left)
            r
            (λ left overwrite.
              loop-ne-hangs run fuel (overwrite (drop (nlmsg_len buffer) buffer))
                (len - nlmsg_len buffer) left r shorter) in
        ground (arith, one)
    | inr v ↦ ground arith
  ]
]

-- Whatever a datagram holds, if no handler loops for ever, whatever else the handlers do to the map of
-- handlers and to the buffer, the call of ReceivePacketAndRunHandler ends: it returns, or it or a handler
-- goes wrong, as by a read outside the buffer.
pub run_datagram-ne-hangs :
    (run : Run) (buffer : Bytes) (len : Option ℕ) (handlers : List (ℕ × ℕ))
    → Returns run
    → run_datagram run buffer len handlers ≢ hangs
unfolding run_datagram
run_datagram-ne-hangs run buffer none handlers r e = cc
run_datagram-ne-hangs run buffer (some len) handlers r e =
    ground (arith, loop-ne-hangs run (suc len) buffer len handlers r (omega arith))
