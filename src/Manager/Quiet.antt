-- ===== src/Manager/Quiet.antt =====
-- ReceivePacketAndRunHandler with handlers that leave the manager alone.
use dumbos_platform_system_c.Base.{
  ℕ, zero, suc, ◌-◌, ◌≡◌, refl, ap, ◌∙◌, not, List, [], ◌++◌, Option, none, some, ◌==◌, ltb,
  if◌then◌else◌, length, take, drop, Bytes, ok, faults,
}
use mathlib.Core.Path.{fun_ext}
use dumbos_platform_system_c.Base.Assoc.{lookup}
use dumbos_platform_system_c.Packet
use dumbos_platform_system_c.Packet.{nlmsg_len, get_message_type, get_message_sequence, is_multi}
use dumbos_platform_system_c.Manager.Receive.{
  Delivery, broadcast, handled, find_handler, dispatch, receive_loop,
  receive_packet_and_run_handler,
}
use dumbos_platform_system_c.Manager.Order.{Part, datagram, AllRoute, receive-datagram}
use dumbos_platform_system_c.Manager.Running.{
  Run, Later, run_found, run_dispatch, run_loop, run_datagram,
}

-- Handlers that return and do not call the manager, as AppendPacket.
abbrev pub IsQuiet : Run → Type 0
IsQuiet run = (d : Delivery) (handlers : List (ℕ × ℕ)) → run d handlers ≡ ok (handlers, λ b. b)

found-IsQuiet :
    (run : Run) (sequence : ℕ) (found : Option ℕ) (packet : Bytes) (handlers : List (ℕ × ℕ))
    (later : Later)
    → IsQuiet run
    → run_found run sequence found packet handlers later
      ≡ find_handler sequence found packet handlers (λ h. later h (λ b. b))
found-IsQuiet run sequence none packet handlers later q = refl
found-IsQuiet run sequence (some h) packet handlers later q =
    rw (q (handled h packet) handlers) refl

dispatch-IsQuiet :
    (run : Run) (packet : Bytes) (handlers : List (ℕ × ℕ)) (later : Later)
    → IsQuiet run
    → run_dispatch run packet handlers later ≡ dispatch packet handlers (λ h. later h (λ b. b))
dispatch-IsQuiet run packet handlers later q =
    rw
      (
        q (broadcast packet) handlers,
        found-IsQuiet run (get_message_sequence packet)
            (lookup (get_message_sequence packet) handlers) packet handlers later q,
      )
      refl

loop-IsQuiet :
    (run : Run) (fuel : ℕ) (buffer : Bytes) (len : ℕ) (handlers : List (ℕ × ℕ))
    → IsQuiet run
    → run_loop run fuel buffer len handlers ≡ receive_loop fuel buffer len handlers
unfolding run_loop receive_loop
loop-IsQuiet run zero buffer len handlers q = refl
loop-IsQuiet run (suc fuel) buffer len handlers q =
    let packet = take (nlmsg_len buffer) buffer in
    let rest = drop (nlmsg_len buffer) buffer in
    let later : Later =
      λ h overwrite. run_loop run fuel (overwrite rest) (len - nlmsg_len buffer) h in
    let same =
      dispatch-IsQuiet run packet handlers later q
      ∙ ap (dispatch packet handlers)
          (fun_ext (λ h. loop-IsQuiet run fuel rest (len - nlmsg_len buffer) h q)) in
    ap
      (λ o.
        if len == 0
        then ok (handlers, [])
        else if ltb len 16
        then ok (handlers, [])
        else if ltb (length buffer) (nlmsg_len buffer)
        then faults
        else if not (Packet.is_valid packet)
        then ok (handlers, [])
        else o)
      same

datagram-IsQuiet :
    (run : Run) (buffer : Bytes) (len : Option ℕ) (handlers : List (ℕ × ℕ))
    → IsQuiet run
    → run_datagram run buffer len handlers ≡ receive_packet_and_run_handler buffer len handlers
unfolding run_datagram receive_packet_and_run_handler
datagram-IsQuiet run buffer none handlers q = refl
datagram-IsQuiet run buffer (some len) handlers q =
    ap (λ o. if len == 0 then ok (handlers, []) else o)
      (loop-IsQuiet run (suc len) buffer len handlers q)

-- A datagram of multicast messages and of parts of dumps, with handlers that return and do not call the
-- manager: every message reaches its handler, in the order of the datagram, and the handlers stay
-- registered. What stands in the buffer behind the datagram does not matter.
pub run_datagram-datagram :
    (run : Run) (ps : List Part) (ds : List Delivery) (junk : Bytes) (handlers : List (ℕ × ℕ))
    → IsQuiet run
    → AllRoute handlers ps ds
    → run_datagram run (datagram ps ++ junk) (some (length (datagram ps))) handlers
      ≡ ok (handlers, ds)
run_datagram-datagram run ps ds junk handlers q r =
    datagram-IsQuiet run _ _ handlers q ∙ receive-datagram ps ds junk handlers r
