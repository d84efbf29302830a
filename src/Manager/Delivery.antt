-- ===== src/Manager/Delivery.antt =====
-- One round of the loop of ReceivePacketAndRunHandler on any bytes.
use dumbos_platform_system_c.Base.{
  ℕ, suc, ◌-◌, ◌<◌, ◌≡◌, ◌≢◌, arith, take, Bytes, true, false, Outcome, hangs, length-take, ◌==◌,
}
use dumbos_platform_system_c.Packet
use dumbos_platform_system_c.Packet.{nlmsg_len, is_multi, get_message_sequence}
use dumbos_platform_system_c.Packet.Fields.{is_valid-room}
use dumbos_platform_system_c.Manager.Receive.{Received, Delivery, deliver}

pub deliver-ne-hangs :
    (d : Delivery) (later : Outcome Received) → later ≢ hangs → deliver d later ≢ hangs
deliver-ne-hangs d later n e = ground arith

-- A message that IsValid accepts takes at least its header off the datagram.
pub left_shorter :
    (fuel : ℕ) (buffer : Bytes) (len : ℕ)
    → len < suc fuel
    → (len == 0) ≡ false
    → Packet.is_valid (take (nlmsg_len buffer) buffer) ≡ true
    → len - nlmsg_len buffer < fuel
left_shorter fuel buffer len h z v =
    let r = is_valid-room (take (nlmsg_len buffer) buffer) v in
    let b = r.0 in
    let w = r.1 in
    let t = length-take (nlmsg_len buffer) buffer in
    let nz : len ≢ 0 = λ e. ground arith in omega (arith, b, w, t, nz)
