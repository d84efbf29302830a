-- ===== src/Manager/Order.antt =====
-- ReceivePacketAndRunHandler on datagrams that hold well-formed messages, for handlers that leave the
-- manager alone.
use dumbos_platform_system_c.Base.{
  ℕ, suc, ◌+◌, ◌-◌, ◌≤◌, ◌<◌, ◌≡◌, ◌≢◌, refl, ap, ◌∙◌, List, [], ◌∷◌, ◌++◌, arith, length, Bytes,
  true, some, Outcome, ok, take-append, drop-append, length-append, append_assoc, ltb-false, ==_ne,
}
use dumbos_platform_system_c.Base.Assoc.{lookup, erase}
use dumbos_platform_system_c.Uapi.{nlmsg_noop, nlmsg_done, nlmsg_overrun}
use dumbos_platform_system_c.Attribute.Layout.{Attr}
use dumbos_platform_system_c.Packet
use dumbos_platform_system_c.Packet.{nlmsg_len, is_multi, get_message_type, get_message_sequence}
use dumbos_platform_system_c.Packet.Layout.{Header, encode_packet}
use dumbos_platform_system_c.Packet.Fields.{
  FitsHeader, is_valid-encode, is_valid-room, getters-encode,
}
use dumbos_platform_system_c.Manager.State.{broadcast_sequence_number}
use dumbos_platform_system_c.Manager.Receive.{
  Received, Delivery, broadcast, handled, deliver, dispatch, receive_loop,
  receive_packet_and_run_handler,
}

-- Where a message goes that does not end its sequence.
pub data Routes (handlers : List (ℕ × ℕ)) (h : Header) (l : List Attr) : Delivery → Type 0 where
  to_all :
      h.sequence ≡ broadcast_sequence_number → Routes handlers h l (broadcast (encode_packet h l))
  to_handler :
      (n : ℕ)
      → h.sequence ≢ broadcast_sequence_number
      → lookup h.sequence handlers ≡ some n
      → h.type ≢ nlmsg_done
      → h.type ≢ nlmsg_noop
      → h.type ≢ nlmsg_overrun
      → is_multi (encode_packet h l) ≡ true
      → Routes handlers h l (handled n (encode_packet h l))

dispatch-Routes :
    (handlers : List (ℕ × ℕ)) (h : Header) (l : List Attr) (d : Delivery)
    (later : List (ℕ × ℕ) → Outcome Received)
    → FitsHeader h
    → Routes handlers h l d
    → dispatch (encode_packet h l) handlers later ≡ deliver d (later handlers)
dispatch-Routes handlers h l d later f (to_all e) = rw ((getters-encode h l f).2, e) refl
dispatch-Routes handlers h l d later f (to_handler n e found nd nn nv multi) =
    rw
      (
        (getters-encode h l f).2,
        ==_ne _ _ e,
        found,
        (getters-encode h l f).0,
        ==_ne _ _ nd,
        ==_ne _ _ nn,
        ==_ne _ _ nv,
        multi,
      )
      refl

-- The loop at a message that is all there.
pub loop_front :
    (fuel : ℕ) (packet tail : Bytes) (len : ℕ) (handlers : List (ℕ × ℕ))
    → Packet.is_valid packet ≡ true
    → nlmsg_len (packet ++ tail) ≡ length packet
    → receive_loop (suc fuel) (packet ++ tail) (length packet + len) handlers
      ≡ dispatch packet handlers (receive_loop fuel tail len)
unfolding receive_loop
loop_front fuel packet tail len handlers v n =
    let room = is_valid-room packet v in
    let size = length-append packet tail in
    rw
      (
        n,
        take-append (length packet) packet tail refl,
        drop-append (length packet) packet tail refl,
        v,
        ltb-false (length packet + len) 16 (omega (arith, room.0, room.1)),
        ltb-false (length (packet ++ tail)) (length packet) (omega (arith, size)),
        ==_ne (length packet + len) 0 (omega (arith, room.0, room.1)),
        left,
      )
      refl
  where
    left : length packet + len - length packet ≡ len
    left = omega arith

loop_first :
    (fuel : ℕ) (h : Header) (l : List Attr) (tail : Bytes) (len : ℕ) (handlers : List (ℕ × ℕ))
    → FitsHeader h
    → length (encode_packet h l) < 4294967296
    → receive_loop
        (suc fuel)
        (encode_packet h l ++ tail)
        (length (encode_packet h l) + len)
        handlers
      ≡ dispatch (encode_packet h l) handlers (receive_loop fuel tail len)
loop_first fuel h l tail len handlers f lt =
    loop_front fuel (encode_packet h l) tail len handlers (is_valid-encode h l f (omega arith))
      stated
  where
    stated : nlmsg_len (encode_packet h l ++ tail) ≡ length (encode_packet h l)
    stated = omega arith

-- Packets of one datagram, one after the other.
pub record Part : Type 0 where
  pub header : Header
  pub attributes : List Attr

abbrev pub datagram : List Part → Bytes
datagram [] = []
datagram (p ∷ ps) = encode_packet p.header p.attributes ++ datagram ps

-- Each packet fits its fields and has its delivery.
abbrev pub AllRoute : List (ℕ × ℕ) → List Part → List Delivery → Type 0
AllRoute handlers [] [] = Unit
AllRoute handlers [] (d ∷ ds) = ⊥
AllRoute handlers (p ∷ ps) [] = ⊥
AllRoute handlers (p ∷ ps) (d ∷ ds) =
    FitsHeader p.header
    × (length (encode_packet p.header p.attributes) < 4294967296)
    × Routes handlers p.header p.attributes d
    × AllRoute handlers ps ds

deliver_all : List Delivery → Outcome Received → Outcome Received
deliver_all [] later = later
deliver_all (d ∷ ds) later = deliver d (deliver_all ds later)

loop-datagram :
    (ps : List Part) (ds : List Delivery) (fuel : ℕ) (tail : Bytes) (len : ℕ)
    (handlers : List (ℕ × ℕ))
    → AllRoute handlers ps ds
    → receive_loop (length ps + fuel) (datagram ps ++ tail) (length (datagram ps) + len) handlers
      ≡ deliver_all ds (receive_loop fuel tail len handlers)
unfolding deliver_all
loop-datagram [] [] fuel tail len handlers r =
    let more : 0 + fuel ≡ fuel = omega arith in
    let same : 0 + len ≡ len = omega arith in
    ap (λ k. receive_loop k tail (0 + len) handlers) more
    ∙ ap (λ k. receive_loop fuel tail k handlers) same
loop-datagram [] (d ∷ ds) fuel tail len handlers r = elim r [ ]
loop-datagram (p ∷ ps) [] fuel tail len handlers r = elim r [ ]
loop-datagram (p ∷ ps) (d ∷ ds) fuel tail len handlers (f, lt, route, r) =
    let packet = encode_packet p.header p.attributes in
    let size : length (packet ++ datagram ps) + len ≡ length packet + (length (datagram ps) + len) =
      omega (arith, length-append packet (datagram ps)) in
    let rounds : suc (length ps) + fuel ≡ suc (length ps + fuel) = omega arith in
    rw (size, append_assoc packet (datagram ps) tail, rounds)
      (loop_first (length ps + fuel) p.header p.attributes (datagram ps ++ tail)
          (length (datagram ps) + len) handlers f lt
        ∙ dispatch-Routes handlers p.header p.attributes d
            (receive_loop (length ps + fuel) (datagram ps ++ tail) (length (datagram ps) + len)) f
            route
        ∙ ap (deliver d) (loop-datagram ps ds fuel tail len handlers r))

deliver_all-ok :
    (ds : List Delivery) (handlers : List (ℕ × ℕ))
    → deliver_all ds (ok (handlers, [])) ≡ ok (handlers, ds)
unfolding deliver_all
deliver_all-ok [] handlers = refl
deliver_all-ok (d ∷ ds) handlers = rw (deliver_all-ok ds handlers) refl

length-datagram : (ps : List Part) → length ps ≤ length (datagram ps)
length-datagram [] = omega arith
length-datagram (p ∷ ps) =
    omega
      (arith, length-datagram ps, length-append (encode_packet p.header p.attributes) (datagram ps))

pub call-loop :
    (buffer : Bytes) (len : ℕ) (handlers : List (ℕ × ℕ))
    → receive_packet_and_run_handler buffer (some len) handlers
      ≡ receive_loop (suc len) buffer len handlers
unfolding receive_packet_and_run_handler receive_loop
call-loop buffer len handlers = ground arith

pub loop-empty :
    (fuel : ℕ) (buffer : Bytes) (handlers : List (ℕ × ℕ))
    → receive_loop (suc fuel) buffer 0 handlers ≡ ok (handlers, [])
unfolding receive_loop
loop-empty fuel buffer handlers = refl

-- A datagram of multicast messages and of parts of dumps: every message reaches its handler, in the order
-- of the datagram, and the handlers stay registered. What stands in the buffer behind the datagram does
-- not matter.
pub receive-datagram :
    (ps : List Part) (ds : List Delivery) (junk : Bytes) (handlers : List (ℕ × ℕ))
    → AllRoute handlers ps ds
    → receive_packet_and_run_handler (datagram ps ++ junk) (some (length (datagram ps))) handlers
      ≡ ok (handlers, ds)
receive-datagram ps ds junk handlers r =
    let n = length (datagram ps) in
    let fuel : suc n ≡ length ps + suc (n - length ps) = omega (arith, length-datagram ps) in
    let none_left : n ≡ n + 0 = omega arith in
    call-loop (datagram ps ++ junk) n handlers
    ∙ ap (λ k. receive_loop k (datagram ps ++ junk) n handlers) fuel
    ∙ ap (λ k. receive_loop (length ps + suc (n - length ps)) (datagram ps ++ junk) k handlers)
        none_left
    ∙ loop-datagram ps ds (suc (n - length ps)) junk 0 handlers r
    ∙ ap (deliver_all ds) (loop-empty (n - length ps) junk handlers)
    ∙ deliver_all-ok ds handlers

-- NLMSG_DONE ends the datagram and unregisters its handler.
loop-done :
    (fuel : ℕ) (last : Header) (n : ℕ) (junk : Bytes) (handlers : List (ℕ × ℕ))
    → FitsHeader last
    → last.type ≡ nlmsg_done
    → last.sequence ≢ broadcast_sequence_number
    → lookup last.sequence handlers ≡ some n
    → receive_loop
        (suc fuel)
        (encode_packet last [] ++ junk)
        (length (encode_packet last []) + 0)
        handlers
      ≡ ok (erase last.sequence handlers, [])
loop-done fuel last n junk handlers f t e found =
    loop_first fuel last [] junk 0 handlers f (omega arith)
    ∙ rw ((getters-encode last [] f).2, ==_ne _ _ e, found, (getters-encode last [] f).0, t) refl

-- A datagram that NLMSG_DONE ends: the messages before it reach their handlers in order, and the handler
-- of the finished sequence, and no other, is unregistered.
pub receive-datagram_done :
    (ps : List Part) (ds : List Delivery) (last : Header) (n : ℕ) (junk : Bytes)
    (handlers : List (ℕ × ℕ))
    → AllRoute handlers ps ds
    → FitsHeader last
    → last.type ≡ nlmsg_done
    → last.sequence ≢ broadcast_sequence_number
    → lookup last.sequence handlers ≡ some n
    → receive_packet_and_run_handler
        (datagram ps ++ (encode_packet last [] ++ junk))
        (some (length (datagram ps) + length (encode_packet last [])))
        handlers
      ≡ ok (erase last.sequence handlers, ds)
receive-datagram_done ps ds last n junk handlers r f t e found =
    let len = length (datagram ps) + length (encode_packet last []) in
    let bytes = datagram ps ++ (encode_packet last [] ++ junk) in
    let fuel : suc len ≡ length ps + suc (len - length ps) = omega (arith, length-datagram ps) in
    let none_left : len ≡ length (datagram ps) + (length (encode_packet last []) + 0) =
      omega arith in
    call-loop bytes len handlers
    ∙ ap (λ k. receive_loop k bytes len handlers) fuel
    ∙ ap (λ k. receive_loop (length ps + suc (len - length ps)) bytes k handlers) none_left
    ∙ loop-datagram ps ds (suc (len - length ps)) (encode_packet last [] ++ junk) _ handlers r
    ∙ ap (deliver_all ds) (loop-done (len - length ps) last n junk handlers f t e found)
    ∙ deliver_all-ok ds (erase last.sequence handlers)
