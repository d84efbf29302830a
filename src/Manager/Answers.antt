-- ===== src/Manager/Answers.antt =====
-- Exchanges in which the kernel answers in time: SendMessageAndGetResponses returns all the answers.
use dumbos_platform_system_c.Base.{
  ℕ, suc, ◌+◌, ◌-◌, ◌<◌, ◌≡◌, ◌≢◌, refl, ap, ◌∙◌, List, [], ◌∷◌, ◌++◌, arith, length, Bytes, true,
  false, Option, none, some, Outcome, ok, ==_ne, ==_refl, read_uint-append,
}
use dumbos_platform_system_c.Base.Assoc.{lookup, insert, erase, lookup-insert, lookup-erase}
use dumbos_platform_system_c.Uapi.{nlmsg_noop, nlmsg_done, nlmsg_overrun}
use dumbos_platform_system_c.Packet
use dumbos_platform_system_c.Packet.{nlmsg_len, is_multi, get_message_type, get_message_sequence}
use dumbos_platform_system_c.Packet.Fields.{is_valid-room}
use dumbos_platform_system_c.Manager.State.{broadcast_sequence_number}
use dumbos_platform_system_c.Manager.Receive.{
  Received, Delivery, handled, deliver, dispatch, receive_loop, receive_packet_and_run_handler,
}
use dumbos_platform_system_c.Manager.Request.{
  Poll, timed_out, poll_error, ready, append_packet, appended, wait_loop,
  send_message_and_get_responses,
}
use dumbos_platform_system_c.Manager.Order.{loop_front, loop-empty, call-loop}

-- A message that answers the request with sequence number `s`: IsValid accepts it, its stated length is
-- its length, and its type does not end the exchange.
pub record IsAnswer (s : ℕ) (reply : Bytes) : Type 0 where
  pub valid : Packet.is_valid reply ≡ true
  pub exact : nlmsg_len reply ≡ length reply
  pub sequence : get_message_sequence reply ≡ s
  pub ne_done : get_message_type reply ≢ nlmsg_done
  pub ne_noop : get_message_type reply ≢ nlmsg_noop
  pub ne_overrun : get_message_type reply ≢ nlmsg_overrun

-- NLMSG_DONE for that request.
pub record IsEnd (s : ℕ) (last : Bytes) : Type 0 where
  pub valid : Packet.is_valid last ≡ true
  pub exact : nlmsg_len last ≡ length last
  pub sequence : get_message_sequence last ≡ s
  pub done : get_message_type last ≡ nlmsg_done

pub stated :
    (packet tail : Bytes)
    → Packet.is_valid packet ≡ true
    → nlmsg_len packet ≡ length packet
    → nlmsg_len (packet ++ tail) ≡ length packet
stated packet tail v e =
    let room = is_valid-room packet v in
    read_uint-append 4 packet tail (omega (arith, room.0, room.1)) ∙ e

module _ (s : ℕ) (unicast : s ≢ broadcast_sequence_number) (handlers : List (ℕ × ℕ))
    (registered : lookup s handlers ≡ some append_packet) (reply : Bytes)
    (answer : IsAnswer s reply) where
  -- The handler AppendPacket gets the answer.
  pub dispatch-multi :
      (later : List (ℕ × ℕ) → Outcome Received)
      → is_multi reply ≡ true
      → dispatch reply handlers later ≡ deliver (handled append_packet reply) (later handlers)
  dispatch-multi later m =
      rw
        (
          answer.sequence,
          ==_ne _ _ unicast,
          registered,
          ==_ne _ _ answer.ne_done,
          ==_ne _ _ answer.ne_noop,
          ==_ne _ _ answer.ne_overrun,
          m,
        )
        refl

  -- An answer that is no part of a dump ends the exchange.
  dispatch-single :
      (later : List (ℕ × ℕ) → Outcome Received)
      → is_multi reply ≡ false
      → dispatch reply handlers later
        ≡ deliver (handled append_packet reply) (later (erase s handlers))
  dispatch-single later m =
      rw
        (
          answer.sequence,
          ==_ne _ _ unicast,
          registered,
          ==_ne _ _ answer.ne_done,
          ==_ne _ _ answer.ne_noop,
          ==_ne _ _ answer.ne_overrun,
          m,
        )
        refl

  receive-single :
      (junk : Bytes)
      → is_multi reply ≡ false
      → receive_packet_and_run_handler (reply ++ junk) (some (length reply)) handlers
        ≡ ok (erase s handlers, handled append_packet reply ∷ [])
  receive-single junk m =
      let room = is_valid-room reply answer.valid in
      let none_left : length reply ≡ length reply + 0 = omega arith in
      let n = length reply in
      let more : n ≡ suc (n - 1) = omega (arith, room.0, room.1) in
      call-loop (reply ++ junk) n handlers
      ∙ ap (λ k. receive_loop (suc n) (reply ++ junk) k handlers) none_left
      ∙ loop_front n reply junk 0 handlers answer.valid
          (stated reply junk answer.valid answer.exact)
      ∙ dispatch-single (receive_loop n junk 0) m
      ∙ ap (λ k. deliver (handled append_packet reply) (receive_loop k junk 0 (erase s handlers)))
          more
      ∙ ap (deliver (handled append_packet reply)) (loop-empty (n - 1) junk (erase s handlers))

pub lookup_own : (s h : ℕ) (handlers : List (ℕ × ℕ)) → lookup s (insert s h handlers) ≡ some h
lookup_own s h handlers = rw (lookup-insert s s h handlers, ==_refl s) refl

pub lookup_gone : (s : ℕ) (handlers : List (ℕ × ℕ)) → lookup s (erase s handlers) ≡ none
lookup_gone s handlers = rw (lookup-erase s s handlers, ==_refl s) refl

-- The handler is gone and some time is left.
pub wait_over :
    (polls : List Poll) (s time : ℕ) (handlers : List (ℕ × ℕ)) (response : List Bytes)
    (ds : List Delivery)
    → lookup s handlers ≡ none
    → 0 < time
    → wait_loop polls s time handlers response ds
      ≡ ok (record { done = true; handlers = handlers; response = response; deliveries = ds })
unfolding wait_loop
wait_over [] s time handlers response ds g t = rw (g, ==_ne time 0 (omega arith)) refl
wait_over (timed_out ∷ polls) s time handlers response ds g t =
    rw (g, ==_ne time 0 (omega arith)) refl
wait_over (poll_error ∷ polls) s time handlers response ds g t =
    rw (g, ==_ne time 0 (omega arith)) refl
wait_over (ready buffer len elapsed ∷ polls) s time handlers response ds g t =
    rw (g, ==_ne time 0 (omega arith)) refl

-- One round of the loop.
pub wait_round :
    (buffer : Bytes) (len : Option ℕ) (elapsed : ℕ) (polls : List Poll) (s time : ℕ)
    (handlers : List (ℕ × ℕ)) (response : List Bytes) (ds : List Delivery) (h : ℕ) (r : Received)
    → lookup s handlers ≡ some h
    → 0 < time
    → receive_packet_and_run_handler buffer len handlers ≡ ok r
    → wait_loop (ready buffer len elapsed ∷ polls) s time handlers response ds
      ≡ wait_loop polls s (time - elapsed) r.0 (response ++ appended r.1) (ds ++ r.1)
unfolding wait_loop
wait_round buffer len elapsed polls s time handlers response ds h r l t e =
    rw (l, ==_ne time 0 (omega arith), e) refl

-- A request whose answer is one message that is no part of a dump, in the first datagram, before 4000
-- milliseconds have passed: SendMessageAndGetResponses succeeds with that message alone, and its handler
-- is gone.
pub send_message_and_get_responses-answered :
    (packet reply junk : Bytes) (elapsed : ℕ) (polls : List Poll) (handlers : List (ℕ × ℕ))
    → get_message_sequence packet ≢ broadcast_sequence_number
    → IsAnswer (get_message_sequence packet) reply
    → is_multi reply ≡ false
    → elapsed < 4000
    → send_message_and_get_responses true
        (ready (reply ++ junk) (some (length reply)) elapsed ∷ polls)
        packet
        handlers
      ≡ ok (record {
        done = true;
        handlers =
            erase
              (get_message_sequence packet)
              (insert (get_message_sequence packet) append_packet handlers);
        response = reply ∷ [];
        deliveries = handled append_packet reply ∷ [];
      })
unfolding send_message_and_get_responses
send_message_and_get_responses-answered packet reply junk elapsed polls handlers u a m t =
    let s = get_message_sequence packet in
    let registered = insert s append_packet handlers in
    let own = lookup_own s append_packet handlers in
    wait_round (reply ++ junk) (some (length reply)) elapsed polls s 4000 registered [] [] _ _ own
      (omega arith) (receive-single s u registered own reply a junk m)
    ∙ wait_over polls s (4000 - elapsed) (erase s registered) _ _ (lookup_gone s registered)
        (omega arith)
