-- ===== src/Manager/Replies.antt =====
-- SendMessageAndGetResponses and the handlers it leaves; the Subscribe and Unsubscribe functions.
use dumbos_platform_system_c.Base.{
  ℕ, ◌-◌, ◌≡◌, refl, Bool, List, [], ◌∷◌, ◌++◌, arith, Bytes, true, false, Bool-cases, inl, inr,
  none, some, ok, >>=-eq-ok, ==_refl, ◌==◌, if◌then◌else◌, ◌↔◌,
}
use dumbos_platform_system_c.Base.Assoc.{lookup, lookup-erase, lookup-insert}
use dumbos_platform_system_c.Uapi.{nlmsg_error}
use dumbos_platform_system_c.Packet.{get_message_sequence, get_message_type, get_error_code}
use dumbos_platform_system_c.Manager.State.{
  Manager, Topic, handlers_of, subscribe, unsubscribe, scan_result, sched_scan_result, mlme,
  station, reg_domain, channel_switch, frame_tx_status,
}
use dumbos_platform_system_c.Manager.Receive.{Delivery, receive_packet_and_run_handler}
use dumbos_platform_system_c.Manager.Request.{
  Poll, timed_out, poll_error, ready, Reply, appended, give_up, after_wait, keeps_waiting,
  wait_loop, send_message_and_get_responses, single_response_or_error, ack_or_error, is_ack,
}

give_up-forgets :
    (sequence : ℕ) (handlers : List (ℕ × ℕ)) (response : List Bytes) (ds : List Delivery)
    {r : Reply}
    → give_up sequence handlers response ds ≡ ok r
    → lookup sequence r.handlers ≡ none
give_up-forgets sequence handlers response ds e =
    ground (arith, lookup-erase sequence sequence handlers, ==_refl sequence)

after_wait-forgets :
    (sequence time : ℕ) (handlers : List (ℕ × ℕ)) (response : List Bytes) (ds : List Delivery)
    {r : Reply}
    → keeps_waiting sequence time handlers ≡ false
    → after_wait sequence time handlers response ds ≡ ok r
    → lookup sequence r.handlers ≡ none
after_wait-forgets sequence time handlers response ds k e =
    ground (arith, lookup-erase sequence sequence handlers, ==_refl sequence)

wait_loop-forgets :
    (polls : List Poll) (sequence time : ℕ) (handlers : List (ℕ × ℕ)) (response : List Bytes)
    (ds : List Delivery) {r : Reply}
    → wait_loop polls sequence time handlers response ds ≡ ok r
    → lookup sequence r.handlers ≡ none
unfolding wait_loop
wait_loop-forgets [] sequence time handlers response ds e =
    elim (Bool-cases (keeps_waiting sequence time handlers)) [
      | inl k ↦ cc (rw k at e)
      | inr k ↦ after_wait-forgets sequence time handlers response ds k (rw k at e)
    ]
wait_loop-forgets (timed_out ∷ polls) sequence time handlers response ds e =
    elim (Bool-cases (keeps_waiting sequence time handlers)) [
      | inl k ↦ give_up-forgets sequence handlers response ds (rw k at e)
      | inr k ↦ after_wait-forgets sequence time handlers response ds k (rw k at e)
    ]
wait_loop-forgets (poll_error ∷ polls) sequence time handlers response ds e =
    elim (Bool-cases (keeps_waiting sequence time handlers)) [
      | inl k ↦ give_up-forgets sequence handlers response ds (rw k at e)
      | inr k ↦ after_wait-forgets sequence time handlers response ds k (rw k at e)
    ]
wait_loop-forgets (ready buffer len elapsed ∷ polls) sequence time handlers response ds e =
    elim (Bool-cases (keeps_waiting sequence time handlers)) [
      | inl k ↦
          let f = rw k at e in
          let (got, first, later) =
            >>=-eq-ok (receive_packet_and_run_handler buffer len handlers) _ f in
          wait_loop-forgets polls sequence (time - elapsed) got.0 (response ++ appended got.1)
            (ds ++ got.1) later
      | inr k ↦ after_wait-forgets sequence time handlers response ds k (rw k at e)
    ]

-- A subscription is what a lookup of its own topic and index finds; all others stay.
pub lookup-subscribe :
    (topic : Topic) (index handler j : ℕ) (m : Manager)
    → (lookup j (handlers_of topic (subscribe topic index handler m))
        ≡ (if index == j then some handler else lookup j (handlers_of topic m)))
      × (lookup j (handlers_of topic (unsubscribe topic index m))
          ≡ (if index == j then none else lookup j (handlers_of topic m)))
unfolding subscribe unsubscribe
lookup-subscribe scan_result index handler j m =
    (lookup-insert index j handler _, lookup-erase index j _)
lookup-subscribe sched_scan_result index handler j m =
    (lookup-insert index j handler _, lookup-erase index j _)
lookup-subscribe mlme index handler j m = (lookup-insert index j handler _, lookup-erase index j _)
lookup-subscribe station index handler j m =
    (lookup-insert index j handler _, lookup-erase index j _)
lookup-subscribe reg_domain index handler j m =
    (lookup-insert index j handler _, lookup-erase index j _)
lookup-subscribe channel_switch index handler j m =
    (lookup-insert index j handler _, lookup-erase index j _)
lookup-subscribe frame_tx_status index handler j m =
    (lookup-insert index j handler _, lookup-erase index j _)

-- SendMessageAndGetAck is true exactly for one response that is an NLMSG_ERROR message with code 0.
pub ack_iff :
    (done : Bool) (response : List Bytes)
    → (is_ack (ack_or_error (single_response_or_error done response)) ≡ true) ↔ (
        (done ≡ true)
        × (packet : Bytes) × (response ≡ packet ∷ [])
        × (get_message_type packet ≡ nlmsg_error)
        × (get_error_code packet ≡ 0))
unfolding is_ack ack_or_error single_response_or_error
ack_iff false response = (λ e. cc, λ e. cc)
ack_iff true [] = (λ e. cc, λ e. cc)
ack_iff true (packet ∷ []) =
    (λ e. (refl, packet, refl, ground arith, ground arith), λ (d, p, e, t, c). ground arith)
ack_iff true (packet ∷ next ∷ rest) = (λ e. cc, λ e. ground arith)

-- When SendMessageAndGetResponses returns, with or without success, no handler is registered for the
-- sequence number of the request, if none was before; so a later message with that number is dropped.
pub send_message_and_get_responses-forgets :
    (sent : Bool) (polls : List Poll) (packet : Bytes) (handlers : List (ℕ × ℕ)) {r : Reply}
    → lookup (get_message_sequence packet) handlers ≡ none
    → send_message_and_get_responses sent polls packet handlers ≡ ok r
    → lookup (get_message_sequence packet) r.handlers ≡ none
unfolding send_message_and_get_responses
send_message_and_get_responses-forgets false polls packet handlers h e = ground arith
send_message_and_get_responses-forgets true polls packet handlers h e =
    wait_loop-forgets polls (get_message_sequence packet) 4000 _ [] [] e
