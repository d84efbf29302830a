-- ===== src/Manager/Request.antt =====
-- SendMessageAndGetResponses and the functions that look at the responses.
use dumbos_platform_system_c.Base.{
  ℕ, ◌-◌, Bool, true, false, not, ◌&&◌, List, [], ◌∷◌, ◌++◌, Option, none, some, ◌==◌,
  if◌then◌else◌, Bytes, Outcome, ok, hangs, ◌>>=◌,
}
use dumbos_platform_system_c.Base.Assoc.{lookup, insert, erase}
use dumbos_platform_system_c.Uapi.{nlmsg_error}
use dumbos_platform_system_c.Packet.{
  get_message_type, get_message_sequence, get_error_code, is_dump,
}
use dumbos_platform_system_c.Manager.Receive.{
  Delivery, broadcast, handled, receive_packet_and_run_handler,
}

-- The handler AppendPacket, bound to the vector of the call that waits.
abbrev pub append_packet : ℕ
append_packet = 0

-- What poll() answers, with the datagram that is then read and the time that passed.
pub data Poll : Type 0 where
  timed_out : Poll
  poll_error : Poll
  ready : Bytes → Option ℕ → ℕ → Poll

-- The packets that AppendPacket gets.
abbrev pub appended : List Delivery → List Bytes
appended [] = []
appended (broadcast packet ∷ ds) = appended ds
appended (handled h packet ∷ ds) =
    let rest = appended ds in if h == append_packet then packet ∷ rest else rest

pub record Reply : Type 0 where
  pub done : Bool
  pub handlers : List (ℕ × ℕ)
  pub response : List Bytes
  pub deliveries : List Delivery

abbrev pub give_up : ℕ → List (ℕ × ℕ) → List Bytes → List Delivery → Outcome Reply
give_up sequence handlers response ds = ok (record {
  done = false;
  handlers = erase sequence handlers;
  response = response;
  deliveries = ds;
})

abbrev pub is_registered : Option ℕ → Bool
is_registered none = false
is_registered (some h) = true

-- The test of the `while` loop fails: the time is over, or the handler is gone.
abbrev pub after_wait : ℕ → ℕ → List (ℕ × ℕ) → List Bytes → List Delivery → Outcome Reply
after_wait sequence time_remaining handlers response ds =
    if time_remaining == 0
    then give_up sequence handlers response ds
    else ok (record { done = true; handlers = handlers; response = response; deliveries = ds })

abbrev pub keeps_waiting : ℕ → ℕ → List (ℕ × ℕ) → Bool
keeps_waiting sequence time_remaining handlers =
    not (time_remaining == 0) && is_registered (lookup sequence handlers)

-- The `while` loop. The polls are given as a list: it ends early only if the environment stops
-- answering. `time_remaining` stops at 0, where the source goes below it.
unfoldable pub wait_loop :
    List Poll → ℕ → ℕ → List (ℕ × ℕ) → List Bytes → List Delivery → Outcome Reply
wait_loop [] sequence time handlers response ds =
    if keeps_waiting sequence time handlers
    then hangs
    else after_wait sequence time handlers response ds
wait_loop (timed_out ∷ polls) sequence time handlers response ds =
    if keeps_waiting sequence time handlers
    then give_up sequence handlers response ds
    else after_wait sequence time handlers response ds
wait_loop (poll_error ∷ polls) sequence time handlers response ds =
    if keeps_waiting sequence time handlers
    then give_up sequence handlers response ds
    else after_wait sequence time handlers response ds
wait_loop (ready buffer len elapsed ∷ polls) sequence time handlers response ds =
    let received = receive_packet_and_run_handler buffer len handlers in
    if keeps_waiting sequence time handlers
    then (received >>= λ r.
        wait_loop polls sequence (time - elapsed) r.0 (response ++ appended r.1) (ds ++ r.1))
    else after_wait sequence time handlers response ds

-- SendMessageAndGetResponses: `sent` is what SendMessageInternal returns, and
-- kMaximumNetlinkMessageWaitMilliSeconds is 4000.
unfoldable pub send_message_and_get_responses :
    Bool → List Poll → Bytes → List (ℕ × ℕ) → Outcome Reply
send_message_and_get_responses sent polls packet handlers =
    if not sent
    then ok (record { done = false; handlers = handlers; response = []; deliveries = [] })
    else wait_loop polls (get_message_sequence packet) 4000
        (insert (get_message_sequence packet) append_packet handlers) [] []

-- RegisterHandlerAndSendMessage: the new handlers and the result.
unfoldable pub register_handler_and_send_message :
    Bool → Bytes → ℕ → List (ℕ × ℕ) → List (ℕ × ℕ) × Bool
register_handler_and_send_message sent packet handler handlers =
    if is_dump packet
    then (handlers, false)
    else if not sent
    then (handlers, false)
    else (insert (get_message_sequence packet) handler handlers, true)

-- SendMessageAndGetSingleResponseOrError, from what SendMessageAndGetResponses returns.
unfoldable pub single_response_or_error : Bool → List Bytes → Option Bytes
single_response_or_error false response = none
single_response_or_error true [] = none
single_response_or_error true (packet ∷ []) = some packet
single_response_or_error true (packet ∷ next ∷ rest) = none

-- SendMessageAndGetSingleResponse.
unfoldable pub single_response : Option Bytes → Option Bytes
single_response none = none
single_response (some packet) = if get_message_type packet == nlmsg_error then none else some packet

-- SendMessageAndGetAckOrError: the error code.
unfoldable pub ack_or_error : Option Bytes → Option ℕ
ack_or_error none = none
ack_or_error (some packet) =
    if not (get_message_type packet == nlmsg_error) then none else some (get_error_code packet)

-- SendMessageAndGetAck.
unfoldable pub is_ack : Option ℕ → Bool
is_ack none = false
is_ack (some error_code) = if not (error_code == 0) then false else true
