-- ===== src/Manager/Calls.antt =====
-- One synchronous exchange with the kernel, as the callers of NetlinkManager see it: a request that is
-- built with GetFamilyId and GetSequenceNumber, its answers, and the state of the manager afterwards.
use dumbos_platform_system_c.Base.{
  ℕ, Bool, true, false, List, Option, Bytes, Outcome, ok, ◌>>=◌, attempt, ◌++◌,
}
use dumbos_platform_system_c.Packet.{new_packet}
use dumbos_platform_system_c.Manager.State.{Manager, get_sequence_number}
use dumbos_platform_system_c.Manager.Receive.{Delivery}
use dumbos_platform_system_c.Manager.Request.{
  Poll, send_message_and_get_responses, single_response_or_error, single_response, ack_or_error,
}

-- The numbers of a request: GetFamilyId, GetSequenceNumber and getpid.
pub record Origin : Type 0 where
  pub family_id : ℕ
  pub sequence : ℕ
  pub pid : ℕ

-- `NL80211Packet(GetFamilyId(), command, GetSequenceNumber(), getpid())`.
abbrev pub request : Origin → ℕ → Bytes
request o command = new_packet o.family_id command o.sequence o.pid

-- They come from the manager's state; the counter moves on.
abbrev pub origin : Manager → ℕ → Origin
origin m pid = record { family_id = m.family_id; sequence = (get_sequence_number m).1; pid = pid }

-- What the environment does: whether sendto() succeeds, and what each poll() answers. With the interceptor
-- of netlink on, SendMessageInternal ends the process where sendto() fails; here the interceptor is off.
pub record Exchange : Type 0 where
  pub sent : Bool
  pub polls : List Poll

-- What SendMessageAndGetResponses leaves: its result and the responses, which stand in the caller's
-- vector whether it succeeds or not.
pub record Sent : Type 0 where
  pub manager : Manager
  pub done : Bool
  pub response : List Bytes
  pub deliveries : List Delivery

-- The result of a call: `none` where it returns false.
pub record Called {ℓ} (A : Type ℓ) : Type ℓ where
  pub after : Manager
  pub seen : List Delivery
  pub value : Option A

-- SendMessageAndGetResponses on the state of the manager.
unfoldable pub exchange : Exchange → Bytes → Manager → Outcome Sent
exchange e packet m =
    send_message_and_get_responses e.sent e.polls packet m.message_handlers >>= λ reply.
    ok (record {
      manager = record m { message_handlers = reply.handlers };
      done = reply.done;
      response = reply.response;
      deliveries = reply.deliveries;
    })

-- SendMessageAndGetSingleResponse and SendMessageAndGetAckOrError, from what was received.
abbrev pub single : Sent → Option Bytes
single s = single_response (single_response_or_error s.done s.response)

abbrev pub ack_or_error_code : Sent → Option ℕ
ack_or_error_code s = ack_or_error (single_response_or_error s.done s.response)

-- The caller reads the answer and returns.
abbrev pub conclude {ℓ} : {A : Type ℓ} → Sent → Outcome A → Outcome (Called A)
conclude s result =
    attempt result >>= λ v. ok (record { after = s.manager; seen = s.deliveries; value = v })

-- The second attempt after a failed first one, with the same packet: the responses of both stand in
-- the vector (kNl80211CmdRetryCount is 1).
abbrev pub both_attempts : Sent → Sent → Sent
both_attempts first second = record second {
  response = first.response ++ second.response;
  deliveries = first.deliveries ++ second.deliveries;
}

unfoldable pub exchange_with_retry : Exchange → Exchange → Bytes → Manager → Outcome Sent
unfolding exchange
exchange_with_retry e retry packet m = exchange e packet m >>= λ first. elim first.done [
  | true ↦ ok first
  | false ↦ (exchange retry packet first.manager >>= λ second. ok (both_attempts first second))
]
