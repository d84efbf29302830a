-- ===== src/Manager/Dumps.antt =====
-- Dumps: the answers to a request come as parts in several datagrams, and NLMSG_DONE ends them.
use dumbos_platform_system_c.Base.{
  ℕ, suc, ◌+◌, ◌-◌, ◌≤◌, ◌<◌, ◌≡◌, ◌≢◌, refl, ap, sym, ◌∙◌, List, [], ◌∷◌, ◌++◌, arith, length, map,
  Bytes, true, some, Outcome, ok, append-nil, append_assoc, length-append, ==_ne,
}
use mathlib.Core.List.{map-append}
use dumbos_platform_system_c.Base.Assoc.{lookup, insert, erase}
use dumbos_platform_system_c.Packet.{is_multi, get_message_sequence}
use dumbos_platform_system_c.Packet.Fields.{is_valid-room}
use dumbos_platform_system_c.Manager.State.{broadcast_sequence_number}
use dumbos_platform_system_c.Manager.Receive.{
  Received, Delivery, handled, deliver, dispatch, receive_loop, receive_packet_and_run_handler,
}
use dumbos_platform_system_c.Manager.Request.{
  Poll, ready, Reply, append_packet, appended, wait_loop, send_message_and_get_responses,
}
use dumbos_platform_system_c.Manager.Order.{loop_front, loop-empty, call-loop}
use dumbos_platform_system_c.Manager.Answers.{
  IsAnswer, IsEnd, stated, dispatch-multi, lookup_own, lookup_gone, wait_over, wait_round,
}

abbrev pub joined : List Bytes → Bytes
joined [] = []
joined (r ∷ rs) = r ++ joined rs

-- Messages that are parts of the dump that the request `s` asked for.
abbrev pub AllParts : ℕ → List Bytes → Type 0
AllParts s [] = Unit
AllParts s (r ∷ rs) = IsAnswer s r × (is_multi r ≡ true) × AllParts s rs

-- A datagram of such parts, the rest of the buffer, and the milliseconds until it is read.
pub record Batch : Type 0 where
  pub parts : List Bytes
  pub junk : Bytes
  pub elapsed : ℕ

abbrev pub AllBatches : ℕ → List Batch → Type 0
AllBatches s [] = Unit
AllBatches s (b ∷ bs) = AllParts s b.parts × AllBatches s bs

abbrev pub all_parts : List Batch → List Bytes
all_parts [] = []
all_parts (b ∷ bs) = b.parts ++ all_parts bs

abbrev pub all_elapsed : List Batch → ℕ
all_elapsed [] = 0
all_elapsed (b ∷ bs) = b.elapsed + all_elapsed bs

-- What poll() answers: the batches, and what follows.
abbrev pub polls_of : List Batch → List Poll → List Poll
polls_of [] polls = polls
polls_of (b ∷ bs) polls =
    ready (joined b.parts ++ b.junk) (some (length (joined b.parts))) b.elapsed ∷ polls_of bs polls

abbrev pub handled_all : List Bytes → List Delivery
handled_all rs = map (handled append_packet) rs

deliver_parts : List Bytes → Outcome Received → Outcome Received
deliver_parts [] later = later
deliver_parts (r ∷ rs) later = deliver (handled append_packet r) (deliver_parts rs later)

deliver_parts-ok :
    (rs : List Bytes) (handlers : List (ℕ × ℕ))
    → deliver_parts rs (ok (handlers, [])) ≡ ok (handlers, handled_all rs)
unfolding deliver_parts
deliver_parts-ok [] handlers = refl
deliver_parts-ok (r ∷ rs) handlers = rw (deliver_parts-ok rs handlers) refl

appended-handled_all : (rs : List Bytes) → appended (handled_all rs) ≡ rs
appended-handled_all [] = refl
appended-handled_all (r ∷ rs) = ap (◌∷◌ r) (appended-handled_all rs)

length-joined : (s : ℕ) (rs : List Bytes) → AllParts s rs → length rs ≤ length (joined rs)
length-joined s [] p = omega arith
length-joined s (r ∷ rs) p =
    let room = is_valid-room r p.0.valid in
    omega (arith, length-joined s rs p.2, length-append r (joined rs), room.0, room.1)

module _ (s : ℕ) (unicast : s ≢ broadcast_sequence_number) (handlers : List (ℕ × ℕ))
    (registered : lookup s handlers ≡ some append_packet) where
  loop-parts :
      (rs : List Bytes) (fuel : ℕ) (tail : Bytes) (len : ℕ)
      → AllParts s rs
      → receive_loop (length rs + fuel) (joined rs ++ tail) (length (joined rs) + len) handlers
        ≡ deliver_parts rs (receive_loop fuel tail len handlers)
  unfolding deliver_parts
  loop-parts [] fuel tail len p =
      let more : 0 + fuel ≡ fuel = omega arith in
      let same : 0 + len ≡ len = omega arith in
      ap (λ k. receive_loop k tail (0 + len) handlers) more
      ∙ ap (λ k. receive_loop fuel tail k handlers) same
  loop-parts (r ∷ rs) fuel tail len p =
      let size : length (r ++ joined rs) + len ≡ length r + (length (joined rs) + len) =
        omega (arith, length-append r (joined rs)) in
      let rounds : suc (length rs) + fuel ≡ suc (length rs + fuel) = omega arith in
      rw (size, append_assoc r (joined rs) tail, rounds)
        (loop_front (length rs + fuel) r (joined rs ++ tail) (length (joined rs) + len) handlers
            p.0.valid (stated r (joined rs ++ tail) p.0.valid p.0.exact)
          ∙ dispatch-multi s unicast handlers registered r p.0
              (receive_loop (length rs + fuel) (joined rs ++ tail) (length (joined rs) + len)) p.1
          ∙ ap (deliver (handled append_packet r)) (loop-parts rs fuel tail len p.2))

  receive-parts :
      (rs : List Bytes) (junk : Bytes)
      → AllParts s rs
      → receive_packet_and_run_handler (joined rs ++ junk) (some (length (joined rs))) handlers
        ≡ ok (handlers, handled_all rs)
  receive-parts rs junk p =
      let n = length (joined rs) in
      let fuel : suc n ≡ length rs + suc (n - length rs) = omega (arith, length-joined s rs p) in
      let none_left : n ≡ n + 0 = omega arith in
      call-loop (joined rs ++ junk) n handlers
      ∙ ap (λ k. receive_loop k (joined rs ++ junk) n handlers) fuel
      ∙ ap (λ k. receive_loop (length rs + suc (n - length rs)) (joined rs ++ junk) k handlers)
          none_left
      ∙ loop-parts rs (suc (n - length rs)) junk 0 p
      ∙ ap (deliver_parts rs) (loop-empty (n - length rs) junk handlers)
      ∙ deliver_parts-ok rs handlers

  dispatch-end :
      (last : Bytes) (later : List (ℕ × ℕ) → Outcome Received)
      → IsEnd s last
      → dispatch last handlers later ≡ ok (erase s handlers, [])
  dispatch-end last later e = rw (e.sequence, ==_ne _ _ unicast, registered, e.done) refl

  receive-parts_end :
      (rs : List Bytes) (last junk : Bytes)
      → AllParts s rs
      → IsEnd s last
      → receive_packet_and_run_handler
          (joined rs ++ (last ++ junk))
          (some (length (joined rs) + length last))
          handlers
        ≡ ok (erase s handlers, handled_all rs)
  receive-parts_end rs last junk p e =
      let bytes = joined rs ++ (last ++ junk) in
      let n = length (joined rs) + length last in
      let left = n - length rs in
      let fuel : suc n ≡ length rs + suc left = omega (arith, length-joined s rs p) in
      let none_left : n ≡ length (joined rs) + (length last + 0) = omega arith in
      call-loop bytes n handlers
      ∙ ap (λ k. receive_loop k bytes n handlers) fuel
      ∙ ap (λ k. receive_loop (length rs + suc left) bytes k handlers) none_left
      ∙ loop-parts rs (suc left) (last ++ junk) (length last + 0) p
      ∙ ap (deliver_parts rs) (
          loop_front left last junk 0 handlers e.valid (stated last junk e.valid e.exact)
          ∙ dispatch-end last (receive_loop left junk 0) e)
      ∙ deliver_parts-ok rs (erase s handlers)

  wait-batches :
      (bs : List Batch) (time : ℕ) (polls : List Poll) (response : List Bytes) (ds : List Delivery)
      → AllBatches s bs
      → all_elapsed bs < time
      → wait_loop (polls_of bs polls) s time handlers response ds
        ≡ wait_loop polls s
            (time - all_elapsed bs)
            handlers
            (response ++ all_parts bs)
            (ds ++ handled_all (all_parts bs))
  wait-batches [] time polls response ds a t =
      let same : time - 0 ≡ time = omega arith in rw (same, append-nil response, append-nil ds) refl
  wait-batches (b ∷ bs) time polls response ds a t =
      let left : time - b.elapsed - all_elapsed bs ≡ time - (b.elapsed + all_elapsed bs) =
        omega arith in
      let regrouped : (response ++ b.parts) ++ all_parts bs
          ≡ response ++ (b.parts ++ all_parts bs) =
        append_assoc response b.parts (all_parts bs) in
      let seen : (ds ++ handled_all b.parts) ++ handled_all (all_parts bs)
          ≡ ds ++ handled_all (b.parts ++ all_parts bs) =
        append_assoc ds (handled_all b.parts) (handled_all (all_parts bs))
        ∙ ap (◌++◌ ds) (sym (map-append (handled append_packet) b.parts (all_parts bs))) in
      wait_round (joined b.parts ++ b.junk) (some (length (joined b.parts))) b.elapsed
        (polls_of bs polls) s time handlers response ds _ _ registered (omega arith)
        (receive-parts b.parts b.junk a.0)
      ∙ ap
          (λ k.
            wait_loop (polls_of bs polls) s (time - b.elapsed) handlers (response ++ k)
              (ds ++ handled_all b.parts))
          (appended-handled_all b.parts)
      ∙ wait-batches bs (time - b.elapsed) polls (response ++ b.parts) (ds ++ handled_all b.parts)
          a.1 (omega arith)
      ∙ rw (left, regrouped, seen) refl

-- The answers of a dump, in order, from the batches and the last datagram.
abbrev pub dump_reply : ℕ → List (ℕ × ℕ) → List Bytes → Reply
dump_reply s handlers rs = record {
  done = true;
  handlers = erase s (insert s append_packet handlers);
  response = rs;
  deliveries = handled_all rs;
}

-- A request whose answers are parts of a dump, in any number of datagrams, the last of which NLMSG_DONE
-- ends, all before 4000 milliseconds have passed: SendMessageAndGetResponses succeeds with all the parts in
-- the order in which they came, and its handler is gone.
pub send_message_and_get_responses-dump :
    (packet : Bytes) (bs : List Batch) (b : Batch) (last : Bytes) (polls : List Poll)
    (handlers : List (ℕ × ℕ))
    → get_message_sequence packet ≢ broadcast_sequence_number
    → AllBatches (get_message_sequence packet) bs
    → AllParts (get_message_sequence packet) b.parts
    → IsEnd (get_message_sequence packet) last
    → all_elapsed bs + b.elapsed < 4000
    → send_message_and_get_responses true
        (polls_of bs (
          ready
            (joined b.parts ++ (last ++ b.junk))
            (some (length (joined b.parts) + length last))
            b.elapsed
          ∷ polls))
        packet
        handlers
      ≡ ok (dump_reply (get_message_sequence packet) handlers (all_parts bs ++ b.parts))
unfolding send_message_and_get_responses
send_message_and_get_responses-dump packet bs b last polls handlers u a p e t =
    let s = get_message_sequence packet in
    let with_handler = insert s append_packet handlers in
    let own = lookup_own s append_packet handlers in
    let time = 4000 - all_elapsed bs in
    let rs = all_parts bs in
    wait-batches s u with_handler own bs 4000 _ [] [] a (omega arith)
    ∙ wait_round (joined b.parts ++ (last ++ b.junk)) (some (length (joined b.parts) + length last))
        b.elapsed polls s time with_handler rs (handled_all rs) _ _ own (omega arith)
        (receive-parts_end s u with_handler own b.parts last b.junk p e)
    ∙ wait_over polls s (time - b.elapsed) (erase s with_handler) _ _ (lookup_gone s with_handler)
        (omega arith)
    ∙ rw (appended-handled_all b.parts, map-append (handled append_packet) rs b.parts) refl
