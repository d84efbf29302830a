-- ===== src/Manager/Answered.antt =====
-- Whole exchanges: what a caller of NetlinkManager sees when the kernel answers in time.
use dumbos_platform_system_c.Base.{
  ℕ, ◌<◌, ◌≡◌, ◌≢◌, refl, ap, ◌∙◌, List, [], ◌∷◌, ◌++◌, length, Bytes, true, false, none, some, ok,
  Bool-cases, inl, inr, ◌==◌, ltb, ==_refl, ==_ne,
}
use dumbos_platform_system_c.Base.Assoc.{lookup, insert, erase}
use dumbos_platform_system_c.Attribute.Layout.{Attr}
use dumbos_platform_system_c.Uapi.{nlmsg_error}
use dumbos_platform_system_c.Packet.{is_multi, get_message_sequence, get_message_type}
use dumbos_platform_system_c.Packet.Layout.{Header}
use dumbos_platform_system_c.Packet.Fields.{FitsHeader, getters-encode}
use dumbos_platform_system_c.Packet.Build.{IsBuilt}
use dumbos_platform_system_c.Manager.State.{Manager, get_sequence_number, broadcast_sequence_number}
use dumbos_platform_system_c.Manager.Sequence.{get_sequence_number_bounds}
use dumbos_platform_system_c.Manager.Receive.{handled}
use dumbos_platform_system_c.Manager.Request.{
  Poll, ready, append_packet, single_response, single_response_or_error,
}
use dumbos_platform_system_c.Manager.Calls.{Exchange, exchange}
use dumbos_platform_system_c.Manager.Answers.{IsAnswer, send_message_and_get_responses-answered}

erase_absent {ℓ} : {A : Type ℓ} (k : ℕ) (m : List (ℕ × A)) → lookup k m ≡ none → erase k m ≡ m
erase_absent k [] h = refl
erase_absent k ((j, w) ∷ m) h = elim (Bool-cases (j == k)) [
  | inl e ↦ let found = rw e at h in cc
  | inr e ↦ rw e (ap (◌∷◌ (j, w)) (erase_absent k m (rw e at h)))
]

-- A handler that is registered for the time of an exchange leaves nothing behind.
pub erase-insert {ℓ} :
    {A : Type ℓ} (k : ℕ) (v : A) (m : List (ℕ × A)) → lookup k m ≡ none → erase k (insert k v m) ≡ m
erase-insert k v [] h = rw (==_refl k) refl
erase-insert k v ((j, w) ∷ m) h = elim (Bool-cases (j == k)) [
  | inl e ↦ let found = rw e at h in cc
  | inr e ↦ elim (Bool-cases (ltb k j)) [
    | inl l ↦ rw (e, l) (rw (==_refl k, e) (ap (◌∷◌ (j, w)) (erase_absent k m (rw e at h))))
    | inr l ↦ rw (e, l) (rw e (ap (◌∷◌ (j, w)) (erase-insert k v m (rw e at h))))
  ]
]

pub get_message_sequence-IsBuilt :
    (n : ℕ) (h : Header) (l : List Attr) (packet : Bytes)
    → IsBuilt n h l packet
    → FitsHeader h
    → get_message_sequence packet ≡ h.sequence
get_message_sequence-IsBuilt n h l packet b f =
    ap get_message_sequence b.bytes ∙ (getters-encode h l f).2

-- One answer, in the first datagram.
abbrev pub answering : Bytes → Bytes → ℕ → List Poll → Exchange
answering reply junk elapsed polls = record {
  sent = true;
  polls = ready (reply ++ junk) (some (length reply)) elapsed ∷ polls;
}

pub exchange-answered :
    (m : Manager) (s : ℕ) (packet reply junk : Bytes) (elapsed : ℕ) (polls : List Poll)
    → get_message_sequence packet ≡ s
    → s ≢ broadcast_sequence_number
    → lookup s m.message_handlers ≡ none
    → IsAnswer s reply
    → is_multi reply ≡ false
    → elapsed < 4000
    → exchange (answering reply junk elapsed polls) packet m
      ≡ ok (record {
        manager = m;
        done = true;
        response = reply ∷ [];
        deliveries = handled append_packet reply ∷ [];
      })
unfolding exchange
exchange-answered m s packet reply junk elapsed polls e u free a i t =
    let a' = rw (← e) at a in
    let u' = rw (← e) at u in
    let free' = rw (← e) at free in
    rw
      (send_message_and_get_responses-answered packet reply junk elapsed polls m.message_handlers u'
        a' i t)
      (rw (erase-insert (get_message_sequence packet) append_packet m.message_handlers free') refl)

-- A manager that can send its next request: its numbers fit, and no handler waits under the next sequence
-- number.
pub record IsReady (m : Manager) : Type 0 where
  pub counter_fits : m.sequence_number < 4294967296
  pub family_fits : m.family_id < 65536
  pub free : lookup (get_sequence_number m).1 m.message_handlers ≡ none

same_handlers : (m : Manager) → (get_sequence_number m).0.message_handlers ≡ m.message_handlers
unfolding get_sequence_number
same_handlers m = refl

-- The exchange of a request that was built from the state.
pub exchange-numbered :
    (m : Manager) (n : ℕ) (h : Header) (l : List Attr) (packet reply junk : Bytes) (elapsed : ℕ)
    (polls : List Poll)
    → IsReady m
    → IsBuilt n h l packet
    → FitsHeader h
    → h.sequence ≡ (get_sequence_number m).1
    → IsAnswer (get_sequence_number m).1 reply
    → is_multi reply ≡ false
    → elapsed < 4000
    → exchange (answering reply junk elapsed polls) packet (get_sequence_number m).0
      ≡ ok (record {
        manager = (get_sequence_number m).0;
        done = true;
        response = reply ∷ [];
        deliveries = handled append_packet reply ∷ [];
      })
exchange-numbered m n h l packet reply junk elapsed polls r b f e a i t =
    exchange-answered (get_sequence_number m).0 (get_sequence_number m).1 packet reply junk elapsed
      polls (get_message_sequence-IsBuilt n h l packet b f ∙ e)
      (get_sequence_number_bounds m r.counter_fits).0 (rw (same_handlers m) r.free) a i t

-- The caller that wants one response gets it.
pub single-read :
    (reply : Bytes)
    → get_message_type reply ≢ nlmsg_error
    → single_response (single_response_or_error true (reply ∷ [])) ≡ some reply
unfolding single_response single_response_or_error
single-read reply n = rw (==_ne _ _ n) refl
