-- ===== src/Requests/Acknowledged.antt =====
-- Scan and its siblings, when the kernel acknowledges or refuses the request in time.
use dumbos_platform_system_c.Base.{
  ℕ, ◌<◌, ◌≡◌, ◌≢◌, refl, true, false, List, [], ◌∷◌, arith, Bytes, some, ok, ◌==◌,
}
use dumbos_platform_system_c.Uapi.{nlmsg_error}
use dumbos_platform_system_c.Nl80211
use dumbos_platform_system_c.Packet.{is_multi, get_message_type, get_error_code}
use dumbos_platform_system_c.Packet.Fields.{FitsHeader}
use dumbos_platform_system_c.Manager.{
  Manager, Origin, origin, get_sequence_number, Poll, handled, append_packet, ack_or_error,
  single_response_or_error,
}
use dumbos_platform_system_c.Manager.Sequence.{get_sequence_number_bounds}
use dumbos_platform_system_c.Manager.Answers.{IsAnswer}
use dumbos_platform_system_c.Manager.Answered.{IsReady, answering, exchange-numbered}
use dumbos_platform_system_c.Scanner.State.{
  ScanType, low_span, low_power, high_accuracy, default, other,
}
use dumbos_platform_system_c.Scanner.Request.{ScanParams}
use dumbos_platform_system_c.Requests.{or_flag, scan_type_flag, scan_flags_of, scan}
use dumbos_platform_system_c.Requests.Built.{FitsOrigin, FitsScan, ack_header, scan_packet-IsBuilt}

-- A scan type of the interface passes the `switch`.
type_flag-ok :
    (t : ScanType) (flags : ℕ) → t ≢ other → (all : ℕ) × (scan_type_flag t flags ≡ ok all)
unfolding scan_type_flag
type_flag-ok low_span flags n = (_, refl)
type_flag-ok low_power flags n = (_, refl)
type_flag-ok high_accuracy flags n = (_, refl)
type_flag-ok default flags n = (_, refl)
type_flag-ok other flags n = absurd (n refl)

scan_flags_of-ok : (p : ScanParams) → p.scan_type ≢ other → (all : ℕ) × (scan_flags_of p ≡ ok all)
unfolding scan_flags_of
scan_flags_of-ok p n =
    let start = or_flag p.request_random_mac Nl80211.scan_flag_random_addr 0 in
    let (all, e) = type_flag-ok p.scan_type start n in
    (or_flag p.enable_6ghz_rnr Nl80211.scan_flag_colocated_6ghz all, rw e refl)

pub ready_origin :
    (m : Manager) (pid : ℕ) → IsReady m → pid < 4294967296 → FitsOrigin (origin m pid)
ready_origin m pid r p = record {
  family_fits = r.family_fits;
  sequence_fits = (get_sequence_number_bounds m r.counter_fits).1;
  pid_fits = p;
}

ack_header-Fits :
    (o : Origin) (command : ℕ) → FitsOrigin o → command < 256 → FitsHeader (ack_header o command)
ack_header-Fits o command f c = record {
  type_fits = f.family_fits;
  flags_fit = omega arith;
  sequence_fits = f.sequence_fits;
  pid_fits = f.pid_fits;
  command_fits = c;
}

error_code-read :
    (reply : Bytes)
    → get_message_type reply ≡ nlmsg_error
    → ack_or_error (single_response_or_error true (reply ∷ [])) ≡ some (get_error_code reply)
unfolding ack_or_error single_response_or_error
error_code-read reply e = rw e refl

-- The kernel answers a scan request, in its first datagram and before 4000 milliseconds have passed, with
-- an NLMSG_ERROR message: Scan returns whether the error code is 0, hands on the code, and leaves the
-- manager with the next sequence number and the handlers as they were.
pub scan-acknowledged :
    (m : Manager) (p : ScanParams) (pid stale : ℕ) (reply junk : Bytes) (elapsed : ℕ)
    (polls : List Poll)
    → IsReady m
    → pid < 4294967296
    → FitsScan p
    → p.scan_type ≢ other
    → IsAnswer (get_sequence_number m).1 reply
    → is_multi reply ≡ false
    → get_message_type reply ≡ nlmsg_error
    → elapsed < 4000
    → scan (answering reply junk elapsed polls) pid stale p m
      ≡ ok (record {
        after = (get_sequence_number m).0;
        seen = handled append_packet reply ∷ [];
        value = some (get_error_code reply == 0, get_error_code reply);
      })
unfolding scan
scan-acknowledged m p pid stale reply junk elapsed polls r pf fp n a i t time =
    let (flags, e) = scan_flags_of-ok p n in
    let fo = ready_origin m pid r pf in
    let answered =
      exchange-numbered m 5 _ _ _ reply junk elapsed polls r
        (scan_packet-IsBuilt (origin m pid) p flags fo fp)
        (ack_header-Fits (origin m pid) Nl80211.cmd_trigger_scan fo (omega arith)) refl a i time in
    rw (e, answered) (rw (error_code-read reply t) refl)
