-- ===== src/Client/Frames.antt =====
-- Management frames and the status events that follow them.
use dumbos_platform_system_c.Base.{
  ℕ, ◌≡◌, ◌≢◌, refl, ap, Bool, true, false, List, [], ◌∷◌, ◌++◌, some, if◌then◌else◌, ==_refl,
  ==_ne,
}
use dumbos_platform_system_c.Client.{
  Client, FrameEvent, on_ack, on_failure_no_ack, send_mgmt_frame, on_frame_tx_status, run_handler,
}

-- The calls of callbacks that a sequence of status events causes.
unfoldable pub report_all : List (ℕ × Bool) → Client → List FrameEvent
report_all [] c = []
report_all ((cookie, was_acked) ∷ events) c =
    let rest = report_all events (on_frame_tx_status cookie was_acked c).0 in
    (on_frame_tx_status cookie was_acked c).1 ++ rest

-- No status event has the cookie.
abbrev pub OthersOnly : ℕ → List (ℕ × Bool) → Type 0
OthersOnly cookie [] = Unit
OthersOnly cookie ((other, was_acked) ∷ events) = (cookie ≢ other) × OthersOnly cookie events

report-idle :
    (events : List (ℕ × Bool)) (c : Client)
    → c.frame_tx_in_progress ≡ false
    → report_all events c ≡ []
unfolding report_all on_frame_tx_status
report-idle [] c h = refl
report-idle ((cookie, was_acked) ∷ events) c h = simp h (report-idle events c h)

report-waiting :
    (before after : List (ℕ × Bool)) (cookie callback : ℕ) (was_acked : Bool) (c : Client)
    → OthersOnly cookie before
    → c.frame_tx_in_progress ≡ true
    → c.frame_tx_status_cookie ≡ cookie
    → c.on_frame_tx_status_event_handler ≡ some callback
    → report_all (before ++ (cookie, was_acked) ∷ after) c ≡ run_handler (some callback) was_acked
unfolding report_all on_frame_tx_status
report-waiting [] after cookie callback true c o p k h =
    simp (p, k, ==_refl cookie, h) (ap (◌∷◌ (on_ack callback)) (report-idle after _ refl))
report-waiting [] after cookie callback false c o p k h =
    simp (p, k, ==_refl cookie, h)
      (ap (◌∷◌ (on_failure_no_ack callback)) (report-idle after _ refl))
report-waiting ((other, acked) ∷ before) after cookie callback was_acked c o p k h =
    simp (p, k, ==_ne cookie other o.0)
      (report-waiting before after cookie callback was_acked c o.1 p k h)

-- After SendMgmtFrame got a cookie, status events of other cookies do nothing, the first with its cookie
-- runs the frame's callback with the acknowledgement, and nothing after that runs a callback.
pub send_mgmt_frame-report_all :
    (before after : List (ℕ × Bool)) (cookie callback : ℕ) (was_acked : Bool) (c : Client)
    → OthersOnly cookie before
    → report_all
        (before ++ (cookie, was_acked) ∷ after)
        (send_mgmt_frame callback false (some cookie) c).0
      ≡ (if was_acked then on_ack callback ∷ [] else on_failure_no_ack callback ∷ [])
unfolding send_mgmt_frame
send_mgmt_frame-report_all before after cookie callback was_acked c o =
    report-waiting before after cookie callback was_acked _ o refl refl refl
