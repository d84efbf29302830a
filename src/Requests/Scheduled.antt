-- ===== src/Requests/Scheduled.antt =====
-- The packet of StartScheduledScan, against the attributes that it is meant to carry.
use dumbos_platform_system_c.Base.{
  ℕ, ◌+◌, ◌-◌, ◌/◌, ◌%◌, ◌<◌, ◌≡◌, Bool, true, false, refl, ap, ◌∙◌, not, List, [], ◌∷◌, ◌++◌,
  arith, length, Bytes, ◌==◌, is_empty, length-append, if◌then◌else◌,
}
use dumbos_platform_system_c.Uapi.{nlm_f_ack}
use dumbos_platform_system_c.Nl80211
use dumbos_platform_system_c.Attribute
use dumbos_platform_system_c.Attribute.{new_raw, new_int, new_nested}
use dumbos_platform_system_c.Attribute.Layout.{
  Attr, Fits, encode, encode_all, new_raw-encode, new_int-encode,
}
use dumbos_platform_system_c.Attribute.Nested.{
  nested, encode_all-append, new_nested-encode, add_attribute-encode,
}
use dumbos_platform_system_c.Attribute.Indexed.{indexed}
use dumbos_platform_system_c.Packet.Layout.{encode_packet}
use dumbos_platform_system_c.Packet.Build.{IsBuilt, unless, add_attribute-IsBuilt, flagged-IsBuilt}
use dumbos_platform_system_c.Manager.Calls.{Origin}
use dumbos_platform_system_c.Scanner.Pno.{SchedScanParams, SchedScanIntervalSetting}
use dumbos_platform_system_c.Requests.{
  or_flag, add_indexed, match_group, scan_match_attr, rssi_adjust, scan_plan, plans_attr,
  start_scheduled_scan_packet,
}
use dumbos_platform_system_c.Requests.Built.{
  FitsOrigin, ack_header, add_unless-IsBuilt, add_indexed-nested, ssids_meant, freqs_meant,
  ssids_attr-encode, freqs_attr-encode, word, word-Fits,
}

-- A nested attribute of two attributes.
two-encode :
    (i : ℕ) (a b : Attr) (a' b' : Bytes)
    → a' ≡ encode a
    → b' ≡ encode b
    → Fits (nested i (a ∷ b ∷ []))
    → Attribute.add_attribute b' (Attribute.add_attribute a' (new_nested i))
      ≡ encode (nested i (a ∷ b ∷ []))
two-encode i a b a' b' ea eb f =
    let total = f.len_fits in
    let split = length-append (encode_all (a ∷ [])) (encode_all (b ∷ [])) in
    let whole = ap length (encode_all-append (a ∷ []) (b ∷ [])) in
    rw (ea, eb, new_nested-encode i)
      (ap (Attribute.add_attribute (encode b))
          (add_attribute-encode i [] a (omega (arith, total, split, whole)))
        ∙ add_attribute-encode i (a ∷ []) b total)

-- A match group and a scan plan, as the content of an attribute.
abbrev pub match_content : ℕ → Bytes → Bytes
match_content rssi ssid = encode_all (
    (record { id = Nl80211.sched_scan_match_attr_ssid; content = ssid })
    ∷ word Nl80211.sched_scan_match_attr_rssi rssi
    ∷ [])

abbrev pub plan_content : ℕ × ℕ → Bytes
plan_content (interval_ms, n_iterations) = encode_all (
    word Nl80211.sched_scan_plan_interval (interval_ms / 1000)
    ∷ word Nl80211.sched_scan_plan_iterations n_iterations
    ∷ [])

match_group-encode :
    (rssi i : ℕ) (ssid : Bytes)
    → Fits (record { id = i; content = match_content rssi ssid })
    → match_group rssi i ssid ≡ encode (record { id = i; content = match_content rssi ssid })
unfolding match_group
match_group-encode rssi i ssid f =
    two-encode i (record { id = Nl80211.sched_scan_match_attr_ssid; content = ssid })
      (word Nl80211.sched_scan_match_attr_rssi rssi) _ _ (new_raw-encode _ _) (new_int-encode 4 _ _)
      f

scan_plan-encode :
    (i : ℕ) (plan : ℕ × ℕ)
    → Fits (record { id = i; content = plan_content plan })
    → scan_plan i plan ≡ encode (record { id = i; content = plan_content plan })
unfolding scan_plan
scan_plan-encode i (interval_ms, n_iterations) f =
    two-encode i (word Nl80211.sched_scan_plan_interval (interval_ms / 1000))
      (word Nl80211.sched_scan_plan_iterations n_iterations) _ _ (new_int-encode 4 _ _)
      (new_int-encode 4 _ _) f

abbrev pub match_meant : SchedScanParams → Attr
match_meant p =
    nested Nl80211.attr_sched_scan_match (indexed (match_content p.min_5g_rssi) 0 p.match_ssids)

scan_match_attr-encode :
    (p : SchedScanParams)
    → Fits (match_meant p)
    → scan_match_attr p.min_5g_rssi p.match_ssids ≡ encode (match_meant p)
unfolding scan_match_attr
scan_match_attr-encode p f =
    add_indexed-nested (match_group p.min_5g_rssi) (match_content p.min_5g_rssi)
      Nl80211.attr_sched_scan_match 0 p.match_ssids (match_group-encode p.min_5g_rssi) (omega arith)
      f

-- The plans that repeat a given number of times, and the last one, which repeats for ever.
abbrev pub last_plan : SchedScanIntervalSetting → Attr
last_plan setting =
    nested (length setting.plans + 1)
      (word Nl80211.sched_scan_plan_interval (setting.final_interval_ms / 1000) ∷ [])

abbrev pub plans_meant : SchedScanIntervalSetting → Attr
plans_meant setting =
    if is_empty setting.plans
    then word Nl80211.attr_sched_scan_interval setting.final_interval_ms
    else nested Nl80211.attr_sched_scan_plans
        (indexed plan_content 1 setting.plans ++ last_plan setting ∷ [])

last_plan-encode :
    (i interval : ℕ)
    → Attribute.add_attribute (new_int 4 Nl80211.sched_scan_plan_interval interval) (new_nested i)
      ≡ encode (nested i (word Nl80211.sched_scan_plan_interval interval ∷ []))
last_plan-encode i interval =
    rw (new_int-encode 4 Nl80211.sched_scan_plan_interval interval, new_nested-encode i)
      (add_attribute-encode i [] (word Nl80211.sched_scan_plan_interval interval) (omega arith))

plans_some :
    (plans : List (ℕ × ℕ)) (last : Attr) (last' : Bytes)
    → last' ≡ encode last
    → Fits (nested Nl80211.attr_sched_scan_plans (indexed plan_content 1 plans ++ last ∷ []))
    → Attribute.add_attribute last'
        (add_indexed scan_plan 1 plans (new_nested Nl80211.attr_sched_scan_plans))
      ≡ encode (nested Nl80211.attr_sched_scan_plans (indexed plan_content 1 plans ++ last ∷ []))
plans_some plans last last' e f =
    let id = Nl80211.attr_sched_scan_plans in
    let l = indexed plan_content 1 plans in
    let whole = ap length (encode_all-append l (last ∷ [])) in
    let split = length-append (encode_all l) (encode_all (last ∷ [])) in
    let total = f.len_fits in
    let front : Fits (nested id l) = record {
      id_fits = f.id_fits;
      len_fits = omega (arith, whole, split, total);
    } in
    rw e (
      ap (Attribute.add_attribute (encode last))
        (add_indexed-nested scan_plan plan_content id 1 plans scan_plan-encode (omega arith) front)
      ∙ add_attribute-encode id l last total)

plans_attr-encode :
    (setting : SchedScanIntervalSetting) (plans : List (ℕ × ℕ))
    → plans ≡ setting.plans
    → Fits (plans_meant setting)
    → plans_attr setting ≡ encode (plans_meant setting)
unfolding plans_attr
plans_attr-encode setting [] e f = rw (← e) (new_int-encode 4 _ _)
plans_attr-encode setting (x ∷ plans) e f =
    let g = rw (← e) at f in
    rw (← e) (
      plans_some (x ∷ plans) _ _
        (last_plan-encode (length (x ∷ plans) + 1) (setting.final_interval_ms / 1000)) g)

-- Each flag that is wanted counts once.
abbrev pub sched_flags : SchedScanParams → ℕ
sched_flags p =
    (if p.req_flags.request_low_power then Nl80211.scan_flag_low_power else 0)
    + (if p.req_flags.request_random_mac then Nl80211.scan_flag_random_addr else 0)

flags_sum :
    (low random : Bool)
    → or_flag low Nl80211.scan_flag_low_power (or_flag random Nl80211.scan_flag_random_addr 0)
      ≡ (if low then Nl80211.scan_flag_low_power else 0)
        + (if random then Nl80211.scan_flag_random_addr else 0)
flags_sum true true = refl
flags_sum true false = refl
flags_sum false true = refl
flags_sum false false = refl

-- A threshold in the 2.4 GHz band, as far above or below the one for all bands as the difference of their
-- low bytes says, modulo 256.
abbrev pub adjust_meant : SchedScanParams → Attr
adjust_meant p = record {
  id = Nl80211.attr_sched_scan_rssi_adjust;
  content = Nl80211.band_2ghz ∷ (p.min_2g_rssi % 256 + (256 - p.min_5g_rssi % 256)) % 256 ∷ [];
}

rssi_adjust-meant :
    (p : SchedScanParams)
    → p.min_5g_rssi < 4294967296
    → rssi_adjust p.min_2g_rssi p.min_5g_rssi ≡ (adjust_meant p).content
unfolding rssi_adjust
rssi_adjust-meant p h =
    let same : (p.min_2g_rssi + 4294967296 - p.min_5g_rssi) % 256
        ≡ (p.min_2g_rssi % 256 + (256 - p.min_5g_rssi % 256)) % 256 =
      omega arith in
    rw same refl

-- What a scheduled scan request means.
abbrev pub sched_attributes : SchedScanParams → List Attr
sched_attributes p =
    (((((match_meant p ∷ []
              ++ unless (not p.req_flags.request_sched_scan_relative_rssi) (adjust_meant p))
            ++ word Nl80211.attr_ifindex p.interface_index ∷ [])
          ++ ssids_meant Nl80211.attr_scan_ssids p.scan_ssids ∷ [])
        ++ unless (is_empty p.freqs) (freqs_meant Nl80211.attr_scan_frequencies p.freqs))
      ++ plans_meant p.interval_setting ∷ [])
    ++ unless (sched_flags p == 0) (word Nl80211.attr_scan_flags (sched_flags p))

pub record FitsSched (p : SchedScanParams) : Type 0 where
  pub match_fit : Fits (match_meant p)
  pub ssids_fit : Fits (ssids_meant Nl80211.attr_scan_ssids p.scan_ssids)
  pub freqs_fit : Fits (freqs_meant Nl80211.attr_scan_frequencies p.freqs)
  pub plans_fit : Fits (plans_meant p.interval_setting)
  pub threshold_fits : p.min_5g_rssi < 4294967296

adjust-Fits : (p : SchedScanParams) → Fits (adjust_meant p)
adjust-Fits p = record { id_fits = omega arith; len_fits = omega arith }

start_scheduled_scan_packet-IsBuilt :
    (o : Origin) (p : SchedScanParams)
    → FitsOrigin o
    → FitsSched p
    → IsBuilt 7
        (ack_header o Nl80211.cmd_start_sched_scan)
        (sched_attributes p)
        (start_scheduled_scan_packet o p)
unfolding start_scheduled_scan_packet
start_scheduled_scan_packet-IsBuilt o p fo fp =
    let start =
      flagged-IsBuilt o.family_id Nl80211.cmd_start_sched_scan o.sequence o.pid nlm_f_ack
        fo.family_fits refl fo.sequence_fits fo.pid_fits in
    let with_match =
      add_attribute-IsBuilt 0 _ [] (match_meant p) _ _ start (scan_match_attr-encode p fp.match_fit)
        fp.match_fit refl in
    let adjusted : new_raw Nl80211.attr_sched_scan_rssi_adjust
          (rssi_adjust p.min_2g_rssi p.min_5g_rssi)
        ≡ encode (adjust_meant p) =
      rw (rssi_adjust-meant p fp.threshold_fits) (new_raw-encode _ _) in
    let flags = flags_sum p.req_flags.request_low_power p.req_flags.request_random_mac in
    let with_adjust =
      add_unless-IsBuilt (not p.req_flags.request_sched_scan_relative_rssi) 1 _ _ (adjust_meant p) _
        _ with_match adjusted (adjust-Fits p) refl in
    let with_index =
      add_attribute-IsBuilt 2 _ _ (word Nl80211.attr_ifindex p.interface_index) _ _ with_adjust
        (new_int-encode 4 _ _) (word-Fits _ _ refl) refl in
    let with_ssids =
      add_attribute-IsBuilt 3 _ _ (ssids_meant Nl80211.attr_scan_ssids p.scan_ssids) _ _ with_index
        (ssids_attr-encode _ _ fp.ssids_fit) fp.ssids_fit refl in
    let with_freqs =
      add_unless-IsBuilt (is_empty p.freqs) 4 _ _
        (freqs_meant Nl80211.attr_scan_frequencies p.freqs) _ _ with_ssids
        (freqs_attr-encode _ _ fp.freqs_fit) fp.freqs_fit refl in
    let with_plans =
      add_attribute-IsBuilt 5 _ _ (plans_meant p.interval_setting) _ _ with_freqs
        (plans_attr-encode p.interval_setting _ refl fp.plans_fit) fp.plans_fit refl in
    rw flags (
      add_unless-IsBuilt (sched_flags p == 0) 6 _ _ (word Nl80211.attr_scan_flags (sched_flags p)) _
        _ with_plans (new_int-encode 4 _ _) (word-Fits _ _ refl) refl)

-- The packet of StartScheduledScan, where its attributes fit and the threshold for all bands is a pattern
-- of 32 bits, is the packet of the attributes that its parameters mean: a match group with ssid and
-- threshold for each ssid to match; the adjustment where it is requested, which names the 2.4 GHz band and
-- the low byte of that band's threshold less the threshold for all bands; the interface, the ssids, the
-- frequencies where there are some, the plans or else the single interval; and the sum of the flags that
-- are wanted, where there are some.
pub start_scheduled_scan_packet-encode :
    (o : Origin) (p : SchedScanParams)
    → FitsOrigin o
    → FitsSched p
    → start_scheduled_scan_packet o p
      ≡ encode_packet (ack_header o Nl80211.cmd_start_sched_scan) (sched_attributes p)
start_scheduled_scan_packet-encode o p fo fp = (start_scheduled_scan_packet-IsBuilt o p fo fp).bytes
