-- ===== src/Requests/Echo.antt =====
-- What a reader of a scan request finds in it. The reader is the code that reads the same attributes of
-- scan notifications.
use dumbos_platform_system_c.Base.{
  ℕ, suc, ◌<◌, ◌≡◌, refl, Bool, true, false, List, [], ◌∷◌, arith, Bytes, le_bytes, ok, fails, some,
  ◌>>=◌, from_option, is_empty, Outcome, if◌then◌else◌,
}
use mathlib.Core.Option
use dumbos_platform_system_c.Nl80211
use dumbos_platform_system_c.Attribute.{is_valid, is_valid_int, int_value, raw_value}
use dumbos_platform_system_c.Attribute.Layout.{Fits, encode}
use dumbos_platform_system_c.Attribute.Nested.{AllValid, AllValid-is_valid}
use dumbos_platform_system_c.Attribute.Listed.{HaveValues, get_values-encode}
use dumbos_platform_system_c.Attribute.Indexed.{indexed, indexed-AllFit}
use dumbos_platform_system_c.Attribute.Lookup.{AllFit, find_attr}
use dumbos_platform_system_c.Attribute.Getters.{get_nested-encode_all}
use dumbos_platform_system_c.Attribute.Values.{
  raw_value-encode, int_value-encode, is_valid_int-encode,
}
use dumbos_platform_system_c.Packet
use dumbos_platform_system_c.Packet.Build.{unless}
use dumbos_platform_system_c.Manager.Calls.{Origin}
use dumbos_platform_system_c.Manager.Dispatch.{list_values}
use dumbos_platform_system_c.Scanner.Request.{ScanParams}
use dumbos_platform_system_c.Requests.{scan_packet}
use dumbos_platform_system_c.Requests.Built.{
  FitsOrigin, FitsScan, same_bytes, ssids_meant, freqs_meant, scan_attributes, scan_packet-IsBuilt,
}

-- What OnScanResultsReady does with NL80211_ATTR_SCAN_SSIDS and NL80211_ATTR_SCAN_FREQUENCIES.
abbrev pub read_ssids : Bytes → Outcome (List Bytes)
read_ssids packet = Packet.get_nested packet Nl80211.attr_scan_ssids >>= λ attr.
    list_values is_valid raw_value (some attr)

abbrev pub read_freqs : Bytes → Outcome (List ℕ)
read_freqs packet = Packet.get_nested packet Nl80211.attr_scan_frequencies >>= λ attr.
    list_values (is_valid_int 4) (int_value 4) (some attr)

-- The frequencies are 32-bit integers.
abbrev pub Words : List ℕ → Type 0
Words [] = Unit
Words (f ∷ freqs) = (f < 4294967296) × Words freqs

ssids-HaveValues :
    (i : ℕ) (ssids : List Bytes)
    → AllFit (indexed same_bytes i ssids)
    → HaveValues raw_value (indexed same_bytes i ssids) ssids
ssids-HaveValues i [] f = tt
ssids-HaveValues i (s ∷ ssids) f = (raw_value-encode _ f.0, ssids-HaveValues (suc i) ssids f.1)

freqs-HaveValues :
    (i : ℕ) (freqs : List ℕ)
    → Words freqs
    → HaveValues (int_value 4) (indexed (le_bytes 4) i freqs) freqs
freqs-HaveValues i [] w = tt
freqs-HaveValues i (f ∷ freqs) w = (int_value-encode 4 i f w.0, freqs-HaveValues (suc i) freqs w.1)

freqs-AllValid :
    (i : ℕ) (freqs : List ℕ)
    → AllFit (indexed (le_bytes 4) i freqs)
    → AllValid (is_valid_int 4) (indexed (le_bytes 4) i freqs)
freqs-AllValid i [] f = tt
freqs-AllValid i (x ∷ freqs) f =
    (is_valid_int-encode 4 i x f.0.id_fits (omega arith), freqs-AllValid (suc i) freqs f.1)

list_values-ssids :
    (id : ℕ) (ssids : List Bytes)
    → Fits (ssids_meant id ssids)
    → list_values is_valid raw_value (some (encode (ssids_meant id ssids))) ≡ ok ssids
unfolding list_values
list_values-ssids id ssids f =
    let all = indexed-AllFit same_bytes id 0 ssids (omega arith) f in
    get_values-encode is_valid raw_value id (indexed same_bytes 0 ssids) ssids all
      (AllValid-is_valid (indexed same_bytes 0 ssids) all) (ssids-HaveValues 0 ssids all)

list_values-freqs :
    (id : ℕ) (freqs : List ℕ)
    → Fits (freqs_meant id freqs)
    → Words freqs
    → list_values (is_valid_int 4) (int_value 4) (some (encode (freqs_meant id freqs))) ≡ ok freqs
unfolding list_values
list_values-freqs id freqs f w =
    let all = indexed-AllFit (le_bytes 4) id 0 freqs (omega arith) f in
    get_values-encode (is_valid_int 4) (int_value 4) id (indexed (le_bytes 4) 0 freqs) freqs all
      (freqs-AllValid 0 freqs all) (freqs-HaveValues 0 freqs w)

find-freqs :
    (p : ScanParams) (scan_flags : ℕ)
    → find_attr Nl80211.attr_scan_frequencies (scan_attributes p scan_flags)
      ≡ find_attr Nl80211.attr_scan_frequencies
          (unless (is_empty p.freqs) (freqs_meant Nl80211.attr_scan_frequencies p.freqs))
find-freqs p scan_flags = ground arith

read_ssids-scan :
    (o : Origin) (p : ScanParams) (scan_flags : ℕ)
    → FitsOrigin o
    → FitsScan p
    → read_ssids (scan_packet o p scan_flags) ≡ ok p.ssids
read_ssids-scan o p scan_flags fo fp =
    let built = scan_packet-IsBuilt o p scan_flags fo fp in
    rw (built.bytes) (
      rw (get_nested-encode_all Nl80211.attr_scan_ssids (scan_attributes p scan_flags) built.fit)
        (list_values-ssids Nl80211.attr_scan_ssids p.ssids fp.ssids_fit))

freqs_found :
    (empty : Bool) (freqs : List ℕ)
    → is_empty freqs ≡ empty
    → Fits (freqs_meant Nl80211.attr_scan_frequencies freqs)
    → Words freqs
    → (from_option (
          Option.map encode (
            find_attr Nl80211.attr_scan_frequencies
              (unless empty (freqs_meant Nl80211.attr_scan_frequencies freqs))))
        >>= λ attr. list_values (is_valid_int 4) (int_value 4) (some attr))
      ≡ (if empty then fails else ok freqs)
freqs_found true freqs e f w = refl
freqs_found false freqs e f w = list_values-freqs Nl80211.attr_scan_frequencies freqs f w

-- A reader of the packet of Scan gets the ssids of the request in order, and its frequencies in order;
-- a request without frequencies carries no attribute for them.
pub scan_packet-echo :
    (o : Origin) (p : ScanParams) (scan_flags : ℕ)
    → FitsOrigin o
    → FitsScan p
    → Words p.freqs
    → (read_ssids (scan_packet o p scan_flags) ≡ ok p.ssids)
      × (read_freqs (scan_packet o p scan_flags) ≡ (if is_empty p.freqs then fails else ok p.freqs))
scan_packet-echo o p scan_flags fo fp w =
    let built = scan_packet-IsBuilt o p scan_flags fo fp in
    (
      read_ssids-scan o p scan_flags fo fp,
      rw (built.bytes) (
          rw
            (get_nested-encode_all Nl80211.attr_scan_frequencies (scan_attributes p scan_flags)
              built.fit)
            (rw (find-freqs p scan_flags)
              (freqs_found (is_empty p.freqs) p.freqs refl fp.freqs_fit w))),
    )
