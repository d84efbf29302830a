-- ===== src/Results.antt =====
-- scanning/scan_utils.cpp, the reading of scan results: GetScanResult, ParseScanResult and their parts.
pub mod Elements
use dumbos_platform_system_c.Base.{
  ℕ, zero, suc, ◌+◌, ◌/◌, Bool, true, false, not, ◌||◌, List, [], ◌∷◌, ◌==◌, ltb, leb, max, map,
  if◌then◌else◌, length, take, drop, get_or, Bytes, Option, none, some, Outcome, ok, fails, hangs,
  ◌>>=◌, attempt, or_default,
}
use dumbos_platform_system_c.Uapi.{nlmsg_error}
use dumbos_platform_system_c.Nl80211.{
  attr_bss, attr_ifindex, cmd_new_scan_results, bss_bssid, bss_frequency, bss_information_elements,
  bss_last_seen_boottime, bss_tsf, bss_beacon_tsf, bss_signal_mbm, bss_capability, bss_status,
  bss_status_authenticated, bss_status_associated, bss_chain_signal,
}
use dumbos_platform_system_c.Attribute
use dumbos_platform_system_c.Attribute.{
  payload, get_attribute_id, is_valid_int, int_value, get_list_of_attributes,
}
use dumbos_platform_system_c.Packet
use dumbos_platform_system_c.Packet.{get_command, get_message_type}

-- kElemIdSsid.
abbrev pub elem_id_ssid : ℕ
elem_id_ssid = 0

-- The loop of GetSSIDFromInfoElement over the bytes left: `ptr + 1 < end`, then
-- `ptr + 1 + length >= end`.
unfoldable pub ssid_loop : ℕ → Bytes → Outcome Bytes
ssid_loop zero ie = hangs
ssid_loop (suc fuel) ie =
    let type = get_or ie 0 0 in
    let len = get_or ie 1 0 in
    let rest = ssid_loop fuel (drop (2 + len) ie) in
    if not (ltb 1 (length ie))
    then fails
    else if leb (length ie) (1 + len)
    then fails
    else if type == elem_id_ssid
    then ok (take len (drop 2 ie))
    else rest

-- GetSSIDFromInfoElement.
unfoldable pub get_ssid_from_info_element : Bytes → Outcome Bytes
get_ssid_from_info_element ie = ssid_loop (suc (length ie)) ie

boottime_or_tsf : Bytes → Option ℕ → Outcome ℕ
boottime_or_tsf bss (some nanoseconds) = ok (nanoseconds / 1000)
boottime_or_tsf bss none = do
  tsf ← Attribute.get_int 8 (payload bss) bss_tsf
  beacon_tsf ← or_default tsf (Attribute.get_int 8 (payload bss) bss_beacon_tsf)
  ok (max tsf beacon_tsf)

-- GetBssTimestamp, in microseconds.
unfoldable pub get_bss_timestamp : Bytes → Outcome ℕ
unfolding boottime_or_tsf
get_bss_timestamp bss = do
  boottime ← attempt (Attribute.get_int 8 (payload bss) bss_last_seen_boottime)
  boottime_or_tsf bss boottime

-- scanning/radio_chain_info.h; the level is the bit pattern of an int32_t.
pub record RadioChainInfo : Type 0 where
  pub chain_id : ℕ
  pub level : ℕ

-- The conversion of an int8_t to an int32_t, of bit patterns.
abbrev pub sign_extend : ℕ → ℕ
sign_extend level = if ltb level 128 then level else level + 4294967040

radio_chain_loop : List Bytes → Outcome (List RadioChainInfo)
radio_chain_loop [] = ok []
radio_chain_loop (attr ∷ attrs) = do
  level ← int_value 1 attr
  rest ← radio_chain_loop attrs
  ok (record { chain_id = get_attribute_id attr; level = sign_extend level } ∷ rest)

-- ParseRadioChainInfos.
unfoldable pub parse_radio_chain_infos : Bytes → Outcome (List RadioChainInfo)
unfolding radio_chain_loop
parse_radio_chain_infos bss = do
  infos_attr ← Attribute.get_nested (payload bss) bss_chain_signal
  attrs ← get_list_of_attributes (is_valid_int 1) infos_attr
  radio_chain_loop attrs

-- scanning/scan_result.h; the signal is the bit pattern of an int32_t.
pub record NativeScanResult : Type 0 where
  pub ssid : Bytes
  pub bssid : Bytes
  pub info_element : Bytes
  pub frequency : ℕ
  pub signal_mbm : ℕ
  pub tsf : ℕ
  pub capability : ℕ
  pub associated : Bool
  pub radio_chain_infos : List RadioChainInfo

is_associated_status : Option ℕ → Bool
is_associated_status none = false
is_associated_status (some status) =
    (status == bss_status_authenticated) || (status == bss_status_associated)

-- The body of ParseScanResult for a packet with NL80211_ATTR_BSS.
unfoldable pub parse_bss : Bytes → Outcome NativeScanResult
unfolding is_associated_status
parse_bss bss = do
  bssid ← Attribute.get_array 6 (payload bss) bss_bssid
  freq ← Attribute.get_int 4 (payload bss) bss_frequency
  ie ← Attribute.get_raw (payload bss) bss_information_elements
  ssid ← get_ssid_from_info_element ie
  timestamp ← get_bss_timestamp bss
  signal ← Attribute.get_int 4 (payload bss) bss_signal_mbm
  capability ← Attribute.get_int 2 (payload bss) bss_capability
  status ← attempt (Attribute.get_int 4 (payload bss) bss_status)
  radio_chain_infos ← or_default [] (parse_radio_chain_infos bss)
  ok (record {
    ssid = ssid;
    bssid = bssid;
    info_element = ie;
    frequency = freq;
    signal_mbm = signal;
    tsf = timestamp;
    capability = capability;
    associated = is_associated_status status;
    radio_chain_infos = radio_chain_infos;
  })

bss_or_default : NativeScanResult → Option Bytes → Outcome NativeScanResult
bss_or_default default_result none = ok default_result
bss_or_default default_result (some bss) = parse_bss bss

-- ParseScanResult: without NL80211_ATTR_BSS it succeeds and leaves `scan_result` as it is.
unfoldable pub parse_scan_result : NativeScanResult → Bytes → Outcome NativeScanResult
unfolding bss_or_default
parse_scan_result scan_result packet =
    if not (get_command packet == cmd_new_scan_results)
    then fails
    else (attempt (Packet.get_nested packet attr_bss) >>= bss_or_default scan_result)

-- What the loop of GetScanResult does with one packet: `fails` where it goes on with the next.
unfoldable pub read_scan_result : ℕ → ℕ → NativeScanResult → Bytes → Outcome NativeScanResult
read_scan_result family_id interface_index blank packet =
    if get_message_type packet == nlmsg_error
    then fails
    else if not (get_message_type packet == family_id)
    then fails
    else (Packet.get_int 4 packet attr_ifindex >>= λ if_index.
        if not (if_index == interface_index) then fails else parse_scan_result blank packet)

abbrev append_result : Option NativeScanResult → List NativeScanResult → List NativeScanResult
append_result none results = results
append_result (some result) results = result ∷ results

-- The loop of GetScanResult over the responses; `blank` is a NativeScanResult with no arguments.
unfoldable pub get_scan_result :
    ℕ → ℕ → NativeScanResult → List Bytes → Outcome (List NativeScanResult)
get_scan_result family_id interface_index blank [] = ok []
get_scan_result family_id interface_index blank (packet ∷ response) = do
  result ← attempt (read_scan_result family_id interface_index blank packet)
  results ← get_scan_result family_id interface_index blank response
  ok (append_result result results)
