-- ===== src/Scanner/Pno.antt =====
-- ScannerImpl: startPnoScan, stopPnoScan, ParsePnoSettings and GenerateIntervalSetting. The signed
-- interval and frequencies of a request are taken at values that are not negative.
use dumbos_platform_system_c.Base.{
  ℕ, ◌+◌, ◌*◌, Bool, true, false, not, ◌&&◌, ◌||◌, List, [], ◌∷◌, ◌++◌, ◌==◌, ltb, leb,
  if◌then◌else◌, length, is_empty, Bytes, u32, Outcome, ok, faults,
}
use dumbos_platform_system_c.Wiphy.Info.{BandInfo}
use dumbos_platform_system_c.Scanner.State.{enodev, Scanner}

-- scanning/pno_network.h.
pub record PnoNetwork : Type 0 where
  pub is_hidden : Bool
  pub ssid : Bytes
  pub frequencies : List ℕ

-- scanning/pno_settings.h.
pub record PnoSettings : Type 0 where
  pub interval_ms : ℕ
  pub min_2g_rssi : ℕ
  pub min_5g_rssi : ℕ
  pub min_6g_rssi : ℕ
  pub scan_iterations : ℕ
  pub scan_interval_multiplier : ℕ
  pub pno_networks : List PnoNetwork

-- scanning/scan_utils.h: SchedScanIntervalSetting, with its plans as (interval_ms, n_iterations).
pub record SchedScanIntervalSetting : Type 0 where
  pub plans : List (ℕ × ℕ)
  pub final_interval_ms : ℕ

pub record SchedScanReqFlags : Type 0 where
  pub request_random_mac : Bool
  pub request_low_power : Bool
  pub request_sched_scan_relative_rssi : Bool

-- The arguments of ScanUtils::StartScheduledScan.
pub record SchedScanParams : Type 0 where
  pub interface_index : ℕ
  pub interval_setting : SchedScanIntervalSetting
  pub min_2g_rssi : ℕ
  pub min_5g_rssi : ℕ
  pub min_6g_rssi : ℕ
  pub req_flags : SchedScanReqFlags
  pub scan_ssids : List Bytes
  pub match_ssids : List Bytes
  pub freqs : List ℕ

abbrev pub contains : ℕ → List ℕ → Bool
contains f [] = false
contains f (g ∷ l) = (g == f) || contains f l

-- std::set<int32_t>::insert, on the ordered list of the members.
abbrev pub set_insert : ℕ → List ℕ → List ℕ
set_insert f [] = f ∷ []
set_insert f (g ∷ l) = if f == g then g ∷ l else if ltb f g then f ∷ g ∷ l else g ∷ set_insert f l

-- Membership in `all_freqs`, the set of all bands' frequencies.
abbrev pub in_all_freqs : BandInfo → ℕ → Bool
in_all_freqs bands f =
    contains f bands.band_2g
    || (contains f bands.band_5g
        || (contains f bands.band_dfs || (contains f bands.band_6g || contains f bands.band_60g)))

-- What the loop of ParsePnoSettings collects.
pub record Parsed : Type 0 where
  pub scan_ssids : List Bytes
  pub match_ssids : List Bytes
  pub unique_frequencies : List ℕ
  pub num_networks_no_freqs : ℕ

-- `for (frequency : frequencies) if (supported(frequency)) unique_frequencies.insert(frequency);`
unfoldable pub insert_supported : (ℕ → Bool) → List ℕ → List ℕ → List ℕ
insert_supported supported [] unique = unique
insert_supported supported (f ∷ fs) unique =
    insert_supported supported fs (if supported f then set_insert f unique else unique)

-- The part of the loop's body behind the hidden network's ssid.
unfoldable pub match_network : ℕ → BandInfo → PnoNetwork → Parsed → Parsed
match_network max_match_sets bands network p =
    if ltb max_match_sets (length p.match_ssids + 1) then p else record p {
      match_ssids = p.match_ssids ++ network.ssid ∷ [];
      unique_frequencies =
          insert_supported (in_all_freqs bands) network.frequencies p.unique_frequencies;
      num_networks_no_freqs =
          if is_empty network.frequencies
          then p.num_networks_no_freqs + 1
          else p.num_networks_no_freqs;
    }

-- The body of the loop.
unfoldable pub parse_network : ℕ → ℕ → BandInfo → PnoNetwork → Parsed → Parsed
parse_network max_sched max_match_sets bands network p =
    if network.is_hidden
    then (if ltb max_sched (length p.scan_ssids + 1)
        then p
        else match_network max_match_sets bands network
            (record p { scan_ssids = p.scan_ssids ++ network.ssid ∷ [] }))
    else match_network max_match_sets bands network p

unfoldable pub parse_networks : ℕ → ℕ → BandInfo → List PnoNetwork → Parsed → Parsed
parse_networks max_sched max_match_sets bands [] p = p
parse_networks max_sched max_match_sets bands (n ∷ ns) p =
    parse_networks max_sched max_match_sets bands ns
      (parse_network max_sched max_match_sets bands n p)

abbrev pub pno_scan_default_freqs_2g : List ℕ
pno_scan_default_freqs_2g = 2412 ∷ 2417 ∷ 2422 ∷ 2427 ∷ 2432 ∷ 2437 ∷ 2447 ∷ 2452 ∷ 2457 ∷ 2462 ∷ []

abbrev pub pno_scan_default_freqs_5g : List ℕ
pno_scan_default_freqs_5g = 5180 ∷ 5200 ∷ 5220 ∷ 5240 ∷ 5745 ∷ 5765 ∷ 5785 ∷ 5805 ∷ []

-- The default frequencies, when more than kPercentNetworksWithFreq (30) of the networks have none.
unfoldable pub add_default_freqs : BandInfo → Parsed → Parsed
add_default_freqs bands p =
    if ltb (30 * length p.match_ssids) (p.num_networks_no_freqs * 100)
    then record p {
      unique_frequencies =
          insert_supported (λ f. contains f bands.band_5g) pno_scan_default_freqs_5g
            (insert_supported (λ f. contains f bands.band_2g) pno_scan_default_freqs_2g
              p.unique_frequencies);
    }
    else p

-- ParsePnoSettings, from the wildcard ssid that StartPnoScanDefault puts in front.
unfoldable pub parse_pno_settings : BandInfo → PnoSettings → Scanner → Parsed
parse_pno_settings bands settings s = add_default_freqs bands (
    parse_networks s.scan_capabilities.max_num_sched_scan_ssids s.scan_capabilities.max_match_sets
      bands settings.pno_networks
      (record {
        scan_ssids = [] ∷ [];
        match_ssids = [];
        unique_frequencies = [];
        num_networks_no_freqs = 0;
      }))

-- GenerateIntervalSetting; the product of the interval limit by 1000 is a uint32_t.
unfoldable pub generate_interval_setting : PnoSettings → Scanner → SchedScanIntervalSetting
generate_interval_setting settings s =
    let fast = u32 settings.interval_ms in
    if leb 2 s.scan_capabilities.max_num_scan_plans
      && (leb (settings.interval_ms * settings.scan_interval_multiplier)
            (u32 (s.scan_capabilities.max_scan_plan_interval * 1000))
          && leb settings.scan_iterations s.scan_capabilities.max_scan_plan_iterations)
    then record {
      plans = (fast, settings.scan_iterations) ∷ [];
      final_interval_ms = u32 (fast * settings.scan_interval_multiplier);
    }
    else record { plans = []; final_interval_ms = fast }

-- The request that StartPnoScanDefault sends.
abbrev pub sched_scan_params : BandInfo → Bool → PnoSettings → Scanner → SchedScanParams
sched_scan_params bands is_associated settings s =
    let parsed = parse_pno_settings bands settings s in
    record {
      interface_index = s.interface_index;
      interval_setting = generate_interval_setting settings s;
      min_2g_rssi = settings.min_2g_rssi;
      min_5g_rssi = settings.min_5g_rssi;
      min_6g_rssi = settings.min_6g_rssi;
      req_flags = record {
        request_random_mac = s.wiphy_features.supports_random_mac_sched_scan && not is_associated;
        request_low_power = s.wiphy_features.supports_low_power_oneshot_scan;
        request_sched_scan_relative_rssi = s.wiphy_features.supports_ext_sched_scan_relative_rssi;
      };
      scan_ssids = parsed.scan_ssids;
      match_ssids = parsed.match_ssids;
      freqs = parsed.unique_frequencies;
    }

-- What follows the answer of ScanUtils::StartScheduledScan.
unfoldable pub after_start : Scanner → Bool × ℕ → Outcome (Scanner × Bool)
after_start s (done, error_code) =
    let counter = if error_code == enodev then s.nodev_counter + 1 else s.nodev_counter in
    if done
    then ok (record s { nodev_counter = 0; pno_scan_started = true }, true)
    else if not (error_code == enodev) || leb counter 3
    then ok (record s { nodev_counter = counter }, false)
    else faults

-- startPnoScan and StartPnoScanDefault.
unfoldable pub start_pno_scan :
    (SchedScanParams → Bool × ℕ)
    → BandInfo
    → Bool
    → PnoSettings
    → Scanner
    → Outcome (Scanner × Bool)
start_pno_scan kernel bands is_associated settings s =
    if not s.valid
    then ok (s, false)
    else after_start s (kernel (sched_scan_params bands is_associated settings s))

-- stopPnoScan and StopPnoScanDefault, from what ScanUtils::StopScheduledScan returns.
unfoldable pub stop_pno_scan : (ℕ → Bool) → Scanner → Scanner × Bool
stop_pno_scan kernel s =
    if not s.valid
    then (s, false)
    else if not (kernel s.interface_index)
    then (s, false)
    else (record s { pno_scan_started = false }, true)
