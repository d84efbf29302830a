-- ===== src/Scanner/Request.antt =====
-- ScannerImpl: scanRequest, scan, abortScan, getScanResults and getMaxSsidsPerScan.
use dumbos_platform_system_c.Base.{
  ℕ, ◌+◌, Bool, true, false, not, ◌&&◌, ◌||◌, List, [], ◌∷◌, ◌++◌, ◌==◌, ltb, leb, if◌then◌else◌,
  length, Bytes, Outcome, ok, faults, ◌>>=◌,
}
use dumbos_platform_system_c.Scanner.State.{
  ScanType, default, ScanStatus, success, failed_generic, enodev, Scanner, is_scan_type_supported,
  convert_std_err_num_to_scan_status,
}

-- scanning/single_scan_settings.h, with the members of HiddenNetwork and ChannelSettings in place.
pub record SingleScanSettings : Type 0 where
  pub scan_type : ScanType
  pub enable_6ghz_rnr : Bool
  pub channel_settings : List ℕ
  pub hidden_networks : List Bytes
  pub vendor_ies : Bytes

-- The arguments of ScanUtils::Scan.
pub record ScanParams : Type 0 where
  pub interface_index : ℕ
  pub request_random_mac : Bool
  pub scan_type : ScanType
  pub enable_6ghz_rnr : Bool
  pub ssids : List Bytes
  pub freqs : List ℕ
  pub vendor_ies : Bytes

-- The loop over the hidden networks, from the ssids collected so far.
unfoldable pub collect_ssids : ℕ → List Bytes → List Bytes → List Bytes
collect_ssids max_num_scan_ssids [] ssids = ssids
collect_ssids max_num_scan_ssids (ssid ∷ networks) ssids =
    collect_ssids max_num_scan_ssids networks (
      if ltb max_num_scan_ssids (length ssids + 1)
      then ssids
      else if ltb 32 (length ssid)
      then ssids
      else ssids ++ ssid ∷ [])

-- The request that scanRequest sends: `wildcard` is the empty ssid at the front.
abbrev pub scan_params : Scanner → Bool → Bool → SingleScanSettings → ScanParams
scan_params s is_associated type_supported settings = record {
  interface_index = s.interface_index;
  request_random_mac = s.wiphy_features.supports_random_mac_oneshot_scan && not is_associated;
  scan_type = if not type_supported then default else settings.scan_type;
  enable_6ghz_rnr = settings.enable_6ghz_rnr;
  ssids = collect_ssids s.scan_capabilities.max_num_scan_ssids settings.hidden_networks ([] ∷ []);
  freqs = settings.channel_settings;
  vendor_ies = settings.vendor_ies;
}

-- What follows the answer of ScanUtils::Scan: true, or false and the error code.
unfoldable pub after_scan : Scanner → Bool × ℕ → Outcome (Scanner × ScanStatus)
after_scan s (done, error_code) =
    let counter = if error_code == enodev then s.nodev_counter + 1 else s.nodev_counter in
    if done
    then ok (record s { nodev_counter = 0; scan_started = true }, success)
    else if not (error_code == enodev) || leb counter 3
    then ok (record s { nodev_counter = counter }, convert_std_err_num_to_scan_status error_code)
    else faults

-- scanRequest; a failed CHECK ends the process. `kernel` is ScanUtils::Scan.
unfoldable pub scan_request :
    (ScanParams → Bool × ℕ) → Bool → SingleScanSettings → Scanner → Outcome (Scanner × ScanStatus)
scan_request kernel is_associated settings s =
    if not s.valid
    then ok (s, failed_generic)
    else (is_scan_type_supported settings.scan_type s.wiphy_features >>= λ supported.
        after_scan s (kernel (scan_params s is_associated supported settings)))

abbrev is_success : ScanStatus → Bool
is_success success = true
is_success _ = false

-- scan.
unfoldable pub scan :
    (ScanParams → Bool × ℕ) → Bool → SingleScanSettings → Scanner → Outcome (Scanner × Bool)
scan kernel is_associated settings s =
    scan_request kernel is_associated settings s >>= λ r. ok (r.0, is_success r.1)

-- abortScan: whether ScanUtils::AbortScan is called.
unfoldable pub abort_scan : Scanner → Bool
abort_scan s = if not s.valid then false else if not s.scan_started then false else true

-- getScanResults and getPnoScanResults, from what ScanUtils::GetScanResult returns.
unfoldable pub get_scan_results {ℓ} : {A : Type ℓ} → (ℕ → List A) → Scanner → List A
get_scan_results kernel s = if not s.valid then [] else kernel s.interface_index

-- getMaxSsidsPerScan.
unfoldable pub get_max_ssids_per_scan : Scanner → ℕ
get_max_ssids_per_scan s = if not s.valid then 0 else s.scan_capabilities.max_num_scan_ssids
