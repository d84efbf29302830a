-- ===== src/Scanner/State.antt =====
-- The members of ScannerImpl, its constructor, and the values of IWifiScannerImpl.
use dumbos_platform_system_c.Base.{
  ℕ, Bool, true, false, Option, none, ◌==◌, if◌then◌else◌, Outcome, ok, faults,
}
use dumbos_platform_system_c.Wiphy.Info.{ScanCapabilities, WiphyFeatures}
use dumbos_platform_system_c.Manager.State.{Manager, scan_result, sched_scan_result, subscribe}

-- aidl/android/net/wifi/nl80211/IWifiScannerImpl.aidl: SCAN_TYPE_*, and any other integer.
pub data ScanType : Type 0 where
  low_span low_power high_accuracy default other : ScanType

-- SCAN_STATUS_*.
pub data ScanStatus : Type 0 where
  success failed_generic failed_busy failed_abort failed_nodev failed_invalid_args : ScanStatus

-- errno values that the code tests.
abbrev pub einval : ℕ
einval = 22

abbrev pub ebusy : ℕ
ebusy = 16

abbrev pub enodev : ℕ
enodev = 19

-- A callback object is known by its binder. pno_settings_ is written and never read.
pub record Scanner : Type 0 where
  pub valid : Bool
  pub scan_started : Bool
  pub pno_scan_started : Bool
  pub nodev_counter : ℕ
  pub interface_index : ℕ
  pub scan_capabilities : ScanCapabilities
  pub wiphy_features : WiphyFeatures
  pub pno_scan_event_handler : Option ℕ
  pub scan_event_handler : Option ℕ

-- ScannerImpl::ScannerImpl; `handler` names the two functions that it binds.
unfoldable pub new_scanner : ℕ → ℕ → ScanCapabilities → WiphyFeatures → Manager → Scanner × Manager
new_scanner interface_index handler capabilities features m = (
  record {
    valid = true;
    scan_started = false;
    pno_scan_started = false;
    nodev_counter = 0;
    interface_index = interface_index;
    scan_capabilities = capabilities;
    wiphy_features = features;
    pno_scan_event_handler = none;
    scan_event_handler = none;
  },
  subscribe sched_scan_result interface_index handler
      (subscribe scan_result interface_index handler m),
)

-- IsScanTypeSupported: any type but the three fails a CHECK.
unfoldable pub is_scan_type_supported : ScanType → WiphyFeatures → Outcome Bool
is_scan_type_supported low_span features = ok features.supports_low_span_oneshot_scan
is_scan_type_supported low_power features = ok features.supports_low_power_oneshot_scan
is_scan_type_supported high_accuracy features = ok features.supports_high_accuracy_oneshot_scan
is_scan_type_supported default features = faults
is_scan_type_supported other features = faults

-- convertStdErrNumToScanStatus.
unfoldable pub convert_std_err_num_to_scan_status : ℕ → ScanStatus
convert_std_err_num_to_scan_status err_num =
    if err_num == einval
    then failed_invalid_args
    else if err_num == ebusy
    then failed_busy
    else if err_num == enodev
    then failed_nodev
    else failed_generic
