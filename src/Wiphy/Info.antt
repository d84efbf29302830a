-- ===== src/Wiphy/Info.antt =====
-- net/netlink_utils.h: BandInfo, ScanCapabilities and WiphyFeatures.
use dumbos_platform_system_c.Base.{ℕ, List, [], Bool, false}

pub record BandInfo : Type 0 where
  pub band_2g : List ℕ
  pub band_5g : List ℕ
  pub band_dfs : List ℕ
  pub band_6g : List ℕ
  pub band_60g : List ℕ
  pub is_80211n_supported : Bool
  pub is_80211ac_supported : Bool
  pub is_80211ax_supported : Bool
  pub is_80211be_supported : Bool
  pub is_160_mhz_supported : Bool
  pub is_80p80_mhz_supported : Bool
  pub is_320_mhz_supported : Bool
  pub max_tx_streams : ℕ
  pub max_rx_streams : ℕ

-- BandInfo().
abbrev pub new_band_info : BandInfo
new_band_info = record {
  band_2g = [];
  band_5g = [];
  band_dfs = [];
  band_6g = [];
  band_60g = [];
  is_80211n_supported = false;
  is_80211ac_supported = false;
  is_80211ax_supported = false;
  is_80211be_supported = false;
  is_160_mhz_supported = false;
  is_80p80_mhz_supported = false;
  is_320_mhz_supported = false;
  max_tx_streams = 1;
  max_rx_streams = 1;
}

pub record ScanCapabilities : Type 0 where
  pub max_num_scan_ssids : ℕ
  pub max_num_sched_scan_ssids : ℕ
  pub max_match_sets : ℕ
  pub max_num_scan_plans : ℕ
  pub max_scan_plan_interval : ℕ
  pub max_scan_plan_iterations : ℕ

pub record WiphyFeatures : Type 0 where
  pub supports_random_mac_oneshot_scan : Bool
  pub supports_random_mac_sched_scan : Bool
  pub supports_low_span_oneshot_scan : Bool
  pub supports_low_power_oneshot_scan : Bool
  pub supports_high_accuracy_oneshot_scan : Bool
  pub supports_tx_mgmt_frame_mcs : Bool
  pub supports_ext_sched_scan_relative_rssi : Bool
