-- ===== src/Wiphy/Parse.antt =====
-- net/netlink_utils.cpp: ParseWiphyInfoFromPacket and its parts.
use dumbos_platform_system_c.Base.{
  ℕ, ◌/◌, ◌%◌, ◌^◌, Bool, true, false, not, Option, none, some, List, [], ◌∷◌, ◌==◌, leb,
  if◌then◌else◌, length, get_or, Bytes, has_bits, Outcome, ok, fails, ◌>>=◌, attempt, or_default,
}
use dumbos_platform_system_c.Nl80211.{
  attr_wiphy_bands, band_attr_freqs, band_attr_ht_capa, band_attr_vht_capa, band_attr_iftype_data,
  attr_max_num_scan_ssids, attr_max_num_sched_scan_ssids, attr_max_num_sched_scan_plans,
  attr_max_scan_plan_interval, attr_max_scan_plan_iterations, attr_max_match_sets,
  attr_feature_flags, attr_ext_features, cmd_new_wiphy, feature_scan_random_mac_addr,
  feature_sched_scan_random_mac_addr, ext_feature_low_span_scan, ext_feature_low_power_scan,
  ext_feature_high_accuracy_scan, ext_feature_sched_scan_relative_rssi,
}
use dumbos_platform_system_c.Attribute
use dumbos_platform_system_c.Attribute.{
  payload, is_valid, has_attribute_impl, get_list_of_attributes,
}
use dumbos_platform_system_c.Packet
use dumbos_platform_system_c.Packet.{get_command}
use dumbos_platform_system_c.Wiphy.Info.{BandInfo, new_band_info, ScanCapabilities, WiphyFeatures}
use dumbos_platform_system_c.Wiphy.Streams.{parse_ht_vht_phy_capabilities}
use dumbos_platform_system_c.Wiphy.Bands.{
  handle_band_freq_attributes, parse_if_type_data_attributes,
}

-- `if (band.GetAttribute(id, &attr)) f(attr, info);`
abbrev pub with_nested :
    Option Bytes → (Bytes → BandInfo → Outcome BandInfo) → BandInfo → Outcome BandInfo
with_nested none f info = ok info
with_nested (some attr) f info = f attr info

-- One round of the loop of ParseBandInfo.
unfoldable pub band_step : Bytes → BandInfo → Outcome BandInfo
band_step band info = do
  freqs ← attempt (Attribute.get_nested (payload band) band_attr_freqs)
  info₁ ← with_nested freqs handle_band_freq_attributes info
  ht ← has_attribute_impl (payload band) band_attr_ht_capa
  let info₂ = if ht then record info₁ { is_80211n_supported = true } else info₁
  vht ← has_attribute_impl (payload band) band_attr_vht_capa
  let info₃ = if vht then record info₂ { is_80211ac_supported = true } else info₂
  iftypes ← attempt (Attribute.get_nested (payload band) band_attr_iftype_data)
  info₄ ← with_nested iftypes parse_if_type_data_attributes info₃
  parse_ht_vht_phy_capabilities band info₄

unfoldable pub band_loop : List Bytes → BandInfo → Outcome BandInfo
band_loop [] info = ok info
band_loop (band ∷ bands) info = do next ← band_step band info; band_loop bands next

-- ParseBandInfo.
unfoldable pub parse_band_info : Bytes → Outcome BandInfo
parse_band_info packet = do
  bands_attr ← Packet.get_nested packet attr_wiphy_bands
  bands ← get_list_of_attributes is_valid bands_attr
  band_loop bands new_band_info

-- ParseScanCapabilities.
unfoldable pub parse_scan_capabilities : Bytes → Outcome ScanCapabilities
parse_scan_capabilities packet = do
  scan_ssids ← Packet.get_int 1 packet attr_max_num_scan_ssids
  sched_scan_ssids ← Packet.get_int 1 packet attr_max_num_sched_scan_ssids
  scan_plans ← or_default 0 (Packet.get_int 4 packet attr_max_num_sched_scan_plans)
  plan_interval ← or_default 0 (Packet.get_int 4 packet attr_max_scan_plan_interval)
  plan_iterations ← or_default 0 (Packet.get_int 4 packet attr_max_scan_plan_iterations)
  match_sets ← Packet.get_int 1 packet attr_max_match_sets
  ok (record {
    max_num_scan_ssids = scan_ssids;
    max_num_sched_scan_ssids = sched_scan_ssids;
    max_match_sets = match_sets;
    max_num_scan_plans = scan_plans;
    max_scan_plan_interval = plan_interval;
    max_scan_plan_iterations = plan_iterations;
  })

-- IsExtFeatureFlagSet.
unfoldable pub is_ext_feature_flag_set : Bytes → ℕ → Bool
is_ext_feature_flag_set bytes flag =
    if leb (length bytes) (flag / 8)
    then false
    else has_bits (get_or bytes (flag / 8) 0) (2 ^ (flag % 8))

-- WiphyFeatures(feature_flags, ext_feature_flags_bytes).
unfoldable pub new_wiphy_features : ℕ → Bytes → WiphyFeatures
unfolding is_ext_feature_flag_set
new_wiphy_features feature_flags bytes = record {
  supports_random_mac_oneshot_scan = has_bits feature_flags feature_scan_random_mac_addr;
  supports_random_mac_sched_scan = has_bits feature_flags feature_sched_scan_random_mac_addr;
  supports_low_span_oneshot_scan = is_ext_feature_flag_set bytes ext_feature_low_span_scan;
  supports_low_power_oneshot_scan = is_ext_feature_flag_set bytes ext_feature_low_power_scan;
  supports_high_accuracy_oneshot_scan =
      is_ext_feature_flag_set bytes ext_feature_high_accuracy_scan;
  supports_tx_mgmt_frame_mcs = false;
  supports_ext_sched_scan_relative_rssi =
      is_ext_feature_flag_set bytes ext_feature_sched_scan_relative_rssi;
}

-- What ParseWiphyInfoFromPacket writes.
pub record WiphyInfo : Type 0 where
  pub band_info : BandInfo
  pub scan_capabilities : ScanCapabilities
  pub wiphy_features : WiphyFeatures

-- ParseWiphyInfoFromPacket.
unfoldable pub parse_wiphy_info_from_packet : Bytes → Outcome WiphyInfo
parse_wiphy_info_from_packet packet =
    if not (get_command packet == cmd_new_wiphy)
    then fails
    else (parse_band_info packet >>= λ bands. parse_scan_capabilities packet >>= λ capabilities.
        Packet.get_int 4 packet attr_feature_flags >>= λ feature_flags.
        or_default [] (Packet.get_raw packet attr_ext_features) >>= λ bytes. ok (record {
          band_info = bands;
          scan_capabilities = capabilities;
          wiphy_features = new_wiphy_features feature_flags bytes;
        }))
