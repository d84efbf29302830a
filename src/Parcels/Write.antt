-- ===== src/Parcels/Write.antt =====
-- The writeToParcel functions. A failed write ends the function with its status (RETURN_IF_FAILED).
use dumbos_platform_system_c.Base.{
  ℕ, Bool, List, [], ◌∷◌, Option, none, some, length, u32, if◌then◌else◌, Bytes,
}
use dumbos_platform_system_c.Parcels.Interface.{
  int32, uint32, int64, uint64, bool, byte_vector, int32_vector, Parcel,
}
use dumbos_platform_system_c.Scanner.State.{
  ScanType, low_span, low_power, high_accuracy, default, other,
}
use dumbos_platform_system_c.Scanner.Request.{SingleScanSettings}
use dumbos_platform_system_c.Scanner.Pno.{PnoNetwork, PnoSettings}
use dumbos_platform_system_c.Results.{RadioChainInfo, NativeScanResult}

infixl 5 ◌>>◌
abbrev pub ◌>>◌ : {W : Type 0} → (W → Option W) → (W → Option W) → W → Option W
◌>>◌ m k p = elim (m p) [ none ↦ none | some q ↦ k q ]

-- device_wiphy_capabilities.h.
pub record DeviceWiphyCapabilities : Type 0 where
  pub is80211n_supported : Bool
  pub is80211ac_supported : Bool
  pub is80211ax_supported : Bool
  pub is80211be_supported : Bool
  pub is160_mhz_supported : Bool
  pub is80p80_mhz_supported : Bool
  pub is320_mhz_supported : Bool
  pub max_tx_streams : ℕ
  pub max_rx_streams : ℕ

-- The values of IWifiScannerImpl for the types that isValidScanType accepts.
unfoldable pub scan_type_code : ScanType → Option ℕ
scan_type_code low_span = some 0
scan_type_code low_power = some 1
scan_type_code high_accuracy = some 2
scan_type_code default = none
scan_type_code other = none

module _ (P : Parcel) where
  open P use {Writing, write}

  abbrev pub Writer : Type 0
  Writer = Writing → Option Writing

  -- A loop that writes objects as Java's readTypedList() wants them.
  unfoldable pub write_objects {ℓ} : {A : Type ℓ} → (A → Writer) → List A → Writer
  write_objects write_object [] p = some p
  write_objects write_object (x ∷ xs) p =
      (write (int32 1) >> write_object x >> write_objects write_object xs) p

  -- HiddenNetwork, ChannelSettings, NativeWifiClient and RadioChainInfo.
  unfoldable pub write_hidden_network : Bytes → Writer
  write_hidden_network ssid = write (byte_vector ssid)

  unfoldable pub write_channel_settings : ℕ → Writer
  write_channel_settings frequency = write (int32 frequency)

  unfoldable pub write_native_wifi_client : Bytes → Writer
  write_native_wifi_client mac_address = write (byte_vector mac_address)

  unfoldable pub write_radio_chain_info : RadioChainInfo → Writer
  write_radio_chain_info info = write (int32 info.chain_id) >> write (int32 info.level)

  -- PnoNetwork.
  unfoldable pub write_pno_network : PnoNetwork → Writer
  write_pno_network network =
      write (int32 (if network.is_hidden then 1 else 0))
      >> write (byte_vector network.ssid)
      >> write (int32_vector network.frequencies)

  -- PnoSettings.
  unfoldable pub write_pno_settings : PnoSettings → Writer
  unfolding write_objects write_pno_network
  write_pno_settings s =
      write (int64 s.interval_ms)
      >> write (int32 s.min_2g_rssi)
      >> write (int32 s.min_5g_rssi)
      >> write (int32 s.min_6g_rssi)
      >> write (uint32 s.scan_iterations)
      >> write (uint32 s.scan_interval_multiplier)
      >> write (int32 (u32 (length s.pno_networks)))
      >> write_objects write_pno_network s.pno_networks

  -- SingleScanSettings, once its scan type has a code.
  unfoldable pub write_settings : ℕ → SingleScanSettings → Writer
  unfolding write_objects write_channel_settings write_hidden_network
  write_settings code s =
      write (int32 code)
      >> write (bool s.enable_6ghz_rnr)
      >> write (int32 (u32 (length s.channel_settings)))
      >> write_objects write_channel_settings s.channel_settings
      >> write (int32 (u32 (length s.hidden_networks)))
      >> write_objects write_hidden_network s.hidden_networks
      >> write (byte_vector s.vendor_ies)

  unfoldable pub write_single_scan_settings : SingleScanSettings → Writer
  unfolding write_settings scan_type_code
  write_single_scan_settings s p = elim (scan_type_code s.scan_type) [
    | none ↦ none
    | some code ↦ write_settings code s p
  ]

  -- NativeScanResult.
  unfoldable pub write_native_scan_result : NativeScanResult → Writer
  unfolding write_objects write_radio_chain_info
  write_native_scan_result s =
      write (byte_vector s.ssid)
      >> write (byte_vector s.bssid)
      >> write (byte_vector s.info_element)
      >> write (uint32 s.frequency)
      >> write (int32 s.signal_mbm)
      >> write (uint64 s.tsf)
      >> write (uint32 s.capability)
      >> write (int32 (if s.associated then 1 else 0))
      >> write (int32 (u32 (length s.radio_chain_infos)))
      >> write_objects write_radio_chain_info s.radio_chain_infos

  -- DeviceWiphyCapabilities.
  unfoldable pub write_device_wiphy_capabilities : DeviceWiphyCapabilities → Writer
  write_device_wiphy_capabilities c =
      write (bool c.is80211n_supported)
      >> write (bool c.is80211ac_supported)
      >> write (bool c.is80211ax_supported)
      >> write (bool c.is80211be_supported)
      >> write (bool c.is160_mhz_supported)
      >> write (bool c.is80p80_mhz_supported)
      >> write (bool c.is320_mhz_supported)
      >> write (uint32 c.max_tx_streams)
      >> write (uint32 c.max_rx_streams)
