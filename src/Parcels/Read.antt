-- ===== src/Parcels/Read.antt =====
-- The readFromParcel functions, into a new object, whose lists are empty.
use dumbos_platform_system_c.Base.{
  ℕ, zero, suc, not, List, [], ◌∷◌, Option, none, some, length, ltb, ◌==◌, u16, if◌then◌else◌,
  Bytes,
}
use dumbos_platform_system_c.Parcels.Interface.{Parcel}
use dumbos_platform_system_c.Parcels.Write.{DeviceWiphyCapabilities}
use dumbos_platform_system_c.Scanner.State.{ScanType, low_span, low_power, high_accuracy}
use dumbos_platform_system_c.Scanner.Request.{SingleScanSettings}
use dumbos_platform_system_c.Scanner.Pno.{PnoNetwork, PnoSettings}
use dumbos_platform_system_c.Results.{RadioChainInfo, NativeScanResult}

-- A value and the rest of the parcel; `none` is a status other than OK, which ends the function.
infixl 5 ◌>>=◌
abbrev pub ◌>>=◌ {ℓ κ} :
    {R : Type 0} {A : Type ℓ} {B : Type κ}
    → (R → Option (A × R))
    → (A → R → Option (B × R))
    → R
    → Option (B × R)
◌>>=◌ m f r = elim (m r) [ none ↦ none | some (a, r') ↦ f a r' ]

abbrev pub returns {ℓ} : {R : Type 0} {A : Type ℓ} → A → R → Option (A × R)
returns a r = some (a, r)

abbrev pub bad_value {ℓ} : {R : Type 0} {A : Type ℓ} → R → Option (A × R)
bad_value r = none

-- `readInt32()` and `readUint32()` without an output: 0 where the read fails.
abbrev pub or_zero : {R : Type 0} → (R → Option (ℕ × R)) → R → Option (ℕ × R)
or_zero m r = elim (m r) [ none ↦ some (0, r) | some found ↦ some found ]

-- The rounds of `for (int i = 0; i < n; i++)` for the bit pattern of an int32_t.
abbrev pub rounds : ℕ → ℕ
rounds n = if ltb n 2147483648 then n else 0

-- The `scan_type_` that isValidScanType accepts.
unfoldable pub scan_type_of : ℕ → Option ScanType
scan_type_of code =
    if code == 0
    then some low_span
    else if code == 1
    then some low_power
    else if code == 2
    then some high_accuracy
    else none

module _ (P : Parcel) where
  open P use {
    Reading, read_int32, read_uint32, read_int64, read_uint64, read_bool, read_byte_vector,
    read_int32_vector,
  }

  abbrev pub Reader {ℓ} : Type ℓ → Type ℓ
  Reader A = Reading → Option (A × Reading)

  -- The loops over objects behind their leading number.
  unfoldable pub read_objects {ℓ} : {A : Type ℓ} → ℕ → Reader A → Reader (List A)
  read_objects zero read_object r = some ([], r)
  read_objects (suc n) read_object r =
      (read_int32 >>= λ leading_number.
      if not (leading_number == 1)
      then bad_value
      else (read_object >>= λ x. read_objects n read_object >>= λ xs. returns (x ∷ xs)))
        r

  unfoldable pub read_hidden_network : Reader Bytes
  read_hidden_network = read_byte_vector

  unfoldable pub read_channel_settings : Reader ℕ
  read_channel_settings = read_int32

  unfoldable pub read_native_wifi_client : Reader Bytes
  read_native_wifi_client = read_byte_vector

  unfoldable pub read_radio_chain_info : Reader RadioChainInfo
  read_radio_chain_info = do
    chain_id ← read_int32
    level ← read_int32
    returns (record { chain_id = chain_id; level = level })

  -- PnoNetwork.
  unfoldable pub read_pno_network : Reader PnoNetwork
  read_pno_network = do
    is_hidden ← read_int32
    ssid ← read_byte_vector
    frequencies ← read_int32_vector
    returns (record { is_hidden = not (is_hidden == 0); ssid = ssid; frequencies = frequencies })

  -- PnoSettings.
  unfoldable pub read_pno_settings : Reader PnoSettings
  unfolding read_objects read_pno_network
  read_pno_settings = do
    interval_ms ← read_int64
    min_2g_rssi ← read_int32
    min_5g_rssi ← read_int32
    min_6g_rssi ← read_int32
    scan_iterations ← read_uint32
    scan_interval_multiplier ← read_uint32
    num_pno_networks ← read_int32
    pno_networks ← read_objects (rounds num_pno_networks) read_pno_network
    returns (record {
      interval_ms = interval_ms;
      min_2g_rssi = min_2g_rssi;
      min_5g_rssi = min_5g_rssi;
      min_6g_rssi = min_6g_rssi;
      scan_iterations = scan_iterations;
      scan_interval_multiplier = scan_interval_multiplier;
      pno_networks = pno_networks;
    })

  -- SingleScanSettings, behind the scan type.
  unfoldable pub read_settings : Option ScanType → Reader SingleScanSettings
  unfolding read_objects read_channel_settings read_hidden_network
  read_settings none = bad_value
  read_settings (some scan_type) = do
    enable_6ghz_rnr ← read_bool
    num_channels ← read_int32
    channel_settings ← read_objects (rounds num_channels) read_channel_settings
    num_hidden_networks ← read_int32
    hidden_networks ← read_objects (rounds num_hidden_networks) read_hidden_network
    vendor_ies ← read_byte_vector
    returns (record {
      scan_type = scan_type;
      enable_6ghz_rnr = enable_6ghz_rnr;
      channel_settings = channel_settings;
      hidden_networks = hidden_networks;
      vendor_ies = vendor_ies;
    })

  unfoldable pub read_single_scan_settings : Reader SingleScanSettings
  unfolding read_settings scan_type_of
  read_single_scan_settings = read_int32 >>= λ code. read_settings (scan_type_of code)

  -- NativeScanResult.
  unfoldable pub read_native_scan_result : Reader NativeScanResult
  unfolding read_objects read_radio_chain_info
  read_native_scan_result = do
    ssid ← read_byte_vector
    bssid_vec ← read_byte_vector
    bssid ← if not (length bssid_vec == 6) then bad_value else returns bssid_vec
    info_element ← read_byte_vector
    frequency ← read_uint32
    signal_mbm ← read_int32
    tsf ← read_uint64
    capability ← or_zero read_uint32
    associated ← or_zero read_int32
    num_radio_chain_infos ← read_int32
    radio_chain_infos ← read_objects (rounds num_radio_chain_infos) read_radio_chain_info
    returns (record {
      ssid = ssid;
      bssid = bssid;
      info_element = info_element;
      frequency = frequency;
      signal_mbm = signal_mbm;
      tsf = tsf;
      capability = u16 capability;
      associated = not (associated == 0);
      radio_chain_infos = radio_chain_infos;
    })

  -- DeviceWiphyCapabilities.
  unfoldable pub read_device_wiphy_capabilities : Reader DeviceWiphyCapabilities
  read_device_wiphy_capabilities = do
    is80211n_supported ← read_bool
    is80211ac_supported ← read_bool
    is80211ax_supported ← read_bool
    is80211be_supported ← read_bool
    is160_mhz_supported ← read_bool
    is80p80_mhz_supported ← read_bool
    is320_mhz_supported ← read_bool
    max_tx_streams ← read_uint32
    max_rx_streams ← read_uint32
    returns (record {
      is80211n_supported = is80211n_supported;
      is80211ac_supported = is80211ac_supported;
      is80211ax_supported = is80211ax_supported;
      is80211be_supported = is80211be_supported;
      is160_mhz_supported = is160_mhz_supported;
      is80p80_mhz_supported = is80p80_mhz_supported;
      is320_mhz_supported = is320_mhz_supported;
      max_tx_streams = max_tx_streams;
      max_rx_streams = max_rx_streams;
    })
