-- ===== src/Examples/Parcels.antt =====
-- A parcel as the list of its values, and concrete parcelables.
use dumbos_platform_system_c.Base.{
  ℕ, ◌≡◌, refl, arith, true, false, List, [], ◌∷◌, ◌++◌, Option, none, some, Bool, Bytes,
}
use dumbos_platform_system_c.Parcels.Interface.{
  Item, int32, uint32, int64, uint64, bool, byte_vector, int32_vector, Parcel, ParcelLaws,
}
use dumbos_platform_system_c.Parcels.Write.{
  write_pno_settings, write_single_scan_settings, write_native_scan_result, scan_type_code,
}
use dumbos_platform_system_c.Parcels.Read.{
  read_pno_settings, read_single_scan_settings, read_native_scan_result,
}
use dumbos_platform_system_c.Parcels.Settings.{
  read_pno_settings-write, read_single_scan_settings-write,
}
use dumbos_platform_system_c.Parcels.Results.{FitsParcel, read_native_scan_result-write}
use dumbos_platform_system_c.Scanner.State.{low_power}
use dumbos_platform_system_c.Scanner.Request.{SingleScanSettings}
use dumbos_platform_system_c.Scanner.Pno.{PnoSettings}
use dumbos_platform_system_c.Results.{NativeScanResult}

abbrev take_int32 : List Item → Option (ℕ × List Item)
take_int32 (int32 v ∷ l) = some (v, l)
take_int32 l = none

abbrev take_uint32 : List Item → Option (ℕ × List Item)
take_uint32 (uint32 v ∷ l) = some (v, l)
take_uint32 l = none

abbrev take_int64 : List Item → Option (ℕ × List Item)
take_int64 (int64 v ∷ l) = some (v, l)
take_int64 l = none

abbrev take_uint64 : List Item → Option (ℕ × List Item)
take_uint64 (uint64 v ∷ l) = some (v, l)
take_uint64 l = none

abbrev take_bool : List Item → Option (Bool × List Item)
take_bool (bool v ∷ l) = some (v, l)
take_bool l = none

abbrev take_byte_vector : List Item → Option (Bytes × List Item)
take_byte_vector (byte_vector v ∷ l) = some (v, l)
take_byte_vector l = none

abbrev take_int32_vector : List Item → Option (List ℕ × List Item)
take_int32_vector (int32_vector v ∷ l) = some (v, l)
take_int32_vector l = none

abbrev items_parcel : Parcel
items_parcel = record {
  Writing = List Item;
  Reading = List Item;
  write = λ i p. some (p ++ i ∷ []);
  start = λ p. p;
  read_int32 = take_int32;
  read_uint32 = take_uint32;
  read_int64 = take_int64;
  read_uint64 = take_uint64;
  read_bool = take_bool;
  read_byte_vector = take_byte_vector;
  read_int32_vector = take_int32_vector;
}

abbrev items_laws : ParcelLaws items_parcel
items_laws = record {
  Holds = λ p l. p ≡ l;
  Ahead = λ r l. r ≡ l;
  write_holds = λ i p l h. (p ++ i ∷ [], refl, rw h refl);
  start_ahead = λ p l h. h;
  finds_int32 = λ v r l a. (l, rw a refl, refl);
  finds_uint32 = λ v r l a. (l, rw a refl, refl);
  finds_int64 = λ v r l a. (l, rw a refl, refl);
  finds_uint64 = λ v r l a. (l, rw a refl, refl);
  finds_bool = λ v r l a. (l, rw a refl, refl);
  finds_byte_vector = λ v r l a. (l, rw a refl, refl);
  finds_int32_vector = λ v r l a. (l, rw a refl, refl);
}

abbrev pno_settings : PnoSettings
pno_settings = record {
  interval_ms = 20000;
  min_2g_rssi = 4294967216;
  min_5g_rssi = 4294967219;
  min_6g_rssi = 4294967219;
  scan_iterations = 3;
  scan_interval_multiplier = 3;
  pno_networks =
      record { is_hidden = true; ssid = 97 ∷ 98 ∷ []; frequencies = 2412 ∷ [] }
      ∷ record { is_hidden = false; ssid = 99 ∷ []; frequencies = [] }
      ∷ [];
}

read_pno_settings-write_example :
    (q : List Item) × (r : List Item) × (write_pno_settings items_parcel pno_settings [] ≡ some q)
    × (read_pno_settings items_parcel q ≡ some (pno_settings, r))
read_pno_settings-write_example =
    read_pno_settings-write items_parcel items_laws pno_settings [] refl (omega arith)

abbrev settings : SingleScanSettings
settings = record {
  scan_type = low_power;
  enable_6ghz_rnr = true;
  channel_settings = 2412 ∷ 5180 ∷ [];
  hidden_networks = (97 ∷ 98 ∷ []) ∷ [];
  vendor_ies = 221 ∷ 0 ∷ [];
}

settings_code : scan_type_code settings.scan_type ≡ some 1
unfolding scan_type_code
settings_code = refl

read_single_scan_settings-write_example :
    (q : List Item) × (r : List Item) × (write_single_scan_settings items_parcel settings []
      ≡ some q)
    × (read_single_scan_settings items_parcel q ≡ some (settings, r))
read_single_scan_settings-write_example =
    read_single_scan_settings-write items_parcel items_laws settings 1 [] refl settings_code
      (omega arith) (omega arith)

abbrev scan_result : NativeScanResult
scan_result = record {
  ssid = 97 ∷ 98 ∷ [];
  bssid = 2 ∷ 0 ∷ 0 ∷ 0 ∷ 0 ∷ 1 ∷ [];
  info_element = 0 ∷ 2 ∷ 97 ∷ 98 ∷ [];
  frequency = 5180;
  signal_mbm = 4294961296;
  tsf = 123456789;
  capability = 1041;
  associated = true;
  radio_chain_infos = record { chain_id = 0; level = 4294967236 } ∷ [];
}

scan_result-FitsParcel : FitsParcel scan_result
scan_result-FitsParcel = record {
  bssid_fits = refl;
  capability_fits = omega arith;
  chains_fit = omega arith;
}

read_native_scan_result-write_example :
    (q : List Item) × (r : List Item) × (write_native_scan_result items_parcel scan_result []
      ≡ some q)
    × (read_native_scan_result items_parcel q ≡ some (scan_result, r))
read_native_scan_result-write_example =
    read_native_scan_result-write items_parcel items_laws scan_result [] refl scan_result-FitsParcel
