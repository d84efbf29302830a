-- ===== src/Server/BandMap.antt =====
-- The map from bands to the wiphy that serves them, and the channel queries that read it.
use dumbos_platform_system_c.Base.{
  ℕ, Bool, true, false, not, ◌&&◌, List, [], ◌∷◌, Option, none, some, ◌==◌, is_empty, if◌then◌else◌,
}
use dumbos_platform_system_c.Base.Assoc.{lookup, insert}
use dumbos_platform_system_c.Nl80211.{band_2ghz, band_5ghz, band_6ghz, band_60ghz}
use dumbos_platform_system_c.Wiphy.Info.{BandInfo}
use dumbos_platform_system_c.Server.State.{Server}

abbrev pub is_absent : Option ℕ → Bool
is_absent none = true
is_absent (some w) = false

-- `if (frequencies.size() != 0 && map.find(band) == map.end()) map[band] = wiphy_index;`
abbrev pub claim_band : ℕ → ℕ → List ℕ → List (ℕ × ℕ) → List (ℕ × ℕ)
claim_band band wiphy_index frequencies m =
    if not (is_empty frequencies) && is_absent (lookup band m) then insert band wiphy_index m else m

-- The five tests of UpdateBandWiphyIndexMap, in order.
unfoldable pub claim_bands : ℕ → BandInfo → List (ℕ × ℕ) → List (ℕ × ℕ)
claim_bands wiphy_index info m = claim_band band_60ghz wiphy_index info.band_60g (
    claim_band band_6ghz wiphy_index info.band_6g (
      claim_band band_5ghz wiphy_index info.band_dfs (
        claim_band band_5ghz wiphy_index info.band_5g
          (claim_band band_2ghz wiphy_index info.band_2g m))))

-- GetBandInfo, from what GetWiphyInfo answers for a wiphy.
abbrev pub get_band_info : (ℕ → Option BandInfo) → Option ℕ → Option BandInfo
get_band_info wiphy_info none = none
get_band_info wiphy_info (some wiphy_index) = wiphy_info wiphy_index

abbrev pub update_map : Option BandInfo → ℕ → List (ℕ × ℕ) → List (ℕ × ℕ)
update_map none wiphy_index m = m
update_map (some info) wiphy_index m = claim_bands wiphy_index info m

-- UpdateBandWiphyIndexMap.
unfoldable pub update_band_wiphy_index_map : (ℕ → Option BandInfo) → ℕ → Server → Server
unfolding claim_bands
update_band_wiphy_index_map wiphy_info wiphy_index s = record s {
  band_to_wiphy_index_map =
      update_map (get_band_info wiphy_info (some wiphy_index)) wiphy_index
        s.band_to_wiphy_index_map;
}

-- The loop of EraseBandWiphyIndexMap.
unfoldable pub erase_wiphy : ℕ → List (ℕ × ℕ) → List (ℕ × ℕ)
erase_wiphy wiphy_index [] = []
erase_wiphy wiphy_index ((band, w) ∷ m) =
    let rest = erase_wiphy wiphy_index m in if w == wiphy_index then rest else (band, w) ∷ rest

-- EraseBandWiphyIndexMap.
unfoldable pub erase_band_wiphy_index_map : ℕ → Server → Server
unfolding erase_wiphy
erase_band_wiphy_index_map wiphy_index s = record s {
  band_to_wiphy_index_map = erase_wiphy wiphy_index s.band_to_wiphy_index_map;
}

-- GetWiphyIndexFromBand and FindWiphyIndex; `none` is -1.
abbrev pub get_wiphy_index_from_band : ℕ → Server → Option ℕ
get_wiphy_index_from_band band s = lookup band s.band_to_wiphy_index_map

abbrev pub find_wiphy_index : ℕ → Server → Option ℕ
find_wiphy_index iface_name s = lookup iface_name s.iface_to_wiphy_index_map

-- `if (size() == 0) out_frequencies->reset(); else out_frequencies->emplace(...);`
abbrev pub non_empty : List ℕ → Option (List ℕ)
non_empty [] = none
non_empty (f ∷ fs) = some (f ∷ fs)

abbrev pub available : (BandInfo → List ℕ) → Option BandInfo → Option (List ℕ)
available band none = none
available band (some info) = non_empty (band info)

-- getAvailable2gChannels and its four siblings.
unfoldable pub get_available_2g_channels : (ℕ → Option BandInfo) → Server → Option (List ℕ)
get_available_2g_channels wiphy_info s =
    available (λ i. i.band_2g) (get_band_info wiphy_info (get_wiphy_index_from_band band_2ghz s))

unfoldable pub get_available_5g_non_dfs_channels : (ℕ → Option BandInfo) → Server → Option (List ℕ)
get_available_5g_non_dfs_channels wiphy_info s =
    available (λ i. i.band_5g) (get_band_info wiphy_info (get_wiphy_index_from_band band_5ghz s))

unfoldable pub get_available_dfs_channels : (ℕ → Option BandInfo) → Server → Option (List ℕ)
get_available_dfs_channels wiphy_info s =
    available (λ i. i.band_dfs) (get_band_info wiphy_info (get_wiphy_index_from_band band_5ghz s))

unfoldable pub get_available_6g_channels : (ℕ → Option BandInfo) → Server → Option (List ℕ)
get_available_6g_channels wiphy_info s =
    available (λ i. i.band_6g) (get_band_info wiphy_info (get_wiphy_index_from_band band_6ghz s))

unfoldable pub get_available_60g_channels : (ℕ → Option BandInfo) → Server → Option (List ℕ)
get_available_60g_channels wiphy_info s =
    available (λ i. i.band_60g) (get_band_info wiphy_info (get_wiphy_index_from_band band_60ghz s))
