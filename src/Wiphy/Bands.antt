-- ===== src/Wiphy/Bands.antt =====
-- net/netlink_utils.cpp: the frequencies of a band (handleBandFreqAttributes) and the interface type
-- data (ParseIfTypeDataAttributes).
use dumbos_platform_system_c.Base.{
  ℕ, Bool, true, false, ◌&&◌, ◌||◌, Option, none, some, List, [], ◌∷◌, ◌++◌, ◌==◌, ltb, leb,
  if◌then◌else◌, Bytes, Outcome, ok, ◌>>=◌, attempt,
}
use dumbos_platform_system_c.Nl80211.{
  frequency_attr_freq, frequency_attr_disabled, frequency_attr_dfs_state, frequency_attr_no_ir,
  dfs_available, dfs_usable, band_iftype_attr_he_cap_phy, band_iftype_attr_he_cap_mcs_set,
  band_iftype_attr_eht_cap_phy,
}
use dumbos_platform_system_c.Attribute.{
  payload, is_valid, get_int, has_attribute_impl, get_list_of_attributes,
}
use dumbos_platform_system_c.Wiphy.Info.{BandInfo}
use dumbos_platform_system_c.Wiphy.Streams.{
  parse_he_cap_phy_attribute, parse_he_mcs_set_attribute, parse_eht_cap_phy_attribute,
}

-- A 5 GHz frequency: in the DFS list if its DFS state is available or usable, or if it is passive-only.
unfoldable pub place_5g : ℕ → Option ℕ → Bool → BandInfo → BandInfo
place_5g f none no_ir info =
    if no_ir
    then record info { band_dfs = info.band_dfs ++ f ∷ [] }
    else record info { band_5g = info.band_5g ++ f ∷ [] }
place_5g f (some dfs_state) no_ir info =
    if (dfs_state == dfs_available) || (dfs_state == dfs_usable)
    then record info { band_dfs = info.band_dfs ++ f ∷ [] }
    else if no_ir
    then record info { band_dfs = info.band_dfs ++ f ∷ [] }
    else record info { band_5g = info.band_5g ++ f ∷ [] }

-- The ladder of ranges for one enabled frequency.
unfoldable pub place : ℕ → Bytes → BandInfo → Outcome BandInfo
unfolding place_5g
place f freq info =
    if ltb 2400 f && ltb f 2500
    then ok (record info { band_2g = info.band_2g ++ f ∷ [] })
    else if ltb 5000 f && leb f 5885
    then (attempt (get_int 4 (payload freq) frequency_attr_dfs_state) >>= λ dfs.
        has_attribute_impl (payload freq) frequency_attr_no_ir >>= λ no_ir.
        ok (place_5g f dfs no_ir info))
    else if ltb 5925 f && ltb f 7125
    then ok (record info { band_6g = info.band_6g ++ f ∷ [] })
    else if leb 58320 f && ltb f 70200
    then ok (record info { band_60g = info.band_60g ++ f ∷ [] })
    else ok info

unfoldable pub use_freq : Option ℕ → Bytes → BandInfo → Outcome BandInfo
use_freq none freq info = ok info
use_freq (some f) freq info = do
  disabled ← has_attribute_impl (payload freq) frequency_attr_disabled
  if disabled then ok info else place f freq info

-- One round of the loop over the frequencies.
unfoldable pub freq_step : Bytes → BandInfo → Outcome BandInfo
unfolding use_freq
freq_step freq info = do
  f ← attempt (get_int 4 (payload freq) frequency_attr_freq)
  use_freq f freq info

unfoldable pub freq_loop : List Bytes → BandInfo → Outcome BandInfo
freq_loop [] info = ok info
freq_loop (freq ∷ freqs) info = do next ← freq_step freq info; freq_loop freqs next

unfoldable pub freqs_or_none : Option (List Bytes) → BandInfo → Outcome BandInfo
freqs_or_none none info = ok info
freqs_or_none (some freqs) info = freq_loop freqs info

-- handleBandFreqAttributes.
unfoldable pub handle_band_freq_attributes : Bytes → BandInfo → Outcome BandInfo
unfolding freqs_or_none
handle_band_freq_attributes freqs_attr info = do
  freqs ← attempt (get_list_of_attributes is_valid freqs_attr)
  freqs_or_none freqs info

-- `if (attr.HasAttribute(id)) { ... }`.
abbrev pub when : Bool → (BandInfo → Outcome BandInfo) → BandInfo → Outcome BandInfo
when true f info = f info
when false f info = ok info

unfoldable pub use_iftype : Bytes → BandInfo → Outcome BandInfo
use_iftype attr info = do
  he ← has_attribute_impl (payload attr) band_iftype_attr_he_cap_phy
  info₁ ←
      when he (λ i. parse_he_cap_phy_attribute attr (record i { is_80211ax_supported = true })) info
  mcs ← has_attribute_impl (payload attr) band_iftype_attr_he_cap_mcs_set
  info₂ ← when mcs (parse_he_mcs_set_attribute attr) info₁
  eht ← has_attribute_impl (payload attr) band_iftype_attr_eht_cap_phy
  when eht (λ i. parse_eht_cap_phy_attribute attr (record i { is_80211be_supported = true })) info₂

unfoldable pub first_iftype : Option (List Bytes) → BandInfo → Outcome BandInfo
first_iftype none info = ok info
first_iftype (some []) info = ok info
first_iftype (some (attr ∷ rest)) info = use_iftype attr info

-- ParseIfTypeDataAttributes: only the first interface type is read.
unfoldable pub parse_if_type_data_attributes : Bytes → BandInfo → Outcome BandInfo
unfolding first_iftype
parse_if_type_data_attributes iftype_data_attr info = do
  attrs ← attempt (get_list_of_attributes is_valid iftype_data_attr)
  first_iftype attrs info
