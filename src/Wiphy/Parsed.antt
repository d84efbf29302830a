-- ===== src/Wiphy/Parsed.antt =====
-- ParseBandInfo and the limits on what it writes: capabilities, interface types, and the loop over bands.
use dumbos_platform_system_c.Base.{
  ℕ, ◌≡◌, Bool, true, false, List, [], ◌∷◌, Option, none, some, arith, Bytes, Outcome, ok, ◌>>=◌,
  >>=-eq-ok, attempt, if◌then◌else◌,
}
use dumbos_platform_system_c.Nl80211.{
  band_iftype_attr_he_cap_phy, band_iftype_attr_he_cap_mcs_set, band_iftype_attr_eht_cap_phy,
  band_attr_freqs, band_attr_ht_capa, band_attr_vht_capa, band_attr_iftype_data, attr_wiphy_bands,
}
use dumbos_platform_system_c.Attribute
use dumbos_platform_system_c.Attribute.{
  payload, is_valid, get_raw, get_int, get_list_of_attributes, has_attribute_impl,
}
use dumbos_platform_system_c.Packet
use dumbos_platform_system_c.Wiphy.Info.{BandInfo, new_band_info}
use dumbos_platform_system_c.Wiphy.Streams.{
  parse_ht_mcs_set_attribute, parse_vht_mcs_set_attribute, parse_he_mcs_set_attribute,
  parse_vht_cap_attribute, parse_he_cap_phy_attribute, parse_eht_cap_phy_attribute,
  parse_ht_vht_phy_capabilities, use_ht_mcs_set, use_vht_mcs_set, use_he_mcs_set, use_vht_cap,
  use_he_cap_phy, use_eht_cap_phy,
}
use dumbos_platform_system_c.Wiphy.Bands.{
  handle_band_freq_attributes, when, use_iftype, first_iftype, parse_if_type_data_attributes,
}
use dumbos_platform_system_c.Wiphy.Parse.{with_nested, band_step, band_loop, parse_band_info}
use dumbos_platform_system_c.Wiphy.Limits.{
  InLimits, use_ht_mcs_set-InLimits, use_vht_mcs_set-InLimits, use_he_mcs_set-InLimits,
  use_vht_cap-InLimits, use_he_cap_phy-InLimits, use_eht_cap_phy-InLimits,
}
use dumbos_platform_system_c.Wiphy.Kept.{
  Keeps, bind-Keeps, pure-Keeps, then-Keeps, ok-Keeps, handle_band_freq_attributes-Keeps,
}

mcs-Keeps :
    (band : Bytes)
    → Keeps (parse_ht_mcs_set_attribute band)
      × Keeps (parse_vht_mcs_set_attribute band)
      × Keeps (parse_he_mcs_set_attribute band)
unfolding parse_ht_mcs_set_attribute parse_vht_mcs_set_attribute parse_he_mcs_set_attribute
mcs-Keeps band = (
  pure-Keeps _ use_ht_mcs_set use_ht_mcs_set-InLimits,
  pure-Keeps _ use_vht_mcs_set use_vht_mcs_set-InLimits,
  pure-Keeps _ use_he_mcs_set use_he_mcs_set-InLimits,
)

cap-Keeps :
    (band : Bytes)
    → Keeps (parse_vht_cap_attribute band)
      × Keeps (parse_he_cap_phy_attribute band)
      × Keeps (parse_eht_cap_phy_attribute band)
unfolding parse_vht_cap_attribute parse_he_cap_phy_attribute parse_eht_cap_phy_attribute
cap-Keeps band = (
  pure-Keeps _ use_vht_cap use_vht_cap-InLimits,
  pure-Keeps _ use_he_cap_phy use_he_cap_phy-InLimits,
  pure-Keeps _ use_eht_cap_phy use_eht_cap_phy-InLimits,
)

parse_ht_vht-Keeps : (band : Bytes) → Keeps (parse_ht_vht_phy_capabilities band)
unfolding parse_ht_vht_phy_capabilities
parse_ht_vht-Keeps band = then-Keeps (parse_ht_mcs_set_attribute band) _ (mcs-Keeps band).0 (
    then-Keeps (parse_vht_mcs_set_attribute band) (parse_vht_cap_attribute band) (mcs-Keeps band).1
      (cap-Keeps band).0)

when-Keeps : (b : Bool) (f : BandInfo → Outcome BandInfo) → Keeps f → Keeps (when b f)
when-Keeps true f k = k
when-Keeps false f k = ok-Keeps

use_iftype-Keeps : (attr : Bytes) → Keeps (use_iftype attr)
unfolding use_iftype
use_iftype-Keeps attr =
    let has = has_attribute_impl (payload attr) in
    let he_cap : BandInfo → Outcome BandInfo =
      λ i. parse_he_cap_phy_attribute attr (record i { is_80211ax_supported = true }) in
    let eht_cap : BandInfo → Outcome BandInfo =
      λ i. parse_eht_cap_phy_attribute attr (record i { is_80211be_supported = true }) in
    let mcs_set : BandInfo → Outcome BandInfo = parse_he_mcs_set_attribute attr in
    let last : BandInfo → Outcome BandInfo =
      λ i. has band_iftype_attr_eht_cap_phy >>= λ eht. when eht eht_cap i in
    let later : BandInfo → Outcome BandInfo =
      λ i. has band_iftype_attr_he_cap_mcs_set >>= λ mcs. when mcs mcs_set i >>= last in
    let last_keeps : Keeps last =
      bind-Keeps (has band_iftype_attr_eht_cap_phy) (λ eht. when eht eht_cap)
        (λ eht. when-Keeps eht eht_cap (λ j o l e. (cap-Keeps attr).2 _ o l e)) in
    let later_keeps : Keeps later =
      bind-Keeps (has band_iftype_attr_he_cap_mcs_set) (λ mcs i. when mcs mcs_set i >>= last)
        (λ mcs.
          then-Keeps (when mcs mcs_set) last (when-Keeps mcs mcs_set (mcs-Keeps attr).2)
            last_keeps) in
    bind-Keeps (has band_iftype_attr_he_cap_phy) (λ he i. when he he_cap i >>= later)
      (λ he.
        then-Keeps (when he he_cap) later
          (when-Keeps he he_cap (λ j o l e. (cap-Keeps attr).1 _ o l e)) later_keeps)

first_iftype-Keeps : (attrs : Option (List Bytes)) → Keeps (first_iftype attrs)
unfolding first_iftype
first_iftype-Keeps none = ok-Keeps
first_iftype-Keeps (some []) = ok-Keeps
first_iftype-Keeps (some (attr ∷ rest)) = use_iftype-Keeps attr

parse_if_type-Keeps : (attr : Bytes) → Keeps (parse_if_type_data_attributes attr)
unfolding parse_if_type_data_attributes
parse_if_type-Keeps attr = bind-Keeps _ first_iftype first_iftype-Keeps

with_nested-Keeps :
    (attr : Option Bytes) (f : Bytes → BandInfo → Outcome BandInfo)
    → ((a : Bytes) → Keeps (f a))
    → Keeps (with_nested attr f)
with_nested-Keeps none f k = ok-Keeps
with_nested-Keeps (some attr) f k = k attr

-- The support for 802.11n and 802.11ac that a band's attributes show.
abbrev with_flags : Bool → Bool → BandInfo → BandInfo
with_flags ht vht i =
    let with_ht = if ht then record i { is_80211n_supported = true } else i in
    if vht then record with_ht { is_80211ac_supported = true } else with_ht

with_flags-InLimits : (ht vht : Bool) (i : BandInfo) → InLimits i → InLimits (with_flags ht vht i)
with_flags-InLimits true true i l = l
with_flags-InLimits true false i l = l
with_flags-InLimits false true i l = l
with_flags-InLimits false false i l = l

band_step-Keeps : (band : Bytes) → Keeps (band_step band)
unfolding band_step
band_step-Keeps band =
    let has = has_attribute_impl (payload band) in
    let nested = λ (id : ℕ). attempt (Attribute.get_nested (payload band) id) in
    let phy = parse_ht_vht_phy_capabilities band in
    let iftype : Bool → Bool → Option Bytes → BandInfo → Outcome BandInfo =
      λ ht vht attrs i. with_nested attrs parse_if_type_data_attributes (with_flags ht vht i) in
    let after : Bool → Bool → BandInfo → Outcome BandInfo =
      λ ht vht i. nested band_attr_iftype_data >>= λ attrs. iftype ht vht attrs i >>= phy in
    let later : BandInfo → Outcome BandInfo =
      λ i. has band_attr_ht_capa >>= λ ht. has band_attr_vht_capa >>= λ vht. after ht vht i in
    let after_keeps = λ (ht vht : Bool).
      bind-Keeps (nested band_attr_iftype_data) (λ attrs i. iftype ht vht attrs i >>= phy)
        (λ attrs.
          then-Keeps (iftype ht vht attrs) phy
            (λ i o l e.
              with_nested-Keeps attrs parse_if_type_data_attributes parse_if_type-Keeps
                (with_flags ht vht i) o (with_flags-InLimits ht vht i l) e)
            (parse_ht_vht-Keeps band)) in
    let later_keeps : Keeps later =
      bind-Keeps (has band_attr_ht_capa) (λ ht i. has band_attr_vht_capa >>= λ vht. after ht vht i)
        (λ ht.
          bind-Keeps (has band_attr_vht_capa) (λ vht. after ht vht) (λ vht. after_keeps ht vht)) in
    bind-Keeps (nested band_attr_freqs)
      (λ freqs i. with_nested freqs handle_band_freq_attributes i >>= later)
      (λ freqs.
        then-Keeps (with_nested freqs handle_band_freq_attributes) later
          (with_nested-Keeps freqs handle_band_freq_attributes handle_band_freq_attributes-Keeps)
          later_keeps)

band_loop-Keeps : (bands : List Bytes) → Keeps (band_loop bands)
unfolding band_loop
band_loop-Keeps [] = ok-Keeps
band_loop-Keeps (band ∷ bands) =
    then-Keeps (band_step band) (band_loop bands) (band_step-Keeps band) (band_loop-Keeps bands)

-- Whatever the bytes of a packet are, a BandInfo that ParseBandInfo returns lists frequencies of each
-- band in that band's range only, and from one to eight spatial streams in each direction.
pub parse_band_info-InLimits :
    (packet : Bytes) {info : BandInfo} → parse_band_info packet ≡ ok info → InLimits info
unfolding parse_band_info
parse_band_info-InLimits packet {info} e =
    let (bands_attr, r, e₁) =
      >>=-eq-ok (Packet.get_nested packet attr_wiphy_bands)
        (λ attr. get_list_of_attributes is_valid attr >>= λ bands. band_loop bands new_band_info)
        e in
    let (bands, r₁, e₂) =
      >>=-eq-ok (get_list_of_attributes is_valid bands_attr)
        (λ bands. band_loop bands new_band_info) e₁ in
    band_loop-Keeps bands new_band_info info
      (record {
        in_2g = tt;
        in_5g = tt;
        in_dfs = tt;
        in_6g = tt;
        in_60g = tt;
        tx_some = omega arith;
        tx_most = omega arith;
        rx_some = omega arith;
        rx_most = omega arith;
      })
      e₂
