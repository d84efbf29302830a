-- ===== src/Wiphy/Streams.antt =====
-- net/netlink_utils.cpp: the numbers of spatial streams (ParseHtMcsSet, ParseMcsMap and the functions
-- that call them) and the channel widths (the Parse...Cap... functions).
use dumbos_platform_system_c.Base.{
  ℕ, zero, suc, ◌+◌, ◌*◌, ◌/◌, ◌%◌, ◌^◌, true, not, ◌&&◌, Option, none, some, ◌==◌, ltb,
  if◌then◌else◌, length, get_or, Bytes, has_bits, max, Outcome, ok, ◌>>=◌, attempt,
}
use dumbos_platform_system_c.Nl80211.{
  band_attr_ht_mcs_set, band_attr_vht_mcs_set, band_attr_vht_capa, band_iftype_attr_he_cap_mcs_set,
  band_iftype_attr_he_cap_phy, band_iftype_attr_eht_cap_phy,
}
use dumbos_platform_system_c.Attribute.{payload, get_raw, get_int}
use dumbos_platform_system_c.Wiphy.Info.{BandInfo}

-- The loop of ParseHtMcsSet: the highest of the first i bytes that is not 0.
unfoldable pub ht_rx_streams : ℕ → Bytes → ℕ
ht_rx_streams zero ht_mcs_set = 1
ht_rx_streams (suc i) ht_mcs_set =
    let lower = ht_rx_streams i ht_mcs_set in if ltb 0 (get_or ht_mcs_set i 0) then suc i else lower

-- ParseHtMcsSet: (max_tx_streams, max_rx_streams).
unfoldable pub parse_ht_mcs_set : Bytes → ℕ × ℕ
unfolding ht_rx_streams
parse_ht_mcs_set ht_mcs_set =
    let max_rx_streams = ht_rx_streams 4 ht_mcs_set in
    let supported_tx_mcs_set = get_or ht_mcs_set 12 0 in
    let tx_mcs_set_defined = supported_tx_mcs_set % 2 in
    let tx_rx_mcs_set_not_equal = supported_tx_mcs_set / 2 % 2 in
    let max_nss_tx_field_value = supported_tx_mcs_set / 4 % 4 in
    if not (tx_mcs_set_defined == 0) && not (tx_rx_mcs_set_not_equal == 0)
    then (max_nss_tx_field_value + 1, max_rx_streams)
    else (max_rx_streams, max_rx_streams)

-- The loop of ParseMcsMap: the highest of i streams whose two bits are not 3.
unfoldable pub mcs_map_streams : ℕ → ℕ → ℕ
mcs_map_streams zero mcs_map = 1
mcs_map_streams (suc i) mcs_map =
    let lower = mcs_map_streams i mcs_map in
    if not (mcs_map / 2 ^ (i * 2) % 4 == 3) then suc i else lower

-- ParseMcsMap, with kMaxStreams streams.
unfoldable pub parse_mcs_map : ℕ → ℕ
unfolding mcs_map_streams
parse_mcs_map mcs_map = mcs_map_streams 8 mcs_map

-- Two bytes of an MCS set, `(set[i + 1] << 8) | set[i]`.
abbrev pub two_bytes : ℕ → Bytes → ℕ
two_bytes i set = get_or set (i + 1) 0 * 256 + get_or set i 0

-- `max_tx_streams = max(max_tx_streams, tx)`, and the same for rx.
abbrev pub raise_streams : ℕ → ℕ → BandInfo → BandInfo
raise_streams tx rx info = record info {
  max_tx_streams = max info.max_tx_streams tx;
  max_rx_streams = max info.max_rx_streams rx;
}

unfoldable pub use_ht_mcs_set : Option Bytes → BandInfo → BandInfo
use_ht_mcs_set none info = info
use_ht_mcs_set (some set) info =
    let (tx, rx) = parse_ht_mcs_set set in
    if ltb (length set) 16 then info else raise_streams tx rx info

-- ParseHtMcsSetAttribute.
unfoldable pub parse_ht_mcs_set_attribute : Bytes → BandInfo → Outcome BandInfo
unfolding use_ht_mcs_set
parse_ht_mcs_set_attribute band info = do
  set ← attempt (get_raw (payload band) band_attr_ht_mcs_set)
  ok (use_ht_mcs_set set info)

unfoldable pub use_vht_mcs_set : Option Bytes → BandInfo → BandInfo
use_vht_mcs_set none info = info
use_vht_mcs_set (some set) info =
    if ltb (length set) 8
    then info
    else raise_streams (parse_mcs_map (two_bytes 4 set)) (parse_mcs_map (two_bytes 0 set)) info

-- ParseVhtMcsSetAttribute.
unfoldable pub parse_vht_mcs_set_attribute : Bytes → BandInfo → Outcome BandInfo
unfolding use_vht_mcs_set
parse_vht_mcs_set_attribute band info = do
  set ← attempt (get_raw (payload band) band_attr_vht_mcs_set)
  ok (use_vht_mcs_set set info)

unfoldable pub use_he_mcs_set : Option Bytes → BandInfo → BandInfo
use_he_mcs_set none info = info
use_he_mcs_set (some set) info =
    if ltb (length set) 4
    then info
    else raise_streams (parse_mcs_map (two_bytes 2 set)) (parse_mcs_map (two_bytes 0 set)) info

-- ParseHeMcsSetAttribute.
unfoldable pub parse_he_mcs_set_attribute : Bytes → BandInfo → Outcome BandInfo
unfolding use_he_mcs_set
parse_he_mcs_set_attribute attribute info = do
  set ← attempt (get_raw (payload attribute) band_iftype_attr_he_cap_mcs_set)
  ok (use_he_mcs_set set info)

-- `if (flags & mask160) 160 MHz = true; if (flags & mask80p80) 80+80 MHz = true;`
unfoldable pub widths : ℕ → ℕ → ℕ → BandInfo → BandInfo
widths mask160 mask80p80 flags info =
    let wide =
      if has_bits flags mask160 then record info { is_160_mhz_supported = true } else info in
    if has_bits flags mask80p80 then record wide { is_80p80_mhz_supported = true } else wide

unfoldable pub use_vht_cap : Option ℕ → BandInfo → BandInfo
use_vht_cap none info = info
use_vht_cap (some vht_cap) info = widths 4 8 vht_cap info

-- ParseVhtCapAttribute.
unfoldable pub parse_vht_cap_attribute : Bytes → BandInfo → Outcome BandInfo
unfolding use_vht_cap widths
parse_vht_cap_attribute band info = do
  vht_cap ← attempt (get_int 4 (payload band) band_attr_vht_capa)
  ok (use_vht_cap vht_cap info)

unfoldable pub use_he_cap_phy : Option Bytes → BandInfo → BandInfo
use_he_cap_phy none info = info
use_he_cap_phy (some he_cap_phy) info =
    if ltb (length he_cap_phy) 9 then info else widths 8 16 (get_or he_cap_phy 0 0) info

-- ParseHeCapPhyAttribute.
unfoldable pub parse_he_cap_phy_attribute : Bytes → BandInfo → Outcome BandInfo
unfolding use_he_cap_phy widths
parse_he_cap_phy_attribute attribute info = do
  he_cap_phy ← attempt (get_raw (payload attribute) band_iftype_attr_he_cap_phy)
  ok (use_he_cap_phy he_cap_phy info)

unfoldable pub use_eht_cap_phy : Option Bytes → BandInfo → BandInfo
use_eht_cap_phy none info = info
use_eht_cap_phy (some eht_cap_phy) info =
    if ltb (length eht_cap_phy) 8
    then info
    else if has_bits (get_or eht_cap_phy 0 0) 2
    then record info { is_320_mhz_supported = true }
    else info

-- ParseEhtCapPhyAttribute.
unfoldable pub parse_eht_cap_phy_attribute : Bytes → BandInfo → Outcome BandInfo
unfolding use_eht_cap_phy
parse_eht_cap_phy_attribute attribute info = do
  eht_cap_phy ← attempt (get_raw (payload attribute) band_iftype_attr_eht_cap_phy)
  ok (use_eht_cap_phy eht_cap_phy info)

-- ParseHtVhtPhyCapabilities.
unfoldable pub parse_ht_vht_phy_capabilities : Bytes → BandInfo → Outcome BandInfo
unfolding parse_ht_mcs_set_attribute parse_vht_mcs_set_attribute parse_vht_cap_attribute
parse_ht_vht_phy_capabilities band info = do
  info₁ ← parse_ht_mcs_set_attribute band info
  info₂ ← parse_vht_mcs_set_attribute band info₁
  parse_vht_cap_attribute band info₂
