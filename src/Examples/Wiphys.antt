-- ===== src/Examples/Wiphys.antt =====
-- A concrete NL80211_CMD_NEW_WIPHY packet: one band with one frequency.
use dumbos_platform_system_c.Base.{◌≡◌, refl, [], ◌∷◌, Bytes, le_bytes, ok}
use dumbos_platform_system_c.Nl80211.{
  attr_wiphy_bands, band_attr_freqs, frequency_attr_freq, cmd_new_wiphy,
}
use dumbos_platform_system_c.Attribute.{
  get_nested, get_int, get_raw, get_valid, get_attribute_impl, get_attribute_loop,
  has_attribute_impl, is_valid, is_valid_int, get_list_of_attributes, get_list_loop,
}
use dumbos_platform_system_c.Attribute.Layout.{Attr}
use dumbos_platform_system_c.Attribute.Nested.{nested}
use dumbos_platform_system_c.Packet.Layout.{encode_packet}
use dumbos_platform_system_c.Wiphy.Info.{BandInfo, new_band_info}
use dumbos_platform_system_c.Wiphy.Streams.{parse_ht_vht_phy_capabilities}
use dumbos_platform_system_c.Wiphy.Bands.{place, freq_step, freq_loop, handle_band_freq_attributes}
use dumbos_platform_system_c.Wiphy.Parse.{band_step, band_loop, parse_band_info}
use dumbos_platform_system_c.Wiphy.Limits.{InLimits}
use dumbos_platform_system_c.Wiphy.Parsed.{parse_band_info-InLimits}

abbrev frequency : Attr
frequency = nested 0 (record { id = frequency_attr_freq; content = le_bytes 4 2412 } ∷ [])

abbrev bands : Attr
bands = nested attr_wiphy_bands (nested 0 (nested band_attr_freqs (frequency ∷ []) ∷ []) ∷ [])

abbrev new_wiphy : Bytes
new_wiphy =
    encode_packet (record { type = 20; flags = 0; sequence = 7; pid = 0; command = cmd_new_wiphy })
      (bands ∷ [])

abbrev one_frequency : BandInfo
one_frequency = record new_band_info { band_2g = 2412 ∷ [] }

parses : parse_band_info new_wiphy ≡ ok one_frequency
unfolding parse_band_info band_loop band_step handle_band_freq_attributes freq_loop freq_step place
    parse_ht_vht_phy_capabilities get_nested get_int get_raw get_valid get_attribute_impl
    get_attribute_loop has_attribute_impl is_valid is_valid_int get_list_of_attributes get_list_loop
parses = refl

parse_band_info-InLimits_example : InLimits one_frequency
parse_band_info-InLimits_example = parse_band_info-InLimits new_wiphy parses
