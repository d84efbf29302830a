-- ===== src/Wiphy/Limits.antt =====
-- What ParseBandInfo may write, whatever the bytes of the packet are.
use dumbos_platform_system_c.Base.{
  ℕ, zero, suc, ◌≤◌, List, [], ◌∷◌, ◌++◌, Option, none, some, arith, Bytes, Bool-cases, inl, inr,
  ltb, max, get_or, has_bits, length,
}
use dumbos_platform_system_c.Wiphy.Info.{BandInfo}
use dumbos_platform_system_c.Wiphy.Streams.{
  ht_rx_streams, parse_ht_mcs_set, mcs_map_streams, parse_mcs_map, two_bytes, raise_streams,
  use_ht_mcs_set, use_vht_mcs_set, use_he_mcs_set, widths, use_vht_cap, use_he_cap_phy,
  use_eht_cap_phy,
}

-- Every member lies between two bounds.
abbrev pub AllWithin : ℕ → ℕ → List ℕ → Type 0
AllWithin low high [] = Unit
AllWithin low high (f ∷ l) = (low ≤ f) × (f ≤ high) × AllWithin low high l

pub AllWithin-append :
    (low high f : ℕ) (l : List ℕ)
    → AllWithin low high l
    → low ≤ f
    → f ≤ high
    → AllWithin low high (l ++ f ∷ [])
AllWithin-append low high f [] a h k = (h, k, tt)
AllWithin-append low high f (x ∷ l) a h k = (a.0, a.1, AllWithin-append low high f l a.2 h k)

-- The frequencies of each list lie in its band, and there are one to eight streams.
pub record Limits (band_2g band_5g band_dfs band_6g band_60g : List ℕ) (tx rx : ℕ) : Type 0 where
  pub in_2g : AllWithin 2401 2499 band_2g
  pub in_5g : AllWithin 5001 5885 band_5g
  pub in_dfs : AllWithin 5001 5885 band_dfs
  pub in_6g : AllWithin 5926 7124 band_6g
  pub in_60g : AllWithin 58320 70199 band_60g
  pub tx_some : 1 ≤ tx
  pub tx_most : tx ≤ 8
  pub rx_some : 1 ≤ rx
  pub rx_most : rx ≤ 8

abbrev pub InLimits : BandInfo → Type 0
InLimits i =
    Limits i.band_2g i.band_5g i.band_dfs i.band_6g i.band_60g i.max_tx_streams i.max_rx_streams

mcs_map_streams_bounds :
    (n mcs_map : ℕ) → (1 ≤ mcs_map_streams n mcs_map) × (mcs_map_streams n mcs_map ≤ max 1 n)
unfolding mcs_map_streams
mcs_map_streams_bounds zero mcs_map = (omega arith, omega arith)
mcs_map_streams_bounds (suc i) mcs_map = (
  ground (arith, mcs_map_streams_bounds i mcs_map),
  ground (arith, mcs_map_streams_bounds i mcs_map),
)

ht_rx_streams_bounds :
    (n : ℕ) (set : Bytes) → (1 ≤ ht_rx_streams n set) × (ht_rx_streams n set ≤ max 1 n)
unfolding ht_rx_streams
ht_rx_streams_bounds zero set = (omega arith, omega arith)
ht_rx_streams_bounds (suc i) set =
    (ground (arith, ht_rx_streams_bounds i set), ground (arith, ht_rx_streams_bounds i set))

raise_streams-InLimits :
    (tx rx : ℕ) (i : BandInfo) → tx ≤ 8 → rx ≤ 8 → InLimits i → InLimits (raise_streams tx rx i)
raise_streams-InLimits tx rx i t r l = record {
  in_2g = l.in_2g;
  in_5g = l.in_5g;
  in_dfs = l.in_dfs;
  in_6g = l.in_6g;
  in_60g = l.in_60g;
  tx_some = omega (arith, l.tx_some);
  tx_most = omega (arith, l.tx_most);
  rx_some = omega (arith, l.rx_some);
  rx_most = omega (arith, l.rx_most);
}

-- The number of streams that an MCS map or an HT MCS set states.
pub parse_mcs_map_bounds : (mcs_map : ℕ) → (1 ≤ parse_mcs_map mcs_map) × (parse_mcs_map mcs_map ≤ 8)
unfolding parse_mcs_map
parse_mcs_map_bounds mcs_map = let b = mcs_map_streams_bounds 8 mcs_map in (b.0, omega (arith, b.1))

parse_ht_mcs_set_bounds :
    (set : Bytes) → ((parse_ht_mcs_set set).0 ≤ 8) × ((parse_ht_mcs_set set).1 ≤ 8)
unfolding parse_ht_mcs_set
parse_ht_mcs_set_bounds set =
    let b = ht_rx_streams_bounds 4 set in (ground (arith, b), ground (arith, b))

pub use_ht_mcs_set-InLimits :
    (set : Option Bytes) (i : BandInfo) → InLimits i → InLimits (use_ht_mcs_set set i)
unfolding use_ht_mcs_set
use_ht_mcs_set-InLimits none i l = l
use_ht_mcs_set-InLimits (some set) i l = elim (Bool-cases (ltb (length set) 16)) [
  | inl e ↦ rw e l
  | inr e ↦
      let b = parse_ht_mcs_set_bounds set in
      rw e (raise_streams-InLimits (parse_ht_mcs_set set).0 (parse_ht_mcs_set set).1 i b.0 b.1 l)
]

map_streams-InLimits :
    (tx rx : ℕ) (i : BandInfo)
    → InLimits i
    → InLimits (raise_streams (parse_mcs_map tx) (parse_mcs_map rx) i)
map_streams-InLimits tx rx i l =
    raise_streams-InLimits (parse_mcs_map tx) (parse_mcs_map rx) i (parse_mcs_map_bounds tx).1
      (parse_mcs_map_bounds rx).1 l

pub use_vht_mcs_set-InLimits :
    (set : Option Bytes) (i : BandInfo) → InLimits i → InLimits (use_vht_mcs_set set i)
unfolding use_vht_mcs_set
use_vht_mcs_set-InLimits none i l = l
use_vht_mcs_set-InLimits (some set) i l = elim (Bool-cases (ltb (length set) 8)) [
  | inl e ↦ rw e l
  | inr e ↦ rw e (map_streams-InLimits (two_bytes 4 set) (two_bytes 0 set) i l)
]

pub use_he_mcs_set-InLimits :
    (set : Option Bytes) (i : BandInfo) → InLimits i → InLimits (use_he_mcs_set set i)
unfolding use_he_mcs_set
use_he_mcs_set-InLimits none i l = l
use_he_mcs_set-InLimits (some set) i l = elim (Bool-cases (ltb (length set) 4)) [
  | inl e ↦ rw e l
  | inr e ↦ rw e (map_streams-InLimits (two_bytes 2 set) (two_bytes 0 set) i l)
]

widths-InLimits : (m n flags : ℕ) (i : BandInfo) → InLimits i → InLimits (widths m n flags i)
unfolding widths
widths-InLimits m n flags i l = elim (Bool-cases (has_bits flags m)) [
  | inl e ↦ elim (Bool-cases (has_bits flags n)) [ inl d ↦ rw (e, d) l | inr d ↦ rw (e, d) l ]
  | inr e ↦ elim (Bool-cases (has_bits flags n)) [ inl d ↦ rw (e, d) l | inr d ↦ rw (e, d) l ]
]

pub use_vht_cap-InLimits :
    (cap : Option ℕ) (i : BandInfo) → InLimits i → InLimits (use_vht_cap cap i)
unfolding use_vht_cap
use_vht_cap-InLimits none i l = l
use_vht_cap-InLimits (some cap) i l = widths-InLimits 4 8 cap i l

pub use_he_cap_phy-InLimits :
    (cap : Option Bytes) (i : BandInfo) → InLimits i → InLimits (use_he_cap_phy cap i)
unfolding use_he_cap_phy
use_he_cap_phy-InLimits none i l = l
use_he_cap_phy-InLimits (some cap) i l = elim (Bool-cases (ltb (length cap) 9)) [
  | inl e ↦ rw e l
  | inr e ↦ rw e (widths-InLimits 8 16 (get_or cap 0 0) i l)
]

pub use_eht_cap_phy-InLimits :
    (cap : Option Bytes) (i : BandInfo) → InLimits i → InLimits (use_eht_cap_phy cap i)
unfolding use_eht_cap_phy
use_eht_cap_phy-InLimits none i l = l
use_eht_cap_phy-InLimits (some cap) i l = elim (Bool-cases (ltb (length cap) 8)) [
  | inl e ↦ rw e l
  | inr e ↦ elim (Bool-cases (has_bits (get_or cap 0 0) 2)) [
    | inl d ↦ rw (e, d) l
    | inr d ↦ rw (e, d) l
  ]
]
