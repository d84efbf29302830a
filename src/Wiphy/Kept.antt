-- ===== src/Wiphy/Kept.antt =====
-- handleBandFreqAttributes and the limits on the lists that it fills.
use dumbos_platform_system_c.Base.{
  ℕ, ◌≤◌, ◌≡◌, Bool, true, false, List, [], ◌∷◌, ◌++◌, Option, none, some, arith, Bytes, Outcome,
  ok, ◌>>=◌, >>=-eq-ok, attempt, Bool-cases, inl, inr, ltb, leb, if◌then◌else◌, ◌&&◌, ◌||◌, ◌==◌,
}
use dumbos_platform_system_c.Nl80211.{
  dfs_available, dfs_usable, frequency_attr_dfs_state, frequency_attr_no_ir,
}
use dumbos_platform_system_c.Attribute.{payload, get_int, has_attribute_impl}
use dumbos_platform_system_c.Wiphy.Info.{BandInfo}
use dumbos_platform_system_c.Wiphy.Bands.{
  place_5g, place, use_freq, freq_step, freq_loop, freqs_or_none, handle_band_freq_attributes,
}
use dumbos_platform_system_c.Wiphy.Limits.{AllWithin-append, InLimits}

-- A step that returns keeps the limits.
abbrev pub Keeps : (BandInfo → Outcome BandInfo) → Type 0
Keeps f = (i o : BandInfo) → InLimits i → f i ≡ ok o → InLimits o

module _ {ℓ} {X : Type ℓ} where
  -- What is read first does not matter.
  pub bind-Keeps :
      (m : Outcome X) (f : X → BandInfo → Outcome BandInfo)
      → ((x : X) → Keeps (f x))
      → Keeps (λ i. m >>= λ x. f x i)
  bind-Keeps m f k i o l e = let (x, first, later) = >>=-eq-ok m (λ x. f x i) e in k x i o l later

  pub pure-Keeps :
      (m : Outcome X) (f : X → BandInfo → BandInfo)
      → ((x : X) (i : BandInfo) → InLimits i → InLimits (f x i))
      → Keeps (λ i. m >>= λ x. ok (f x i))
  pure-Keeps m f k i o l e =
      let (x, first, later) = >>=-eq-ok m (λ x. ok (f x i)) e in ground (arith, k x i l)

pub then-Keeps : (f g : BandInfo → Outcome BandInfo) → Keeps f → Keeps g → Keeps (λ i. f i >>= g)
then-Keeps f g kf kg i o l e =
    let (mid, first, later) = >>=-eq-ok (f i) g e in kg mid o (kf i mid l first) later

pub ok-Keeps : Keeps ok
ok-Keeps i o l e = ground arith

-- A frequency that joins the list of its band.
add_2g :
    (f : ℕ) (i : BandInfo)
    → 2401 ≤ f
    → f ≤ 2499
    → InLimits i
    → InLimits (record i { band_2g = i.band_2g ++ f ∷ [] })
add_2g f i h k l = record {
  in_2g = AllWithin-append 2401 2499 f i.band_2g l.in_2g h k;
  in_5g = l.in_5g;
  in_dfs = l.in_dfs;
  in_6g = l.in_6g;
  in_60g = l.in_60g;
  tx_some = l.tx_some;
  tx_most = l.tx_most;
  rx_some = l.rx_some;
  rx_most = l.rx_most;
}

add_5g :
    (f : ℕ) (i : BandInfo)
    → 5001 ≤ f
    → f ≤ 5885
    → InLimits i
    → InLimits (record i { band_5g = i.band_5g ++ f ∷ [] })
add_5g f i h k l = record {
  in_2g = l.in_2g;
  in_5g = AllWithin-append 5001 5885 f i.band_5g l.in_5g h k;
  in_dfs = l.in_dfs;
  in_6g = l.in_6g;
  in_60g = l.in_60g;
  tx_some = l.tx_some;
  tx_most = l.tx_most;
  rx_some = l.rx_some;
  rx_most = l.rx_most;
}

add_dfs :
    (f : ℕ) (i : BandInfo)
    → 5001 ≤ f
    → f ≤ 5885
    → InLimits i
    → InLimits (record i { band_dfs = i.band_dfs ++ f ∷ [] })
add_dfs f i h k l = record {
  in_2g = l.in_2g;
  in_5g = l.in_5g;
  in_dfs = AllWithin-append 5001 5885 f i.band_dfs l.in_dfs h k;
  in_6g = l.in_6g;
  in_60g = l.in_60g;
  tx_some = l.tx_some;
  tx_most = l.tx_most;
  rx_some = l.rx_some;
  rx_most = l.rx_most;
}

add_6g :
    (f : ℕ) (i : BandInfo)
    → 5926 ≤ f
    → f ≤ 7124
    → InLimits i
    → InLimits (record i { band_6g = i.band_6g ++ f ∷ [] })
add_6g f i h k l = record {
  in_2g = l.in_2g;
  in_5g = l.in_5g;
  in_dfs = l.in_dfs;
  in_6g = AllWithin-append 5926 7124 f i.band_6g l.in_6g h k;
  in_60g = l.in_60g;
  tx_some = l.tx_some;
  tx_most = l.tx_most;
  rx_some = l.rx_some;
  rx_most = l.rx_most;
}

add_60g :
    (f : ℕ) (i : BandInfo)
    → 58320 ≤ f
    → f ≤ 70199
    → InLimits i
    → InLimits (record i { band_60g = i.band_60g ++ f ∷ [] })
add_60g f i h k l = record {
  in_2g = l.in_2g;
  in_5g = l.in_5g;
  in_dfs = l.in_dfs;
  in_6g = l.in_6g;
  in_60g = AllWithin-append 58320 70199 f i.band_60g l.in_60g h k;
  tx_some = l.tx_some;
  tx_most = l.tx_most;
  rx_some = l.rx_some;
  rx_most = l.rx_most;
}

place_5g-InLimits :
    (f : ℕ) (dfs : Option ℕ) (no_ir : Bool) (i : BandInfo)
    → 5001 ≤ f
    → f ≤ 5885
    → InLimits i
    → InLimits (place_5g f dfs no_ir i)
unfolding place_5g
place_5g-InLimits f none true i h k l = add_dfs f i h k l
place_5g-InLimits f none false i h k l = add_5g f i h k l
place_5g-InLimits f (some d) no_ir i h k l =
    elim (Bool-cases ((d == dfs_available) || (d == dfs_usable))) [
      | inl e ↦ rw e (add_dfs f i h k l)
      | inr e ↦ elim (Bool-cases no_ir) [
        | inl n ↦ rw (e, n) (add_dfs f i h k l)
        | inr n ↦ rw (e, n) (add_5g f i h k l)
      ]
    ]

place-Keeps : (f : ℕ) (freq : Bytes) → Keeps (place f freq)
unfolding place
place-Keeps f freq i o l e = elim (Bool-cases (ltb 2400 f && ltb f 2500)) [
  | inl a ↦ ok-Keeps _ o (add_2g f i (ground arith) (ground arith) l) (rw a at e)
  | inr a ↦ elim (Bool-cases (ltb 5000 f && leb f 5885)) [
    | inl b ↦
        bind-Keeps (attempt (get_int 4 (payload freq) frequency_attr_dfs_state))
          (λ dfs j. has_attribute_impl (payload freq) frequency_attr_no_ir >>= λ no_ir.
            ok (place_5g f dfs no_ir j))
          (λ dfs.
            pure-Keeps (has_attribute_impl (payload freq) frequency_attr_no_ir)
              (λ no_ir j. place_5g f dfs no_ir j)
              (λ no_ir j m. place_5g-InLimits f dfs no_ir j (ground arith) (ground arith) m))
          i o l (rw (a, b) at e)
    | inr b ↦ elim (Bool-cases (ltb 5925 f && ltb f 7125)) [
      | inl c ↦ ok-Keeps _ o (add_6g f i (ground arith) (ground arith) l) (rw (a, b, c) at e)
      | inr c ↦ elim (Bool-cases (leb 58320 f && ltb f 70200)) [
        | inl d ↦ ok-Keeps _ o (add_60g f i (ground arith) (ground arith) l) (rw (a, b, c, d) at e)
        | inr d ↦ ok-Keeps i o l (rw (a, b, c, d) at e)
      ]
    ]
  ]
]

use_freq-Keeps : (f : Option ℕ) (freq : Bytes) → Keeps (use_freq f freq)
unfolding use_freq
use_freq-Keeps none freq = ok-Keeps
use_freq-Keeps (some f) freq =
    bind-Keeps _ (λ disabled i. if disabled then ok i else place f freq i)
      (λ disabled. choose disabled)
  where
    choose : (disabled : Bool) → Keeps (λ i. if disabled then ok i else place f freq i)
    choose true = ok-Keeps
    choose false = place-Keeps f freq

freq_step-Keeps : (freq : Bytes) → Keeps (freq_step freq)
unfolding freq_step
freq_step-Keeps freq = bind-Keeps _ (λ f. use_freq f freq) (λ f. use_freq-Keeps f freq)

freq_loop-Keeps : (freqs : List Bytes) → Keeps (freq_loop freqs)
unfolding freq_loop
freq_loop-Keeps [] = ok-Keeps
freq_loop-Keeps (freq ∷ freqs) =
    then-Keeps (freq_step freq) (freq_loop freqs) (freq_step-Keeps freq) (freq_loop-Keeps freqs)

freqs_or_none-Keeps : (freqs : Option (List Bytes)) → Keeps (freqs_or_none freqs)
unfolding freqs_or_none
freqs_or_none-Keeps none = ok-Keeps
freqs_or_none-Keeps (some freqs) = freq_loop-Keeps freqs

pub handle_band_freq_attributes-Keeps : (attr : Bytes) → Keeps (handle_band_freq_attributes attr)
unfolding handle_band_freq_attributes
handle_band_freq_attributes-Keeps attr = bind-Keeps _ freqs_or_none freqs_or_none-Keeps
