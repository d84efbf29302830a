-- ===== src/Server/Ownership.antt =====
-- The operations of Server on its two maps of wiphys, and the invariant that binds the maps.
use dumbos_platform_system_c.Base.{
  ℕ, ◌≡◌, ◌≢◌, refl, sym, ◌∙◌, true, not, ◌&&◌, List, [], ◌∷◌, Option, none, some, arith, ◌==◌,
  if◌then◌else◌, ==_refl, ==_true, Bool-cases, inl, inr, ◌⊎◌, is_empty,
}
use native.Mathlib.Decide.{ℕ_discrete}
use dumbos_platform_system_c.Base.Assoc.{lookup, insert, erase}
use dumbos_platform_system_c.Nl80211.{band_2ghz, band_5ghz, band_6ghz, band_60ghz}
use dumbos_platform_system_c.Wiphy.Info.{BandInfo}
use dumbos_platform_system_c.Server.State.{Server}
use dumbos_platform_system_c.Server.BandMap.{
  is_absent, claim_band, claim_bands, erase_wiphy, update_map, update_band_wiphy_index_map,
  erase_band_wiphy_index_map,
}
use dumbos_platform_system_c.Server.Interfaces.{
  Kernel, has_wiphy, has_no_iface_for_wiphy_index, note_wiphy, forget_wiphy, forget_entry,
}
use dumbos_platform_system_c.Server.Bookkeeping.{
  Sorted, lookup-Above, insert-Sorted, erase-Sorted, erase_wiphy-Sorted, lookup-erase_wiphy,
  lookup-claim_bands, first_come, serves, without,
}

-- The two maps are in order, and the wiphy of each band has an interface.
pub record Owns (bands names : List (ℕ × ℕ)) : Type 0 where
  pub bands_sorted : Sorted bands
  pub names_sorted : Sorted names
  pub owned : (band w : ℕ) → lookup band bands ≡ some w → has_wiphy w names ≡ true

abbrev pub IsWellFormed : Server → Type 0
IsWellFormed s = Owns s.band_to_wiphy_index_map s.iface_to_wiphy_index_map

-- An entry of a wiphy is found by has_wiphy, and the other way round.
has_wiphy-insert :
    (w name v : ℕ) (m : List (ℕ × ℕ))
    → lookup name m ≡ none
    → has_wiphy w (insert name v m) ≡ (if v == w then true else has_wiphy w m)
has_wiphy-insert w name v [] h = refl
has_wiphy-insert w name v ((j, u) ∷ m) h = ground (arith, has_wiphy-insert w name v m)

erase_absent : (name : ℕ) (m : List (ℕ × ℕ)) → lookup name m ≡ none → erase name m ≡ m
erase_absent name [] h = refl
erase_absent name ((j, u) ∷ m) h = ground (arith, erase_absent name m)

-- Removal of a name takes away no wiphy but its own.
has_wiphy-erase :
    (w name v : ℕ) (m : List (ℕ × ℕ))
    → Sorted m
    → lookup name m ≡ some v
    → v ≢ w
    → has_wiphy w (erase name m) ≡ has_wiphy w m
unfolding Sorted
has_wiphy-erase w name v [] d h ne = cc
has_wiphy-erase w name v ((j, u) ∷ m) d h ne = elim (Bool-cases (j == name)) [
  | inl e ↦
      let same : j ≡ name = ==_true j name e in
      let gone = erase_absent name m (lookup-Above j name m d.0 (omega (arith, same))) in
      ground (arith, gone)
  | inr e ↦ ground (arith, has_wiphy-erase w name v m d.1)
]

claim_band-Sorted :
    (band w : ℕ) (frequencies : List ℕ) (m : List (ℕ × ℕ))
    → Sorted m
    → Sorted (claim_band band w frequencies m)
claim_band-Sorted band w frequencies m d =
    elim (Bool-cases (not (is_empty frequencies) && is_absent (lookup band m))) [
      | inl e ↦ rw e (insert-Sorted band w m d)
      | inr e ↦ rw e d
    ]

update_map-Sorted :
    (info : Option BandInfo) (w : ℕ) (m : List (ℕ × ℕ)) → Sorted m → Sorted (update_map info w m)
unfolding claim_bands
update_map-Sorted none w m d = d
update_map-Sorted (some info) w m d = claim_band-Sorted band_60ghz w info.band_60g _ (
    claim_band-Sorted band_6ghz w info.band_6g _ (
      claim_band-Sorted band_5ghz w info.band_dfs _ (
        claim_band-Sorted band_5ghz w info.band_5g _
          (claim_band-Sorted band_2ghz w info.band_2g m d))))

-- A band of the new map had its wiphy before, or got the new one.
lookup-update_map :
    (info : Option BandInfo) (w : ℕ) (m : List (ℕ × ℕ)) (band v : ℕ)
    → lookup band (update_map info w m) ≡ some v
    → (v ≡ w) ⊎ (lookup band m ≡ some v)
lookup-update_map none w m band v h = inr h
lookup-update_map (some info) w m band v h =
    first (lookup band m) (sym (lookup-claim_bands w info m band) ∙ h)
  where
    first : (o : Option ℕ) → first_come (serves info band) w o ≡ some v → (v ≡ w) ⊎ (o ≡ some v)
    first none e = elim (Bool-cases (serves info band)) [
      | inl y ↦ inl (ground (arith))
      | inr n ↦ absurd (ground (arith))
    ]
    first (some u) e = inr e

-- A new name with its wiphy.
Owns-insert :
    (name w : ℕ) (bands names : List (ℕ × ℕ))
    → lookup name names ≡ none
    → Owns bands names
    → Owns bands (insert name w names)
Owns-insert name w bands names fresh o = record {
  bands_sorted = o.bands_sorted;
  names_sorted = insert-Sorted name w names o.names_sorted;
  owned = λ band v h. has_wiphy-insert v name w names fresh ∙ ground (arith, o.owned band v h);
}

-- The bands of a wiphy that has an interface.
pub Owns-update_map :
    (info : Option BandInfo) (w : ℕ) (bands names : List (ℕ × ℕ))
    → has_wiphy w names ≡ true
    → Owns bands names
    → Owns (update_map info w bands) names
Owns-update_map info w bands names has o = record {
  bands_sorted = update_map-Sorted info w bands o.bands_sorted;
  names_sorted = o.names_sorted;
  owned = λ band v h. elim (lookup-update_map info w bands band v h) [
    | inl e ↦ rw e has
    | inr e ↦ o.owned band v e
  ];
}

has_wiphy_self :
    (name w : ℕ) (names : List (ℕ × ℕ))
    → lookup name names ≡ none
    → has_wiphy w (insert name w names) ≡ true
has_wiphy_self name w names fresh = has_wiphy-insert w name w names fresh ∙ rw (==_refl w) refl

-- Both create functions: a new name joins the map, with the bands of its wiphy.
pub note_wiphy-IsWellFormed :
    (kernel : Kernel) (name w : ℕ) (s : Server)
    → lookup name s.iface_to_wiphy_index_map ≡ none
    → IsWellFormed s
    → IsWellFormed (note_wiphy kernel name w s)
unfolding note_wiphy update_band_wiphy_index_map has_no_iface_for_wiphy_index
note_wiphy-IsWellFormed kernel name w s fresh o =
    let new = Owns-insert name w s.band_to_wiphy_index_map s.iface_to_wiphy_index_map fresh o in
    elim (Bool-cases (not (has_wiphy w s.iface_to_wiphy_index_map))) [
      | inl e ↦
          rw e (Owns-update_map (kernel.get_wiphy_info w) w _ _ (has_wiphy_self name w _ fresh) new)
      | inr e ↦ rw e new
    ]

-- The name of an interface goes.
Owns-erase_kept :
    (name v : ℕ) (bands names : List (ℕ × ℕ))
    → lookup name names ≡ some v
    → has_wiphy v (erase name names) ≡ true
    → Owns bands names
    → Owns bands (erase name names)
Owns-erase_kept name v bands names found kept o = record {
  bands_sorted = o.bands_sorted;
  names_sorted = erase-Sorted name names o.names_sorted;
  owned = λ band w h. elim (ℕ_discrete v w) [
    | yes e ↦ rw (sym e) kept
    | no e ↦ has_wiphy-erase w name v names o.names_sorted found e ∙ o.owned band w h
  ];
}

Owns-erase_last :
    (name v : ℕ) (bands names : List (ℕ × ℕ))
    → lookup name names ≡ some v
    → Owns bands names
    → Owns (erase_wiphy v bands) (erase name names)
Owns-erase_last name v bands names found o = record {
  bands_sorted = erase_wiphy-Sorted v bands o.bands_sorted;
  names_sorted = erase-Sorted name names o.names_sorted;
  owned = λ band w h.
      let (kept, other) =
        without-some v w (lookup band bands)
          (sym (lookup-erase_wiphy v bands band o.bands_sorted) ∙ h) in
      has_wiphy-erase w name v names o.names_sorted found other ∙ o.owned band w kept;
}
  where
    without-some :
        (v w : ℕ) (found : Option ℕ) → without v found ≡ some w → (found ≡ some w) × (v ≢ w)
    without-some v w none e = cc
    without-some v w (some u) e = elim (Bool-cases (u == v)) [
      | inl y ↦ cc
      | inr y ↦ (ground arith, λ z. ground arith)
    ]

-- Both tear-down functions.
forget_entry-IsWellFormed :
    (name : ℕ) (found : Option ℕ) (s : Server)
    → lookup name s.iface_to_wiphy_index_map ≡ found
    → IsWellFormed s
    → IsWellFormed (forget_entry name found s)
unfolding forget_entry erase_band_wiphy_index_map has_no_iface_for_wiphy_index
forget_entry-IsWellFormed name none s h o = o
forget_entry-IsWellFormed name (some v) s h o =
    elim (Bool-cases (has_wiphy v (erase name s.iface_to_wiphy_index_map))) [
      | inl e ↦ rw e (Owns-erase_kept name v _ s.iface_to_wiphy_index_map h e o)
      | inr e ↦ rw e (Owns-erase_last name v _ s.iface_to_wiphy_index_map h o)
    ]

pub forget_wiphy-IsWellFormed :
    (name : ℕ) (s : Server) → IsWellFormed s → IsWellFormed (forget_wiphy name s)
unfolding forget_wiphy
forget_wiphy-IsWellFormed name s o =
    forget_entry-IsWellFormed name (lookup name s.iface_to_wiphy_index_map) s refl o
