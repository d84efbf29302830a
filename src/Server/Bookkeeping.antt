-- ===== src/Server/Bookkeeping.antt =====
-- What UpdateBandWiphyIndexMap and EraseBandWiphyIndexMap do to each band.
use dumbos_platform_system_c.Base.{
  ℕ, ◌≡◌, ◌≤◌, ◌<◌, refl, ap, ◌∙◌, Bool, not, ◌&&◌, ◌||◌, List, [], ◌∷◌, Option, none, some, arith,
  ◌==◌, if◌then◌else◌, is_empty, ==_true, Bool-cases, inl, inr, ltb,
}
use dumbos_platform_system_c.Base.Assoc.{lookup, insert, erase, lookup-insert}
use dumbos_platform_system_c.Nl80211.{band_2ghz, band_5ghz, band_6ghz, band_60ghz}
use dumbos_platform_system_c.Wiphy.Info.{BandInfo}
use dumbos_platform_system_c.Server.BandMap.{claim_band, claim_bands, erase_wiphy}

-- A wiphy serves a band when it has a frequency in it; DFS frequencies are of the 5 GHz band.
abbrev pub serves : BandInfo → ℕ → Bool
serves info band =
    ((band == band_2ghz) && not (is_empty info.band_2g))
    || (((band == band_5ghz) && (not (is_empty info.band_5g) || not (is_empty info.band_dfs)))
        || (((band == band_6ghz) && not (is_empty info.band_6g))
            || ((band == band_60ghz) && not (is_empty info.band_60g))))

-- The wiphy of a band stays; a band without one gets the new wiphy if that serves it.
abbrev pub first_come : Bool → ℕ → Option ℕ → Option ℕ
first_come served wiphy_index (some w) = some w
first_come served wiphy_index none = if served then some wiphy_index else none

lookup-claim_band :
    (band wiphy_index : ℕ) (frequencies : List ℕ) (m : List (ℕ × ℕ)) (b : ℕ)
    → lookup b (claim_band band wiphy_index frequencies m)
      ≡ first_come ((b == band) && not (is_empty frequencies)) wiphy_index (lookup b m)
lookup-claim_band band wiphy_index frequencies m b =
    ground (arith, lookup-insert band b wiphy_index m)

-- UpdateBandWiphyIndexMap gives the wiphy exactly the bands that it serves and that have no wiphy yet.
pub lookup-claim_bands :
    (wiphy_index : ℕ) (info : BandInfo) (m : List (ℕ × ℕ)) (band : ℕ)
    → lookup band (claim_bands wiphy_index info m)
      ≡ first_come (serves info band) wiphy_index (lookup band m)
unfolding claim_bands
lookup-claim_bands w info m band =
    claimed band_60ghz info.band_60g _ (
      claimed band_6ghz info.band_6g _ (
        claimed band_5ghz info.band_dfs _
          (claimed band_5ghz info.band_5g _ (lookup-claim_band band_2ghz w info.band_2g m band))))
    ∙ ground (arith)
  where
    claimed :
        (own : ℕ) (frequencies : List ℕ) (n : List (ℕ × ℕ)) {o : Option ℕ}
        → lookup band n ≡ o
        → lookup band (claim_band own w frequencies n)
          ≡ first_come ((band == own) && not (is_empty frequencies)) w o
    claimed own frequencies n e = lookup-claim_band own w frequencies n band ∙ ap (first_come _ w) e

-- Every key of the map is larger than k.
unfoldable pub Above : ℕ → List (ℕ × ℕ) → Type 0
Above k [] = Unit
Above k ((j, v) ∷ m) = (k < j) × Above k m

-- The order that a std::map keeps: each key is below the ones that follow.
unfoldable pub Sorted : List (ℕ × ℕ) → Type 0
Sorted [] = Unit
Sorted ((k, v) ∷ m) = Above k m × Sorted m

pub lookup-Above : (k j : ℕ) (m : List (ℕ × ℕ)) → Above k m → j ≤ k → lookup j m ≡ none
unfolding Above
lookup-Above k j [] a h = refl
lookup-Above k j ((i, v) ∷ m) a h = ground (arith, lookup-Above k j m a.1 h, a.0)

below-Above : (i k : ℕ) (m : List (ℕ × ℕ)) → i ≤ k → Above k m → Above i m
unfolding Above
below-Above i k [] h a = tt
below-Above i k ((j, v) ∷ m) h a = (omega (arith, a.0), below-Above i k m h a.1)

insert-Above : (i k v : ℕ) (m : List (ℕ × ℕ)) → i < k → Above i m → Above i (insert k v m)
unfolding Above
insert-Above i k v [] h a = (h, tt)
insert-Above i k v ((j, w) ∷ m) h a = elim (Bool-cases (j == k)) [
  | inl e ↦ rw e (h, a.1)
  | inr e ↦ elim (Bool-cases (ltb k j)) [
    | inl l ↦ rw (e, l) (h, a)
    | inr l ↦ rw (e, l) (a.0, insert-Above i k v m h a.1)
  ]
]

erase-Above : (i k : ℕ) (m : List (ℕ × ℕ)) → Above i m → Above i (erase k m)
unfolding Above
erase-Above i k [] a = tt
erase-Above i k ((j, w) ∷ m) a = elim (Bool-cases (j == k)) [
  | inl e ↦ rw e (erase-Above i k m a.1)
  | inr e ↦ rw e (a.0, erase-Above i k m a.1)
]

erase_wiphy-Above : (i w : ℕ) (m : List (ℕ × ℕ)) → Above i m → Above i (erase_wiphy w m)
unfolding Above erase_wiphy
erase_wiphy-Above i w [] a = tt
erase_wiphy-Above i w ((j, v) ∷ m) a = elim (Bool-cases (v == w)) [
  | inl e ↦ rw e (erase_wiphy-Above i w m a.1)
  | inr e ↦ rw e (a.0, erase_wiphy-Above i w m a.1)
]

pub insert-Sorted : (k v : ℕ) (m : List (ℕ × ℕ)) → Sorted m → Sorted (insert k v m)
unfolding Sorted
insert-Sorted k v [] d = (unfold Above in tt, tt)
insert-Sorted k v ((j, w) ∷ m) d = elim (Bool-cases (j == k)) [
  | inl e ↦
      let same : j ≡ k = ==_true j k e in rw e (below-Above k j m (omega (arith, same)) d.0, d.1)
  | inr e ↦ elim (Bool-cases (ltb k j)) [
    | inl l ↦
        let less : k < j = ground arith in
        let all : Above k ((j, w) ∷ m) =
          unfold Above in (less, below-Above k j m (omega arith) d.0) in
        rw (e, l) (all, d)
    | inr l ↦
        let more : j < k = ground arith in
        rw (e, l) (insert-Above j k v m more d.0, insert-Sorted k v m d.1)
  ]
]

pub erase-Sorted : (k : ℕ) (m : List (ℕ × ℕ)) → Sorted m → Sorted (erase k m)
unfolding Sorted
erase-Sorted k [] d = tt
erase-Sorted k ((j, w) ∷ m) d = elim (Bool-cases (j == k)) [
  | inl e ↦ rw e (erase-Sorted k m d.1)
  | inr e ↦ rw e (erase-Above j k m d.0, erase-Sorted k m d.1)
]

pub erase_wiphy-Sorted :
    (wiphy_index : ℕ) (m : List (ℕ × ℕ)) → Sorted m → Sorted (erase_wiphy wiphy_index m)
unfolding Sorted erase_wiphy
erase_wiphy-Sorted wiphy_index [] d = tt
erase_wiphy-Sorted wiphy_index ((j, w) ∷ m) d = elim (Bool-cases (w == wiphy_index)) [
  | inl e ↦ rw e (erase_wiphy-Sorted wiphy_index m d.1)
  | inr e ↦ rw e (erase_wiphy-Above j wiphy_index m d.0, erase_wiphy-Sorted wiphy_index m d.1)
]

-- The wiphy leaves every band that it has, and no other band changes.
abbrev pub without : ℕ → Option ℕ → Option ℕ
without wiphy_index none = none
without wiphy_index (some w) = if w == wiphy_index then none else some w

-- EraseBandWiphyIndexMap takes every band from the wiphy and leaves the others.
pub lookup-erase_wiphy :
    (wiphy_index : ℕ) (m : List (ℕ × ℕ)) (band : ℕ)
    → Sorted m
    → lookup band (erase_wiphy wiphy_index m) ≡ without wiphy_index (lookup band m)
unfolding erase_wiphy Sorted
lookup-erase_wiphy wiphy_index [] band d = refl
lookup-erase_wiphy wiphy_index ((j, w) ∷ m) band d = elim (Bool-cases (j == band)) [
  | inl e ↦
      let absent =
        lookup-Above j band (erase_wiphy wiphy_index m) (erase_wiphy-Above j wiphy_index m d.0) in
      let same : j ≡ band = ==_true j band e in ground (arith, absent (omega (arith, same)))
  | inr e ↦ ground (arith, lookup-erase_wiphy wiphy_index m band d.1)
]
