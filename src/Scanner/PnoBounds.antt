-- ===== src/Scanner/PnoBounds.antt =====
-- ParsePnoSettings and the limits of the hardware.
use dumbos_platform_system_c.Base.{
  ℕ, ◌+◌, ◌*◌, ◌≤◌, ◌<◌, ◌≡◌, refl, inl, inr, List, [], ◌∷◌, arith, length, length-append, ltb,
  Bytes, ◌++◌, ◌==◌, Bool-cases, Bool, true, max,
}
use dumbos_platform_system_c.Wiphy.Info.{BandInfo}
use dumbos_platform_system_c.Scanner.State.{Scanner}
use dumbos_platform_system_c.Scanner.Pno.{
  contains, set_insert, in_all_freqs, Parsed, PnoNetwork, PnoSettings, insert_supported,
  match_network, parse_network, parse_networks, add_default_freqs, parse_pno_settings,
  pno_scan_default_freqs_2g, pno_scan_default_freqs_5g,
}

abbrev pub All {ℓ κ} : {A : Type ℓ} → (A → Type κ) → List A → Type κ
All P [] = Unit
All P (x ∷ l) = P x × All P l

-- Strictly ascending: in order, and no member twice.
abbrev pub Ascending : List ℕ → Type 0
Ascending [] = Unit
Ascending (x ∷ l) = All (λ y. x < y) l × Ascending l

All-set_insert : (P : ℕ → Type 0) (f : ℕ) (l : List ℕ) → P f → All P l → All P (set_insert f l)
All-set_insert P f [] p h = (p, tt)
All-set_insert P f (g ∷ l) p h = elim (Bool-cases (f == g)) [
  | inl e ↦ rw e h
  | inr e ↦ elim (Bool-cases (ltb f g)) [
    | inl t ↦ rw (e, t) (p, h)
    | inr t ↦ rw (e, t) (h.0, All-set_insert P f l p h.1)
  ]
]

All-weaken : {P Q : ℕ → Type 0} (l : List ℕ) → ((x : ℕ) → P x → Q x) → All P l → All Q l
All-weaken [] w h = tt
All-weaken (x ∷ l) w h = (w x h.0, All-weaken l w h.1)

Ascending-set_insert : (f : ℕ) (l : List ℕ) → Ascending l → Ascending (set_insert f l)
Ascending-set_insert f [] h = (tt, tt)
Ascending-set_insert f (g ∷ l) h = elim (Bool-cases (f == g)) [
  | inl e ↦ rw e h
  | inr e ↦ elim (Bool-cases (ltb f g)) [
    | inl t ↦
        let lt : f < g = ground arith in rw (e, t) ((lt, All-weaken l (λ x k. omega arith) h.0), h)
    | inr t ↦
        let gt : g < f = ground arith in
        rw (e, t) (All-set_insert (λ y. g < y) f l gt h.0, Ascending-set_insert f l h.1)
  ]
]

-- A set of supported frequencies.
record FreqSet (bands : BandInfo) (l : List ℕ) : Type 0 where
  pub ascending : Ascending l
  pub supported : All (λ f. in_all_freqs bands f ≡ true) l

insert_supported-FreqSet :
    (bands : BandInfo) (p : ℕ → Bool) (fs unique : List ℕ)
    → ((f : ℕ) → p f ≡ true → in_all_freqs bands f ≡ true)
    → FreqSet bands unique
    → FreqSet bands (insert_supported p fs unique)
unfolding insert_supported
insert_supported-FreqSet bands p [] unique w h = h
insert_supported-FreqSet bands p (f ∷ fs) unique w h = elim (Bool-cases (p f)) [
  | inl t ↦ rw t (
      insert_supported-FreqSet bands p fs (set_insert f unique) w (record {
        ascending = Ascending-set_insert f unique h.ascending;
        supported = All-set_insert (λ g. in_all_freqs bands g ≡ true) f unique (w f t) h.supported;
      }))
  | inr t ↦ rw t (insert_supported-FreqSet bands p fs unique w h)
]

-- What holds of the vectors that ParsePnoSettings fills.
pub record WithinLimits (max_sched max_match_sets : ℕ) (bands : BandInfo) (p : Parsed)
    : Type 0 where
  pub wildcard_first : (named : List Bytes) × (p.scan_ssids ≡ [] ∷ named)
  pub scan_ssids_fit : length p.scan_ssids ≤ max 1 max_sched
  pub match_ssids_fit : length p.match_ssids ≤ max_match_sets
  pub no_freqs_counted : p.num_networks_no_freqs ≤ length p.match_ssids
  pub freqs_ascend : Ascending p.unique_frequencies
  pub freqs_supported : All (λ f. in_all_freqs bands f ≡ true) p.unique_frequencies

match_network-WithinLimits :
    (k m : ℕ) (bands : BandInfo) (n : PnoNetwork) (p : Parsed)
    → WithinLimits k m bands p
    → WithinLimits k m bands (match_network m bands n p)
unfolding match_network
match_network-WithinLimits k m bands n p w = elim (Bool-cases (ltb m (length p.match_ssids + 1))) [
  | inl t ↦ rw t w
  | inr t ↦
      let s =
        insert_supported-FreqSet bands (in_all_freqs bands) n.frequencies p.unique_frequencies
          (λ f e. e) (record { ascending = w.freqs_ascend; supported = w.freqs_supported }) in
      rw t (record {
        wildcard_first = w.wildcard_first;
        scan_ssids_fit = w.scan_ssids_fit;
        match_ssids_fit =
            ground (arith, length-append p.match_ssids (n.ssid ∷ []), w.match_ssids_fit);
        no_freqs_counted =
            ground (arith, length-append p.match_ssids (n.ssid ∷ []), w.no_freqs_counted);
        freqs_ascend = s.ascending;
        freqs_supported = s.supported;
      })
]

parse_network-WithinLimits :
    (k m : ℕ) (bands : BandInfo) (n : PnoNetwork) (p : Parsed)
    → WithinLimits k m bands p
    → WithinLimits k m bands (parse_network k m bands n p)
unfolding parse_network
parse_network-WithinLimits k m bands n p w = elim (Bool-cases n.is_hidden) [
  | inr h ↦ simp h (match_network-WithinLimits k m bands n p w)
  | inl h ↦ elim (Bool-cases (ltb k (length p.scan_ssids + 1))) [
    | inl t ↦ simp (h, t) w
    | inr t ↦
        simp (h, t)
          (match_network-WithinLimits k m bands n _ (record {
            wildcard_first = let (named, e) = w.wildcard_first in (named ++ n.ssid ∷ [], rw e refl);
            scan_ssids_fit = ground (arith, length-append p.scan_ssids (n.ssid ∷ []));
            match_ssids_fit = w.match_ssids_fit;
            no_freqs_counted = w.no_freqs_counted;
            freqs_ascend = w.freqs_ascend;
            freqs_supported = w.freqs_supported;
          }))
  ]
]

parse_networks-WithinLimits :
    (k m : ℕ) (bands : BandInfo) (ns : List PnoNetwork) (p : Parsed)
    → WithinLimits k m bands p
    → WithinLimits k m bands (parse_networks k m bands ns p)
unfolding parse_networks
parse_networks-WithinLimits k m bands [] p w = w
parse_networks-WithinLimits k m bands (n ∷ ns) p w =
    parse_networks-WithinLimits k m bands ns _ (parse_network-WithinLimits k m bands n p w)

add_default_freqs-WithinLimits :
    (k m : ℕ) (bands : BandInfo) (p : Parsed)
    → WithinLimits k m bands p
    → WithinLimits k m bands (add_default_freqs bands p)
unfolding add_default_freqs
add_default_freqs-WithinLimits k m bands p w =
    elim (Bool-cases (ltb (30 * length p.match_ssids) (p.num_networks_no_freqs * 100))) [
      | inr t ↦ rw t w
      | inl t ↦
          let a =
            insert_supported-FreqSet bands (λ f. contains f bands.band_2g) pno_scan_default_freqs_2g
              p.unique_frequencies (λ f e. rw e refl)
              (record { ascending = w.freqs_ascend; supported = w.freqs_supported }) in
          let b =
            insert_supported-FreqSet bands (λ f. contains f bands.band_5g) pno_scan_default_freqs_5g
              _ (λ f e. ground arith) a in
          rw t (record {
            wildcard_first = w.wildcard_first;
            scan_ssids_fit = w.scan_ssids_fit;
            match_ssids_fit = w.match_ssids_fit;
            no_freqs_counted = w.no_freqs_counted;
            freqs_ascend = b.ascending;
            freqs_supported = b.supported;
          })
    ]

-- Whatever a client asks for, the vectors of a scheduled scan request stay within the limits that the
-- hardware states, where one ssid is allowed whatever they are; the ssids start with the wildcard; and the
-- frequencies are supported ones in ascending order without repetition.
pub parse_pno_settings-WithinLimits :
    (bands : BandInfo) (settings : PnoSettings) (s : Scanner)
    → WithinLimits s.scan_capabilities.max_num_sched_scan_ssids s.scan_capabilities.max_match_sets
        bands
        (parse_pno_settings bands settings s)
unfolding parse_pno_settings
parse_pno_settings-WithinLimits bands settings s = add_default_freqs-WithinLimits _ _ bands _ (
    parse_networks-WithinLimits _ _ bands settings.pno_networks _ (record {
      wildcard_first = ([], refl);
      scan_ssids_fit = omega arith;
      match_ssids_fit = omega arith;
      no_freqs_counted = omega arith;
      freqs_ascend = tt;
      freqs_supported = tt;
    }))
