-- ===== src/Parcels/Settings.antt =====
-- PnoSettings and SingleScanSettings come out of a parcel as they went in.
use dumbos_platform_system_c.Base.{
  ℕ, ◌<◌, ◌≡◌, refl, ap, sym, ◌∙◌, Bool, true, false, not, List, [], ◌∷◌, ◌++◌, arith, length, none,
  some, append-nil, append_assoc, if◌then◌else◌, ◌==◌, u32, Bytes,
}
use mathlib.Core.Path.{subst}
use dumbos_platform_system_c.Parcels.Interface.{
  Item, int32, uint32, int64, bool, byte_vector, int32_vector, Parcel, ParcelLaws,
}
use dumbos_platform_system_c.Parcels.Write.{
  scan_type_code, write_channel_settings, write_hidden_network, write_pno_network,
  write_pno_settings, write_settings, write_single_scan_settings,
}
use dumbos_platform_system_c.Parcels.Read.{
  ◌>>=◌, returns, rounds, scan_type_of, read_objects, read_channel_settings, read_hidden_network,
  read_pno_network, read_pno_settings, read_settings, read_single_scan_settings,
}
use dumbos_platform_system_c.Parcels.Laws.{
  object_items, Writes, Reads, write-Writes, then-Writes, write_objects-Writes, read_counted-Reads,
}
use dumbos_platform_system_c.Scanner.State.{
  ScanType, low_span, low_power, high_accuracy, default, other,
}
use dumbos_platform_system_c.Scanner.Request.{SingleScanSettings}
use dumbos_platform_system_c.Scanner.Pno.{PnoNetwork, PnoSettings}

abbrev pub flag : Bool → ℕ
flag b = if b then 1 else 0

pub flag-read : (b : Bool) → not (flag b == 0) ≡ b
flag-read true = refl
flag-read false = refl

abbrev network_items : PnoNetwork → List Item
network_items n = int32 (flag n.is_hidden) ∷ byte_vector n.ssid ∷ int32_vector n.frequencies ∷ []

abbrev pno_items : PnoSettings → List Item
pno_items s =
    int64 s.interval_ms
    ∷ int32 s.min_2g_rssi
    ∷ int32 s.min_5g_rssi
    ∷ int32 s.min_6g_rssi
    ∷ uint32 s.scan_iterations
    ∷ uint32 s.scan_interval_multiplier
    ∷ int32 (u32 (length s.pno_networks))
    ∷ object_items network_items s.pno_networks

module _ (P : Parcel) (L : ParcelLaws P) where
  open P use {Writing, Reading, write}
  open L use {
    Holds, Ahead, start_ahead, finds_int32, finds_uint32, finds_int64, finds_bool,
    finds_byte_vector, finds_int32_vector,
  }

  w : (i : Item) → Writes P L (write i) (i ∷ [])
  w i = write-Writes P L i

  write_pno_network-Writes : (n : PnoNetwork) → Writes P L (write_pno_network P n) (network_items n)
  unfolding write_pno_network
  write_pno_network-Writes n = then-Writes P L (then-Writes P L (w _) (w _)) (w _)

  read_pno_network-Reads : (n : PnoNetwork) → Reads P L (read_pno_network P) n (network_items n)
  read_pno_network-Reads n = record {
    run = λ r rest a.
        let (r1, e1, a1) = finds_int32 (flag n.is_hidden) r _ a in
        let (r2, e2, a2) = finds_byte_vector n.ssid r1 _ a1 in
        let (r3, e3, a3) = finds_int32_vector n.frequencies r2 _ a2 in
        (
          r3,
          unfold read_pno_network in
              rw (e1, ◌>>=◌) (rw (e2, ◌>>=◌) (rw (e3, ◌>>=◌) (rw (flag-read n.is_hidden) refl))),
          a3,
        );
  }

  write_pno_settings-Writes : (s : PnoSettings) → Writes P L (write_pno_settings P s) (pno_items s)
  unfolding write_pno_settings
  write_pno_settings-Writes s =
      then-Writes P L
        (then-Writes P L
          (then-Writes P L
            (then-Writes P L
              (then-Writes P L (then-Writes P L (then-Writes P L (w _) (w _)) (w _)) (w _)) (w _))
            (w _))
          (w _))
        (write_objects-Writes P L (write_pno_network P) network_items write_pno_network-Writes
          s.pno_networks)

  read_pno_settings-Reads :
      (s : PnoSettings)
      → length s.pno_networks < 2147483648
      → Reads P L (read_pno_settings P) s (pno_items s)
  read_pno_settings-Reads s short = record {
    run = λ r rest a.
        let (r1, e1, a1) = finds_int64 s.interval_ms r _ a in
        let (r2, e2, a2) = finds_int32 s.min_2g_rssi r1 _ a1 in
        let (r3, e3, a3) = finds_int32 s.min_5g_rssi r2 _ a2 in
        let (r4, e4, a4) = finds_int32 s.min_6g_rssi r3 _ a3 in
        let (r5, e5, a5) = finds_uint32 s.scan_iterations r4 _ a4 in
        let (r6, e6, a6) = finds_uint32 s.scan_interval_multiplier r5 _ a5 in
        let (r7, e7, a7) = finds_int32 (u32 (length s.pno_networks)) r6 _ a6 in
        let (r8, e8, a8) =
          (read_counted-Reads P L (read_pno_network P) network_items read_pno_network-Reads
              s.pno_networks short).run
            r7 rest a7 in
        let front : read_pno_settings P r
            ≡ (read_objects P (rounds (u32 (length s.pno_networks))) (read_pno_network P)
                  >>= λ networks. returns (record s { pno_networks = networks }))
                r7 =
          unfold read_pno_settings in
          rw (e1, ◌>>=◌)
            (rw (e2, ◌>>=◌)
              (rw (e3, ◌>>=◌)
                (rw (e4, ◌>>=◌) (rw (e5, ◌>>=◌) (rw (e6, ◌>>=◌) (rw (e7, ◌>>=◌) refl)))))) in
        (r8, front ∙ rw (e8, ◌>>=◌) refl, a8);
  }

  -- PnoSettings with fewer than 2 ^ 31 networks, written to an empty parcel and read from its start, is read
  -- as it was.
  pub read_pno_settings-write :
      (s : PnoSettings) (p : Writing)
      → Holds p []
      → length s.pno_networks < 2147483648
      → (q : Writing) × (r : Reading) × (write_pno_settings P s p ≡ some q)
        × (read_pno_settings P (P.start q) ≡ some (s, r))
  read_pno_settings-write s p empty short =
      let (q, e, h) = (write_pno_settings-Writes s).run p [] empty in
      let ahead =
        subst (λ k. Ahead (P.start q) k) (sym (append-nil (pno_items s))) (start_ahead q _ h) in
      let (r, e', a) = (read_pno_settings-Reads s short).run (P.start q) [] ahead in (q, r, e, e')

  abbrev channel_items : ℕ → List Item
  channel_items frequency = int32 frequency ∷ []

  abbrev hidden_items : Bytes → List Item
  hidden_items ssid = byte_vector ssid ∷ []

  abbrev settings_items : ℕ → SingleScanSettings → List Item
  settings_items code s =
      (((int32 code
            ∷ bool s.enable_6ghz_rnr
            ∷ int32 (u32 (length s.channel_settings))
            ∷ object_items channel_items s.channel_settings)
          ++ int32 (u32 (length s.hidden_networks)) ∷ [])
        ++ object_items hidden_items s.hidden_networks)
      ++ byte_vector s.vendor_ies ∷ []

  regroup :
      (channels size networks ies rest : List Item)
      → (((channels ++ size) ++ networks) ++ ies) ++ rest
        ≡ channels ++ (size ++ (networks ++ (ies ++ rest)))
  regroup channels size networks ies rest = simp append_assoc

  write_settings-Writes :
      (code : ℕ) (s : SingleScanSettings)
      → Writes P L (write_settings P code s) (settings_items code s)
  unfolding write_settings
  write_settings-Writes code s =
      then-Writes P L
        (then-Writes P L
          (then-Writes P L
            (then-Writes P L (then-Writes P L (then-Writes P L (w _) (w _)) (w _)) (
              write_objects-Writes P L (write_channel_settings P) channel_items
                (λ f. unfold write_channel_settings in w (int32 f)) s.channel_settings))
            (w _))
          (write_objects-Writes P L (write_hidden_network P) hidden_items
            (λ n. unfold write_hidden_network in w (byte_vector n)) s.hidden_networks))
        (w _)

  read_channel_settings-Reads : (f : ℕ) → Reads P L (read_channel_settings P) f (channel_items f)
  unfolding read_channel_settings
  read_channel_settings-Reads f = record { run = λ r rest a. finds_int32 f r rest a }

  read_hidden_network-Reads : (n : Bytes) → Reads P L (read_hidden_network P) n (hidden_items n)
  unfolding read_hidden_network
  read_hidden_network-Reads n = record { run = λ r rest a. finds_byte_vector n r rest a }

  read_single_scan_settings-Reads :
      (code : ℕ) (t : ScanType) (s : SingleScanSettings)
      → scan_type_of code ≡ some t
      → length s.channel_settings < 2147483648
      → length s.hidden_networks < 2147483648
      → Reads P L (read_single_scan_settings P) (record s { scan_type = t }) (settings_items code s)
  read_single_scan_settings-Reads code t s known short_channels short_networks = record {
    run = λ r rest a.
        let channels = object_items channel_items s.channel_settings in
        let networks = object_items hidden_items s.hidden_networks in
        let size : List Item = int32 (u32 (length s.hidden_networks)) ∷ [] in
        let ies : List Item = byte_vector s.vendor_ies ∷ [] in
        let (r1, e1, a1) = finds_int32 code r _ a in
        let (r2, e2, a2) = finds_bool s.enable_6ghz_rnr r1 _ a1 in
        let (r3, e3, a3) = finds_int32 (u32 (length s.channel_settings)) r2 _ a2 in
        let a3' = subst (λ k. Ahead r3 k) (regroup channels size networks ies rest) a3 in
        let (r4, e4, a4) =
          (read_counted-Reads P L (read_channel_settings P) channel_items
              read_channel_settings-Reads s.channel_settings short_channels).run
            r3 (size ++ (networks ++ (ies ++ rest))) a3' in
        let (r5, e5, a5) = finds_int32 (u32 (length s.hidden_networks)) r4 _ a4 in
        let (r6, e6, a6) =
          (read_counted-Reads P L (read_hidden_network P) hidden_items read_hidden_network-Reads
              s.hidden_networks short_networks).run
            r5 (ies ++ rest) a5 in
        let (r7, e7, a7) = finds_byte_vector s.vendor_ies r6 rest a6 in
        (
          r7,
          unfold read_single_scan_settings in
              rw (e1, ◌>>=◌)
                (rw (known) (
                  unfold read_settings in
                  rw (e2, ◌>>=◌)
                    (rw (e3, ◌>>=◌)
                      (rw (e4, ◌>>=◌) (rw (e5, ◌>>=◌) (rw (e6, ◌>>=◌) (rw (e7, ◌>>=◌) refl))))))),
          a7,
        );
  }

  scan_type_of-code :
      (t : ScanType) (code : ℕ) → scan_type_code t ≡ some code → scan_type_of code ≡ some t
  unfolding scan_type_of scan_type_code
  scan_type_of-code low_span code e = ground arith
  scan_type_of-code low_power code e = ground arith
  scan_type_of-code high_accuracy code e = ground arith
  scan_type_of-code default code e = ground arith
  scan_type_of-code other code e = ground arith

  write_single_scan_settings-known :
      (s : SingleScanSettings) (code : ℕ) (p : Writing)
      → scan_type_code s.scan_type ≡ some code
      → write_single_scan_settings P s p ≡ write_settings P code s p
  unfolding write_single_scan_settings
  write_single_scan_settings-known s code p known =
      ap (λ o. elim o [ none ↦ none | some c ↦ write_settings P c s p ]) known

  -- SingleScanSettings of a scan type that is valid, with lists of fewer than 2 ^ 31 elements, written to an
  -- empty parcel and read from its start, is read as it was.
  pub read_single_scan_settings-write :
      (s : SingleScanSettings) (code : ℕ) (p : Writing)
      → Holds p []
      → scan_type_code s.scan_type ≡ some code
      → length s.channel_settings < 2147483648
      → length s.hidden_networks < 2147483648
      → (q : Writing) × (r : Reading) × (write_single_scan_settings P s p ≡ some q)
        × (read_single_scan_settings P (P.start q) ≡ some (s, r))
  read_single_scan_settings-write s code p empty known channels networks =
      let items = settings_items code s in
      let (q, e, h) = (write_settings-Writes code s).run p [] empty in
      let ahead =
        subst (λ k. Ahead (P.start q) k) (sym (append-nil items)) (start_ahead q items h) in
      let (r, e', a) =
        (read_single_scan_settings-Reads code s.scan_type s
            (scan_type_of-code s.scan_type code known) channels networks).run
          (P.start q) [] ahead in
      (q, r, write_single_scan_settings-known s code p known ∙ e, e')
