-- ===== src/Parcels/Results.antt =====
-- NativeScanResult and DeviceWiphyCapabilities come out of a parcel as they went in.
use dumbos_platform_system_c.Base.{
  ℕ, ◌<◌, ◌≡◌, refl, sym, ◌∙◌, List, [], ◌∷◌, arith, length, some, append-nil, u16, u32,
}
use mathlib.Core.Path.{subst}
use dumbos_platform_system_c.Parcels.Interface.{
  Item, int32, uint32, uint64, bool, byte_vector, Parcel, ParcelLaws,
}
use dumbos_platform_system_c.Parcels.Write.{
  DeviceWiphyCapabilities, write_radio_chain_info, write_native_scan_result,
  write_device_wiphy_capabilities,
}
use dumbos_platform_system_c.Parcels.Read.{
  ◌>>=◌, returns, rounds, read_objects, read_radio_chain_info, read_native_scan_result,
  read_device_wiphy_capabilities,
}
use dumbos_platform_system_c.Parcels.Laws.{
  object_items, Writes, Reads, write-Writes, then-Writes, write_objects-Writes, read_counted-Reads,
}
use dumbos_platform_system_c.Parcels.Settings.{flag, flag-read}
use dumbos_platform_system_c.Results.{RadioChainInfo, NativeScanResult}

-- What the types of the fields promise: an array of 6 bytes, 16 bits, and a list that an int32_t counts.
pub record FitsParcel (s : NativeScanResult) : Type 0 where
  pub bssid_fits : length s.bssid ≡ 6
  pub capability_fits : s.capability < 65536
  pub chains_fit : length s.radio_chain_infos < 2147483648

abbrev chain_items : RadioChainInfo → List Item
chain_items info = int32 info.chain_id ∷ int32 info.level ∷ []

abbrev result_items : NativeScanResult → List Item
result_items s =
    byte_vector s.ssid
    ∷ byte_vector s.bssid
    ∷ byte_vector s.info_element
    ∷ uint32 s.frequency
    ∷ int32 s.signal_mbm
    ∷ uint64 s.tsf
    ∷ uint32 s.capability
    ∷ int32 (flag s.associated)
    ∷ int32 (u32 (length s.radio_chain_infos))
    ∷ object_items chain_items s.radio_chain_infos

abbrev capability_items : DeviceWiphyCapabilities → List Item
capability_items c =
    bool c.is80211n_supported
    ∷ bool c.is80211ac_supported
    ∷ bool c.is80211ax_supported
    ∷ bool c.is80211be_supported
    ∷ bool c.is160_mhz_supported
    ∷ bool c.is80p80_mhz_supported
    ∷ bool c.is320_mhz_supported
    ∷ uint32 c.max_tx_streams
    ∷ uint32 c.max_rx_streams
    ∷ []

u16-small : (n : ℕ) → n < 65536 → u16 n ≡ n
u16-small n h = omega arith

module _ (P : Parcel) (L : ParcelLaws P) where
  open P use {Writing, Reading, write}
  open L use {
    Holds, Ahead, start_ahead, finds_int32, finds_uint32, finds_uint64, finds_bool,
    finds_byte_vector,
  }

  w : (i : Item) → Writes P L (write i) (i ∷ [])
  w i = write-Writes P L i

  write_radio_chain_info-Writes :
      (info : RadioChainInfo) → Writes P L (write_radio_chain_info P info) (chain_items info)
  unfolding write_radio_chain_info
  write_radio_chain_info-Writes info = then-Writes P L (w _) (w _)

  read_radio_chain_info-Reads :
      (info : RadioChainInfo) → Reads P L (read_radio_chain_info P) info (chain_items info)
  read_radio_chain_info-Reads info = record {
    run = λ r rest a.
        let (r1, e1, a1) = finds_int32 info.chain_id r _ a in
        let (r2, e2, a2) = finds_int32 info.level r1 _ a1 in
        (r2, unfold read_radio_chain_info in rw (e1, ◌>>=◌) (rw (e2, ◌>>=◌) refl), a2);
  }

  write_native_scan_result-Writes :
      (s : NativeScanResult) → Writes P L (write_native_scan_result P s) (result_items s)
  unfolding write_native_scan_result
  write_native_scan_result-Writes s =
      then-Writes P L
        (then-Writes P L
          (then-Writes P L
            (then-Writes P L
              (then-Writes P L
                (then-Writes P L
                  (then-Writes P L (then-Writes P L (then-Writes P L (w _) (w _)) (w _)) (w _))
                  (w _))
                (w _))
              (w _))
            (w _))
          (w _))
        (write_objects-Writes P L (write_radio_chain_info P) chain_items
          write_radio_chain_info-Writes s.radio_chain_infos)

  read_native_scan_result-Reads :
      (s : NativeScanResult)
      → FitsParcel s
      → Reads P L (read_native_scan_result P) s (result_items s)
  read_native_scan_result-Reads s fits = record {
    run = λ r rest a.
        let (r1, e1, a1) = finds_byte_vector s.ssid r _ a in
        let (r2, e2, a2) = finds_byte_vector s.bssid r1 _ a1 in
        let (r3, e3, a3) = finds_byte_vector s.info_element r2 _ a2 in
        let (r4, e4, a4) = finds_uint32 s.frequency r3 _ a3 in
        let (r5, e5, a5) = finds_int32 s.signal_mbm r4 _ a4 in
        let (r6, e6, a6) = finds_uint64 s.tsf r5 _ a5 in
        let (r7, e7, a7) = finds_uint32 s.capability r6 _ a6 in
        let (r8, e8, a8) = finds_int32 (flag s.associated) r7 _ a7 in
        let (r9, e9, a9) = finds_int32 (u32 (length s.radio_chain_infos)) r8 _ a8 in
        let (r10, e10, a10) =
          (read_counted-Reads P L (read_radio_chain_info P) chain_items read_radio_chain_info-Reads
              s.radio_chain_infos fits.chains_fit).run
            r9 rest a9 in
        let front : read_native_scan_result P r
            ≡ (read_objects P (rounds (u32 (length s.radio_chain_infos))) (read_radio_chain_info P)
                  >>= λ chains. returns (record s { radio_chain_infos = chains }))
                r9 =
          unfold read_native_scan_result in
          rw (e1, ◌>>=◌)
            (rw (e2, ◌>>=◌)
              (rw (fits.bssid_fits) (
                rw (e3, ◌>>=◌)
                  (rw (e4, ◌>>=◌)
                    (rw (e5, ◌>>=◌)
                      (rw (e6, ◌>>=◌)
                        (rw (e7, ◌>>=◌)
                          (rw (e8, ◌>>=◌)
                            (rw (e9, ◌>>=◌)
                              (rw
                                (
                                  flag-read s.associated,
                                  u16-small s.capability fits.capability_fits,
                                )
                                refl)))))))))) in
        (r10, front ∙ rw (e10, ◌>>=◌) refl, a10);
  }

  -- A NativeScanResult whose BSSID has 6 bytes, whose capability has 16 bits and that has fewer than 2 ^ 31
  -- radio chains, written to an empty parcel and read from its start, is read as it was.
  pub read_native_scan_result-write :
      (s : NativeScanResult) (p : Writing)
      → Holds p []
      → FitsParcel s
      → (q : Writing) × (r : Reading) × (write_native_scan_result P s p ≡ some q)
        × (read_native_scan_result P (P.start q) ≡ some (s, r))
  read_native_scan_result-write s p empty fits =
      let (q, e, h) = (write_native_scan_result-Writes s).run p [] empty in
      let ahead =
        subst (λ k. Ahead (P.start q) k) (sym (append-nil (result_items s))) (start_ahead q _ h) in
      let (r, e', a) = (read_native_scan_result-Reads s fits).run (P.start q) [] ahead in
      (q, r, e, e')

  write_device_wiphy_capabilities-Writes :
      (c : DeviceWiphyCapabilities)
      → Writes P L (write_device_wiphy_capabilities P c) (capability_items c)
  unfolding write_device_wiphy_capabilities
  write_device_wiphy_capabilities-Writes c =
      then-Writes P L
        (then-Writes P L
          (then-Writes P L
            (then-Writes P L
              (then-Writes P L
                (then-Writes P L (then-Writes P L (then-Writes P L (w _) (w _)) (w _)) (w _)) (w _))
              (w _))
            (w _))
          (w _))
        (w _)

  read_device_wiphy_capabilities-Reads :
      (c : DeviceWiphyCapabilities)
      → Reads P L (read_device_wiphy_capabilities P) c (capability_items c)
  read_device_wiphy_capabilities-Reads c = record {
    run = λ r rest a.
        let (r1, e1, a1) = finds_bool c.is80211n_supported r _ a in
        let (r2, e2, a2) = finds_bool c.is80211ac_supported r1 _ a1 in
        let (r3, e3, a3) = finds_bool c.is80211ax_supported r2 _ a2 in
        let (r4, e4, a4) = finds_bool c.is80211be_supported r3 _ a3 in
        let (r5, e5, a5) = finds_bool c.is160_mhz_supported r4 _ a4 in
        let (r6, e6, a6) = finds_bool c.is80p80_mhz_supported r5 _ a5 in
        let (r7, e7, a7) = finds_bool c.is320_mhz_supported r6 _ a6 in
        let (r8, e8, a8) = finds_uint32 c.max_tx_streams r7 _ a7 in
        let (r9, e9, a9) = finds_uint32 c.max_rx_streams r8 _ a8 in
        (
          r9,
          unfold read_device_wiphy_capabilities in
              rw (e1, ◌>>=◌)
                (rw (e2, ◌>>=◌)
                  (rw (e3, ◌>>=◌)
                    (rw (e4, ◌>>=◌)
                      (rw (e5, ◌>>=◌)
                        (rw (e6, ◌>>=◌)
                          (rw (e7, ◌>>=◌) (rw (e8, ◌>>=◌) (rw (e9, ◌>>=◌) refl)))))))),
          a9,
        );
  }

  -- DeviceWiphyCapabilities, written to an empty parcel and read from its start, is read as it was.
  pub read_device_wiphy_capabilities-write :
      (c : DeviceWiphyCapabilities) (p : Writing)
      → Holds p []
      → (q : Writing) × (r : Reading) × (write_device_wiphy_capabilities P c p ≡ some q)
        × (read_device_wiphy_capabilities P (P.start q) ≡ some (c, r))
  read_device_wiphy_capabilities-write c p empty =
      let (q, e, h) = (write_device_wiphy_capabilities-Writes c).run p [] empty in
      let ahead =
        subst (λ k. Ahead (P.start q) k) (sym (append-nil (capability_items c)))
          (start_ahead q _ h) in
      let (r, e', a) = (read_device_wiphy_capabilities-Reads c).run (P.start q) [] ahead in
      (q, r, e, e')
