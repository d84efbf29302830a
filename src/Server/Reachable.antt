-- ===== src/Server/Reachable.antt =====
-- The calls of Server as steps, and what holds in every state that they reach.
use dumbos_platform_system_c.Base.{
  ℕ, ◌≡◌, ◌≢◌, refl, sym, ◌∙◌, true, false, not, List, [], ◌∷◌, Option, none, some, arith, ◌==◌,
  Bool-cases, inl, inr, Bytes,
}
use dumbos_platform_system_c.Base.Assoc.{lookup, insert, erase}
use dumbos_platform_system_c.Server.State.{Server, InterfaceInfo, new_server}
use dumbos_platform_system_c.Server.Callbacks.{
  register_callback, unregister_callback, register_wificond_event_callback,
  unregister_wificond_event_callback,
}
use dumbos_platform_system_c.Server.BandMap.{
  update_band_wiphy_index_map, erase_band_wiphy_index_map,
}
use dumbos_platform_system_c.Server.Interfaces.{
  Kernel, Setup, has_wiphy, has_no_iface_for_wiphy_index, release_wiphys, setup_interface,
  create_client_interface, create_ap_interface, tear_down_client_interface, tear_down_ap_interface,
  tear_down_interfaces, member, finish_client, finish_ap, refresh_wiphy, refresh_names,
  handle_country_code_changed, on_reg_domain_change,
}
use dumbos_platform_system_c.Server.Bookkeeping.{
  Sorted, erase_wiphy-Sorted, lookup-erase_wiphy, without,
}
use dumbos_platform_system_c.Server.Ownership.{
  IsWellFormed, note_wiphy-IsWellFormed, forget_wiphy-IsWellFormed, Owns-update_map,
}

-- The kernel places the interfaces of a list on wiphys that wificond has interfaces on.
pub Places : Kernel → List (ℕ × ℕ) → List (ℕ × ℕ) → Type 0
Places kernel [] names = Unit
Places kernel ((name, object) ∷ m) names =
    ((w : ℕ) → kernel.get_wiphy_index name ≡ some w → has_wiphy w names ≡ true)
    × Places kernel m names

-- A call of Server. An interface is created under a name that is not in use; the kernel may answer anything
-- else, and different things at each call.
pub data Step : Server → Server → Type 0 where
  create_client :
      (kernel : Kernel) (name object : ℕ) (s : Server)
      → lookup name s.iface_to_wiphy_index_map ≡ none
      → Step s (create_client_interface kernel name object s).0
  create_ap :
      (kernel : Kernel) (name object : ℕ) (s : Server)
      → lookup name s.iface_to_wiphy_index_map ≡ none
      → Step s (create_ap_interface kernel name object s).0
  tear_down_client : (name : ℕ) (s : Server) → Step s (tear_down_client_interface name s).0
  tear_down_ap : (name : ℕ) (s : Server) → Step s (tear_down_ap_interface name s).0
  tear_down_all : (s : Server) → Step s (tear_down_interfaces s).0
  country_change :
      (kernel : Kernel) (wiphy_index : ℕ) (country_code : Bytes) (s : Server)
      → Places kernel s.client_interfaces s.iface_to_wiphy_index_map
      → Places kernel s.ap_interfaces s.iface_to_wiphy_index_map
      → Step s (on_reg_domain_change kernel wiphy_index country_code s).0
  register : (callback : ℕ) (s : Server) → Step s (register_callback callback s)
  unregister : (callback : ℕ) (s : Server) → Step s (unregister_callback callback s)
  register_wificond :
      (callback : ℕ) (s : Server) → Step s (register_wificond_event_callback callback s)
  unregister_wificond :
      (callback : ℕ) (s : Server) → Step s (unregister_wificond_event_callback callback s)

pub data Reachable : Server → Type 0 where
  start : Reachable new_server
  then_step : {s t : Server} → Reachable s → Step s t → Reachable t

-- SetupInterface touches neither map.
setup_keeps :
    (kernel : Kernel) (name : ℕ) (s : Server)
    → ((setup_interface kernel name s).server.band_to_wiphy_index_map ≡ s.band_to_wiphy_index_map)
      × ((setup_interface kernel name s).server.iface_to_wiphy_index_map
          ≡ s.iface_to_wiphy_index_map)
unfolding setup_interface
setup_keeps kernel name s = ground arith

finish_client-IsWellFormed :
    (kernel : Kernel) (name object : ℕ) (set : Setup) (found : Option (InterfaceInfo × ℕ))
    → set.interface ≡ found
    → lookup name set.server.iface_to_wiphy_index_map ≡ none
    → IsWellFormed set.server
    → IsWellFormed (finish_client kernel name object set).0
finish_client-IsWellFormed kernel name object set none e fresh o = rw e o
finish_client-IsWellFormed kernel name object set (some found) e fresh o = rw e (
    note_wiphy-IsWellFormed kernel name found.1
      (record (set.server) { client_interfaces = insert name object set.server.client_interfaces })
      fresh o)

finish_ap-IsWellFormed :
    (kernel : Kernel) (name object : ℕ) (set : Setup) (found : Option (InterfaceInfo × ℕ))
    → set.interface ≡ found
    → lookup name set.server.iface_to_wiphy_index_map ≡ none
    → IsWellFormed set.server
    → IsWellFormed (finish_ap kernel name object set).0
finish_ap-IsWellFormed kernel name object set none e fresh o = rw e o
finish_ap-IsWellFormed kernel name object set (some found) e fresh o = rw e (
    note_wiphy-IsWellFormed kernel name found.1
      (record (set.server) { ap_interfaces = insert name object set.server.ap_interfaces }) fresh o)

create-IsWellFormed :
    (kernel : Kernel) (name object : ℕ) (s : Server)
    → lookup name s.iface_to_wiphy_index_map ≡ none
    → IsWellFormed s
    → IsWellFormed (create_client_interface kernel name object s).0
      × IsWellFormed (create_ap_interface kernel name object s).0
unfolding create_client_interface create_ap_interface
create-IsWellFormed kernel name object s fresh o =
    let (bands, names) = setup_keeps kernel name s in
    let set = setup_interface kernel name s in
    let still_fresh : lookup name set.server.iface_to_wiphy_index_map ≡ none = rw names fresh in
    let still : IsWellFormed set.server = rw (bands, names) o in
    (
      finish_client-IsWellFormed kernel name object set _ refl still_fresh still,
      finish_ap-IsWellFormed kernel name object set _ refl still_fresh still,
    )

tear_down-IsWellFormed :
    (name : ℕ) (s : Server)
    → IsWellFormed s
    → IsWellFormed (tear_down_client_interface name s).0
      × IsWellFormed (tear_down_ap_interface name s).0
unfolding tear_down_client_interface tear_down_ap_interface
tear_down-IsWellFormed name s o = (client _ refl, ap_side _ refl)
  where
    client :
        (found : Option ℕ)
        → lookup name s.client_interfaces ≡ found
        → IsWellFormed (tear_down_client_interface name s).0
    client none e = rw (e, tear_down_client_interface) (forget_wiphy-IsWellFormed name s o)
    client (some object) e =
        rw (e, tear_down_client_interface)
          (forget_wiphy-IsWellFormed name
            (record s { client_interfaces = erase name s.client_interfaces }) o)

    ap_side :
        (found : Option ℕ)
        → lookup name s.ap_interfaces ≡ found
        → IsWellFormed (tear_down_ap_interface name s).0
    ap_side none e = rw (e, tear_down_ap_interface) (forget_wiphy-IsWellFormed name s o)
    ap_side (some object) e =
        rw (e, tear_down_ap_interface)
          (forget_wiphy-IsWellFormed name (record s { ap_interfaces = erase name s.ap_interfaces })
            o)

without-some :
    (v w : ℕ) (found : Option ℕ) → without v found ≡ some w → (found ≡ some w) × ((v == w) ≡ false)
without-some v w none e = cc
without-some v w (some u) e = elim (Bool-cases (u == v)) [
  | inl y ↦ cc
  | inr y ↦ (ground arith, ground arith)
]

-- The last loop of tearDownInterfaces leaves no band with a wiphy of the list.
release_keeps :
    (m : List (ℕ × ℕ)) (s : Server)
    → Sorted s.band_to_wiphy_index_map
    → Sorted (release_wiphys m s).0.band_to_wiphy_index_map
      × ((band w : ℕ)
          → lookup band (release_wiphys m s).0.band_to_wiphy_index_map ≡ some w
          → (lookup band s.band_to_wiphy_index_map ≡ some w) × (has_wiphy w m ≡ false))
unfolding release_wiphys erase_band_wiphy_index_map
release_keeps [] s d = (d, λ band w h. (h, refl))
release_keeps ((name, v) ∷ m) s d =
    let erased = erase_band_wiphy_index_map v s in
    let (sorted, rest) =
      release_keeps m erased (erase_wiphy-Sorted v s.band_to_wiphy_index_map d) in
    (
      sorted,
      λ band w h.
          let (kept, other) = rest band w h in
          let (before, ne) =
            without-some v w (lookup band s.band_to_wiphy_index_map)
              (sym (lookup-erase_wiphy v s.band_to_wiphy_index_map band d) ∙ kept) in
          (before, rw ne other),
    )

release_others :
    (m : List (ℕ × ℕ)) (s : Server)
    → ((release_wiphys m s).0.client_interfaces ≡ s.client_interfaces)
      × ((release_wiphys m s).0.ap_interfaces ≡ s.ap_interfaces)
unfolding release_wiphys erase_band_wiphy_index_map
release_others [] s = (refl, refl)
release_others ((name, v) ∷ m) s = release_others m (erase_band_wiphy_index_map v s)

-- tearDownInterfaces leaves no interface, and in the end no band.
pub tear_down_interfaces_lem :
    (s : Server)
    → IsWellFormed s
    → ((tear_down_interfaces s).0.client_interfaces ≡ [])
      × ((tear_down_interfaces s).0.ap_interfaces ≡ [])
      × ((tear_down_interfaces s).0.iface_to_wiphy_index_map ≡ [])
      × ((band : ℕ) → lookup band (tear_down_interfaces s).0.band_to_wiphy_index_map ≡ none)
unfolding tear_down_interfaces
tear_down_interfaces_lem s o =
    let cleared = record s { client_interfaces = []; ap_interfaces = [] } in
    let (clients, aps) = release_others s.iface_to_wiphy_index_map cleared in
    let (sorted, rest) = release_keeps s.iface_to_wiphy_index_map cleared o.bands_sorted in
    (
      clients,
      aps,
      refl,
      λ band.
          absent _ (λ w h. let (before, gone) = rest band w h in cc (o.owned band w before, gone)),
    )
  where
    absent : (found : Option ℕ) → ((w : ℕ) → found ≢ some w) → found ≡ none
    absent none h = refl
    absent (some w) h = absurd (h w refl)

refresh_wiphy-IsWellFormed :
    (kernel : Kernel) (found : Option ℕ) (s : Server) (seen : List ℕ)
    → ((w : ℕ) → found ≡ some w → has_wiphy w s.iface_to_wiphy_index_map ≡ true)
    → IsWellFormed s
    → IsWellFormed (refresh_wiphy kernel found (s, seen)).0
      × ((refresh_wiphy kernel found (s, seen)).0.iface_to_wiphy_index_map
          ≡ s.iface_to_wiphy_index_map)
unfolding refresh_wiphy update_band_wiphy_index_map
refresh_wiphy-IsWellFormed kernel none s seen p o = (o, refl)
refresh_wiphy-IsWellFormed kernel (some w) s seen p o = elim (Bool-cases (member w seen)) [
  | inl e ↦ rw e (o, refl)
  | inr e ↦ rw e (Owns-update_map (kernel.get_wiphy_info w) w _ _ (p w refl) o, refl)
]

refresh_names-IsWellFormed :
    (kernel : Kernel) (m : List (ℕ × ℕ)) (s : Server) (seen : List ℕ)
    → Places kernel m s.iface_to_wiphy_index_map
    → IsWellFormed s
    → IsWellFormed (refresh_names kernel m (s, seen)).0
      × ((refresh_names kernel m (s, seen)).0.iface_to_wiphy_index_map ≡ s.iface_to_wiphy_index_map)
unfolding refresh_names Places
refresh_names-IsWellFormed kernel [] s seen p o = (o, refl)
refresh_names-IsWellFormed kernel ((name, object) ∷ m) s seen p o =
    let (first, same) =
      refresh_wiphy-IsWellFormed kernel (kernel.get_wiphy_index name) s seen p.0 o in
    let next = refresh_wiphy kernel (kernel.get_wiphy_index name) (s, seen) in
    let (rest, still) = refresh_names-IsWellFormed kernel m next.0 next.1 (rw same p.1) first in
    (rest, still ∙ same)

on_reg_domain_change-IsWellFormed :
    (kernel : Kernel) (w : ℕ) (code : Bytes) (s : Server)
    → Places kernel s.client_interfaces s.iface_to_wiphy_index_map
    → Places kernel s.ap_interfaces s.iface_to_wiphy_index_map
    → IsWellFormed s
    → IsWellFormed (on_reg_domain_change kernel w code s).0
unfolding on_reg_domain_change handle_country_code_changed
on_reg_domain_change-IsWellFormed kernel w code s clients aps o =
    elim (Bool-cases (not (has_no_iface_for_wiphy_index w s))) [
      | inl e ↦
          let (first, same) =
            refresh_names-IsWellFormed kernel s.client_interfaces s [] clients o in
          let next = refresh_names kernel s.client_interfaces (s, []) in
          let second =
            refresh_names-IsWellFormed kernel s.ap_interfaces next.0 next.1 (rw same aps) first in
          rw e second.0
      | inr e ↦ rw e o
    ]

tear_down_all-IsWellFormed : (s : Server) → IsWellFormed s → IsWellFormed (tear_down_interfaces s).0
unfolding tear_down_interfaces
tear_down_all-IsWellFormed s o =
    let cleared = record s { client_interfaces = []; ap_interfaces = [] } in
    let (sorted, rest) = release_keeps s.iface_to_wiphy_index_map cleared o.bands_sorted in
    record {
      bands_sorted = sorted;
      names_sorted = unfold Sorted in tt;
      owned = λ band w h. cc ((tear_down_interfaces_lem s o).3 band, h);
    }

Step-IsWellFormed : {s t : Server} → Step s t → IsWellFormed s → IsWellFormed t
Step-IsWellFormed (create_client kernel name object s fresh) o =
    (create-IsWellFormed kernel name object s fresh o).0
Step-IsWellFormed (create_ap kernel name object s fresh) o =
    (create-IsWellFormed kernel name object s fresh o).1
Step-IsWellFormed (tear_down_client name s) o = (tear_down-IsWellFormed name s o).0
Step-IsWellFormed (tear_down_ap name s) o = (tear_down-IsWellFormed name s o).1
Step-IsWellFormed (tear_down_all s) o = tear_down_all-IsWellFormed s o
Step-IsWellFormed (country_change kernel w code s clients aps) o =
    on_reg_domain_change-IsWellFormed kernel w code s clients aps o
Step-IsWellFormed (register callback s) o = unfold register_callback in o
Step-IsWellFormed (unregister callback s) o = unfold unregister_callback in o
Step-IsWellFormed (register_wificond callback s) o = unfold register_wificond_event_callback in o
Step-IsWellFormed (unregister_wificond callback s) o =
    unfold unregister_wificond_event_callback in o

-- In every state that Server reaches from its construction, the two maps are in the order of their keys and
-- every band belongs to a wiphy that has an interface.
pub Reachable-IsWellFormed : {s : Server} → Reachable s → IsWellFormed s
Reachable-IsWellFormed start = record {
  bands_sorted = unfold Sorted in tt;
  names_sorted = unfold Sorted in tt;
  owned = λ band w h. cc;
}
Reachable-IsWellFormed (then_step r step) = Step-IsWellFormed step (Reachable-IsWellFormed r)
