-- ===== src/Server/Interfaces.antt =====
-- Creation and tear-down of interfaces, and changes of the regulatory domain. The answers of
-- NetlinkUtils enter as functions; an Effect list holds the calls to the outside in order.
use dumbos_platform_system_c.Base.{
  ℕ, Bool, true, false, not, List, [], ◌∷◌, ◌++◌, map, Option, none, some, ◌==◌, is_empty,
  if◌then◌else◌, Bytes,
}
use dumbos_platform_system_c.Base.Assoc.{lookup, insert, erase}
use dumbos_platform_system_c.Wiphy.Info.{BandInfo}
use dumbos_platform_system_c.Server.State.{
  Server, InterfaceInfo, Effect, set_up_state_down, subscribe_reg_domain_change,
  unsubscribe_reg_domain_change, update_band_info,
}
use dumbos_platform_system_c.Server.Callbacks.{
  broadcast_client_interface_ready, broadcast_ap_interface_ready,
  broadcast_client_interface_torn_down, broadcast_ap_interface_torn_down,
  broadcast_reg_domain_changed,
}
use dumbos_platform_system_c.Server.BandMap.{
  update_band_wiphy_index_map, erase_band_wiphy_index_map,
}

-- The answers of NetlinkUtils that Server uses: GetWiphyIndex, GetInterfaces, GetWiphyInfo,
-- GetCountryCode. GetInterfaces returns its Boolean and the interfaces read up to then.
pub record Kernel : Type 0 where
  pub get_wiphy_index : ℕ → Option ℕ
  pub get_interfaces : ℕ → Bool × List InterfaceInfo
  pub get_wiphy_info : ℕ → Option BandInfo
  pub get_country_code : Option Bytes

abbrev pub has_wiphy : ℕ → List (ℕ × ℕ) → Bool
has_wiphy wiphy_index [] = false
has_wiphy wiphy_index ((name, w) ∷ m) = if w == wiphy_index then true else has_wiphy wiphy_index m

-- hasNoIfaceForWiphyIndex.
unfoldable pub has_no_iface_for_wiphy_index : ℕ → Server → Bool
has_no_iface_for_wiphy_index wiphy_index s = not (has_wiphy wiphy_index s.iface_to_wiphy_index_map)

-- The loop of SetupInterface over the cached interfaces.
abbrev find_interface : ℕ → List InterfaceInfo → Option InterfaceInfo
find_interface iface_name [] = none
find_interface iface_name (iface ∷ ifaces) =
    if iface.name == iface_name then some iface else find_interface iface_name ifaces

pub record Setup : Type 0 where
  pub server : Server
  pub effects : List Effect
  -- The interface and its wiphy index, where the call returns true.
  pub interface : Option (InterfaceInfo × ℕ)

abbrev with_wiphy : ℕ → Option InterfaceInfo → Option (InterfaceInfo × ℕ)
with_wiphy wiphy_index none = none
with_wiphy wiphy_index (some iface) = some (iface, wiphy_index)

abbrev setup_on : ℕ → ℕ → Bool × List InterfaceInfo → Server → Setup
setup_on iface_name wiphy_index (false, ifaces) s = record {
  server = record s { debug_interfaces = ifaces };
  effects = subscribe_reg_domain_change wiphy_index ∷ [];
  interface = none;
}
setup_on iface_name wiphy_index (true, ifaces) s = record {
  server = record s { debug_interfaces = ifaces };
  effects = subscribe_reg_domain_change wiphy_index ∷ [];
  interface = with_wiphy wiphy_index (find_interface iface_name ifaces);
}

setup_wiphy : Kernel → ℕ → Option ℕ → Server → Setup
setup_wiphy kernel iface_name none s = record { server = s; effects = []; interface = none }
setup_wiphy kernel iface_name (some wiphy_index) s =
    setup_on iface_name wiphy_index (kernel.get_interfaces wiphy_index) s

-- SetupInterface.
unfoldable pub setup_interface : Kernel → ℕ → Server → Setup
unfolding setup_wiphy
setup_interface kernel iface_name s =
    setup_wiphy kernel iface_name (kernel.get_wiphy_index iface_name) s

-- What both create functions do with the maps once the interface object is stored.
unfoldable pub note_wiphy : Kernel → ℕ → ℕ → Server → Server
unfolding has_no_iface_for_wiphy_index update_band_wiphy_index_map
note_wiphy kernel iface_name wiphy_index s =
    let updated =
      if has_no_iface_for_wiphy_index wiphy_index s
      then update_band_wiphy_index_map kernel.get_wiphy_info wiphy_index s
      else s in
    record updated {
      iface_to_wiphy_index_map = insert iface_name wiphy_index updated.iface_to_wiphy_index_map;
    }

abbrev pub finish_client : Kernel → ℕ → ℕ → Setup → Server × List Effect × Option ℕ
finish_client kernel iface_name object set = elim set.interface [
  | none ↦ (set.server, set.effects, none)
  | some found ↦ (
    note_wiphy kernel iface_name found.1 (record (set.server) {
      client_interfaces = insert iface_name object set.server.client_interfaces;
    }),
    set.effects ++ broadcast_client_interface_ready object set.server,
    some object,
  )
]

-- createClientInterface; `object` is the new interface object. The result's last part is the binder.
unfoldable pub create_client_interface : Kernel → ℕ → ℕ → Server → Server × List Effect × Option ℕ
unfolding setup_interface note_wiphy
create_client_interface kernel iface_name object s =
    finish_client kernel iface_name object (setup_interface kernel iface_name s)

abbrev pub finish_ap : Kernel → ℕ → ℕ → Setup → Server × List Effect × Option ℕ
finish_ap kernel iface_name object set = elim set.interface [
  | none ↦ (set.server, set.effects, none)
  | some found ↦ (
    note_wiphy kernel iface_name found.1
        (record (set.server) { ap_interfaces = insert iface_name object set.server.ap_interfaces }),
    set.effects ++ broadcast_ap_interface_ready object set.server,
    some object,
  )
]

-- createApInterface.
unfoldable pub create_ap_interface : Kernel → ℕ → ℕ → Server → Server × List Effect × Option ℕ
unfolding setup_interface note_wiphy
create_ap_interface kernel iface_name object s =
    finish_ap kernel iface_name object (setup_interface kernel iface_name s)

unfoldable pub forget_entry : ℕ → Option ℕ → Server → Server
unfolding has_no_iface_for_wiphy_index erase_band_wiphy_index_map
forget_entry iface_name none s = s
forget_entry iface_name (some wiphy_index) s =
    let erased = record s {
      iface_to_wiphy_index_map = erase iface_name s.iface_to_wiphy_index_map;
    } in
    if has_no_iface_for_wiphy_index wiphy_index erased
    then erase_band_wiphy_index_map wiphy_index erased
    else erased

-- The second half of both tear-down functions: the name leaves the wiphy map, and the bands of its
-- wiphy go when no other interface is on it.
unfoldable pub forget_wiphy : ℕ → Server → Server
unfolding forget_entry has_no_iface_for_wiphy_index erase_band_wiphy_index_map
forget_wiphy iface_name s = forget_entry iface_name (lookup iface_name s.iface_to_wiphy_index_map) s

-- tearDownClientInterface.
unfoldable pub tear_down_client_interface : ℕ → Server → Server × List Effect × Bool
unfolding forget_wiphy
tear_down_client_interface iface_name s = elim (lookup iface_name s.client_interfaces) [
  | none ↦ (forget_wiphy iface_name s, [], false)
  | some object ↦ (
    forget_wiphy iface_name (record s { client_interfaces = erase iface_name s.client_interfaces }),
    broadcast_client_interface_torn_down object s,
    true,
  )
]

-- tearDownApInterface.
unfoldable pub tear_down_ap_interface : ℕ → Server → Server × List Effect × Bool
unfolding forget_wiphy
tear_down_ap_interface iface_name s = elim (lookup iface_name s.ap_interfaces) [
  | none ↦ (forget_wiphy iface_name s, [], false)
  | some object ↦ (
    forget_wiphy iface_name (record s { ap_interfaces = erase iface_name s.ap_interfaces }),
    broadcast_ap_interface_torn_down object s,
    true,
  )
]

abbrev torn_down : (ℕ → Server → List Effect) → List (ℕ × ℕ) → Server → List Effect
torn_down broadcast [] s = []
torn_down broadcast ((name, object) ∷ m) s = broadcast object s ++ torn_down broadcast m s

-- MarkDownAllInterfaces.
unfoldable pub mark_down_all_interfaces : List (ℕ × ℕ) → List Effect
mark_down_all_interfaces m = map (λ entry. set_up_state_down entry.0) m

-- The last loop of tearDownInterfaces.
unfoldable pub release_wiphys : List (ℕ × ℕ) → Server → Server × List Effect
release_wiphys [] s = (s, [])
release_wiphys ((name, wiphy_index) ∷ m) s =
    let rest = release_wiphys m (erase_band_wiphy_index_map wiphy_index s) in
    (rest.0, unsubscribe_reg_domain_change wiphy_index ∷ rest.1)

-- tearDownInterfaces.
unfoldable pub tear_down_interfaces : Server → Server × List Effect
unfolding release_wiphys mark_down_all_interfaces
tear_down_interfaces s =
    let cleared = record s { client_interfaces = []; ap_interfaces = [] } in
    let released = release_wiphys s.iface_to_wiphy_index_map cleared in
    (
      record (released.0) { iface_to_wiphy_index_map = [] },
      torn_down broadcast_client_interface_torn_down s.client_interfaces s
          ++ (torn_down broadcast_ap_interface_torn_down s.ap_interfaces s
              ++ (mark_down_all_interfaces s.iface_to_wiphy_index_map ++ released.1)),
    )

abbrev pub member : ℕ → List ℕ → Bool
member w [] = false
member w (v ∷ vs) = if v == w then true else member w vs

unfoldable pub refresh_wiphy : Kernel → Option ℕ → Server × List ℕ → Server × List ℕ
refresh_wiphy kernel none (s, handled) = (s, handled)
refresh_wiphy kernel (some w) (s, handled) =
    if member w handled
    then (s, handled)
    else (update_band_wiphy_index_map kernel.get_wiphy_info w s, w ∷ handled)

unfoldable pub refresh_names : Kernel → List (ℕ × ℕ) → Server × List ℕ → Server × List ℕ
refresh_names kernel [] state = state
refresh_names kernel ((name, object) ∷ m) state =
    refresh_names kernel m (refresh_wiphy kernel (kernel.get_wiphy_index name) state)

-- handleCountryCodeChanged, which is all that notifyCountryCodeChanged does; the second component asks
-- each client interface for UpdateBandInfo.
unfoldable pub handle_country_code_changed : Kernel → Server → Server × List Effect
unfolding refresh_names refresh_wiphy update_band_wiphy_index_map
handle_country_code_changed kernel s = (
  (refresh_names kernel s.ap_interfaces (refresh_names kernel s.client_interfaces (s, []))).0,
  map (λ entry. update_band_info entry.1) s.client_interfaces,
)

abbrev current_country_code : Kernel → Bytes → Bytes
current_country_code kernel country_code =
    if is_empty country_code
    then elim (kernel.get_country_code) [ none ↦ [] | some code ↦ code ]
    else country_code

-- OnRegDomainChanged.
unfoldable pub on_reg_domain_change : Kernel → ℕ → Bytes → Server → Server × List Effect
unfolding handle_country_code_changed has_no_iface_for_wiphy_index
on_reg_domain_change kernel wiphy_index country_code s =
    let code = current_country_code kernel country_code in
    let changed =
      if not (has_no_iface_for_wiphy_index wiphy_index s)
      then handle_country_code_changed kernel s
      else (s, []) in
    (
      changed.0,
      (if not (is_empty code) then broadcast_reg_domain_changed code s else []) ++ changed.1,
    )
