-- ===== src/Examples/Servers.antt =====
-- Concrete servers: a kernel with one wiphy that has an interface, and what follows from its calls.
use dumbos_platform_system_c.Base.{ℕ, ◌≡◌, refl, arith, [], ◌∷◌, true, some, none}
use dumbos_platform_system_c.Base.Assoc.{lookup}
use dumbos_platform_system_c.Wiphy.Info.{BandInfo, new_band_info}
use dumbos_platform_system_c.Server.State.{Server, new_server}
use dumbos_platform_system_c.Server.Callbacks.{add_callback, remove_callback}
use dumbos_platform_system_c.Server.BandMap.{claim_bands}
use dumbos_platform_system_c.Server.Interfaces.{
  Kernel, create_client_interface, tear_down_interfaces,
}
use dumbos_platform_system_c.Server.Registration.{remove_callback-add_callback}
use dumbos_platform_system_c.Server.Bookkeeping.{Sorted, Above, lookup-claim_bands}
use dumbos_platform_system_c.Server.Ownership.{IsWellFormed}
use dumbos_platform_system_c.Server.Reachable.{
  Reachable, start, then_step, create_client, Reachable-IsWellFormed, tear_down_interfaces_lem,
}

abbrev bands : BandInfo
bands = record new_band_info { band_2g = 2412 ∷ []; band_dfs = 5260 ∷ [] }

abbrev kernel : Kernel
kernel = record {
  get_wiphy_index = λ name. some 1;
  get_interfaces =
      λ w. (true, record { if_index = 3; wiphy_index = w; name = 10; mac_address = [] } ∷ []);
  get_wiphy_info = λ w. some bands;
  get_country_code = none;
}

abbrev running : Server
running = (create_client_interface kernel 10 77 new_server).0

running-Reachable : Reachable running
running-Reachable = then_step start (create_client kernel 10 77 new_server refl)

Reachable-IsWellFormed_example : IsWellFormed running
Reachable-IsWellFormed_example =
    Reachable-IsWellFormed (then_step start (create_client kernel 10 77 new_server refl))

running-IsWellFormed : IsWellFormed running
running-IsWellFormed = Reachable-IsWellFormed running-Reachable

tear_down_interfaces_lem_example :
    ((tear_down_interfaces running).0.client_interfaces ≡ [])
    × ((tear_down_interfaces running).0.ap_interfaces ≡ [])
    × ((tear_down_interfaces running).0.iface_to_wiphy_index_map ≡ [])
    × ((band : ℕ) → lookup band (tear_down_interfaces running).0.band_to_wiphy_index_map ≡ none)
tear_down_interfaces_lem_example = tear_down_interfaces_lem running running-IsWellFormed

lookup-claim_bands_example : lookup 1 (claim_bands 4 bands ((0, 9) ∷ [])) ≡ some 4
lookup-claim_bands_example = lookup-claim_bands 4 bands ((0, 9) ∷ []) 1

two-Sorted : Sorted ((0, 9) ∷ (1, 4) ∷ [])
unfolding Sorted
two-Sorted = (unfold Above in (omega arith, tt), (unfold Above in tt, tt))

remove_callback-add_callback_example : remove_callback 6 (add_callback 6 (5 ∷ [])) ≡ 5 ∷ []
remove_callback-add_callback_example = remove_callback-add_callback 6 (5 ∷ []) refl
