-- ===== src/Server/Callbacks.antt =====
-- Registration of callbacks, and the Broadcast functions.
use dumbos_platform_system_c.Base.{
  ℕ, Bool, true, false, List, [], ◌∷◌, ◌++◌, map, ◌==◌, if◌then◌else◌, Bytes,
}
use dumbos_platform_system_c.Server.State.{
  Server, Effect, on_client_interface_ready, on_ap_interface_ready, on_client_torndown_event,
  on_ap_torndown_event, on_reg_domain_changed,
}

-- The loop over a callback vector that looks for the binder.
abbrev pub has_binder : ℕ → List ℕ → Bool
has_binder callback [] = false
has_binder callback (it ∷ its) = if callback == it then true else has_binder callback its

-- `push_back`, unless the binder is there.
unfoldable pub add_callback : ℕ → List ℕ → List ℕ
add_callback callback callbacks =
    if has_binder callback callbacks then callbacks else callbacks ++ callback ∷ []

-- `erase(it)` at the first entry with the binder.
unfoldable pub remove_callback : ℕ → List ℕ → List ℕ
remove_callback callback [] = []
remove_callback callback (it ∷ its) =
    if callback == it then its else it ∷ remove_callback callback its

-- RegisterCallback, UnregisterCallback, registerWificondEventCallback, unregisterWificondEventCallback.
unfoldable pub register_callback : ℕ → Server → Server
unfolding add_callback
register_callback callback s = record s {
  interface_event_callbacks = add_callback callback s.interface_event_callbacks;
}

unfoldable pub unregister_callback : ℕ → Server → Server
unfolding remove_callback
unregister_callback callback s = record s {
  interface_event_callbacks = remove_callback callback s.interface_event_callbacks;
}

unfoldable pub register_wificond_event_callback : ℕ → Server → Server
unfolding add_callback
register_wificond_event_callback callback s = record s {
  wificond_event_callbacks = add_callback callback s.wificond_event_callbacks;
}

unfoldable pub unregister_wificond_event_callback : ℕ → Server → Server
unfolding remove_callback
unregister_wificond_event_callback callback s = record s {
  wificond_event_callbacks = remove_callback callback s.wificond_event_callbacks;
}

-- BroadcastClientInterfaceReady and its four siblings.
abbrev pub broadcast_client_interface_ready : ℕ → Server → List Effect
broadcast_client_interface_ready interface s =
    map (λ it. on_client_interface_ready it interface) s.interface_event_callbacks

abbrev pub broadcast_ap_interface_ready : ℕ → Server → List Effect
broadcast_ap_interface_ready interface s =
    map (λ it. on_ap_interface_ready it interface) s.interface_event_callbacks

abbrev pub broadcast_client_interface_torn_down : ℕ → Server → List Effect
broadcast_client_interface_torn_down interface s =
    map (λ it. on_client_torndown_event it interface) s.interface_event_callbacks

abbrev pub broadcast_ap_interface_torn_down : ℕ → Server → List Effect
broadcast_ap_interface_torn_down interface s =
    map (λ it. on_ap_torndown_event it interface) s.interface_event_callbacks

abbrev pub broadcast_reg_domain_changed : Bytes → Server → List Effect
broadcast_reg_domain_changed country_code s =
    map (λ it. on_reg_domain_changed it country_code) s.wificond_event_callbacks
