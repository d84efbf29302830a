-- ===== src/Ap/Events.antt =====
-- What a client of an access point sees of the kernel's multicast messages.
use dumbos_platform_system_c.Base.{
  ℕ, Bool, true, false, ◌≡◌, ◌⊎◌, inl, inr, refl, [], ◌∷◌, none, some, ◌==◌, if◌then◌else◌, Bytes,
  ok, fails, ◌>>=◌, or_default, ==_refl, sym, ap, ◌∙◌,
}
use dumbos_platform_system_c.Base.Assoc.{lookup, lookup-insert, lookup-erase}
use dumbos_platform_system_c.Nl80211
use dumbos_platform_system_c.Packet
use dumbos_platform_system_c.Packet.{get_message_type, get_command}
use dumbos_platform_system_c.Manager.State.{Manager, subscribe, unsubscribe}
use dumbos_platform_system_c.Manager.Dispatch
use dumbos_platform_system_c.Manager.Dispatch.{
  Event, new_station, del_station, channel_switched, get_bandwidth_type, broadcast_command,
  broadcast_handler,
}
use dumbos_platform_system_c.Ap.{
  ApInterface, on_connected_clients_changed, new_ap_interface, destroy, register_callback,
  run_handlers,
}

-- A message about a station: of the manager's family, with an index and an address.
pub record TellsOfStation (m : Manager) (packet : Bytes) (index : ℕ) (mac : Bytes) : Type 0 where
  pub family : get_message_type packet ≡ m.family_id
  pub command :
      (get_command packet ≡ Nl80211.cmd_new_station)
      ⊎ (get_command packet ≡ Nl80211.cmd_del_station)
  pub interface : Packet.get_int 4 packet Nl80211.attr_ifindex ≡ ok index
  pub address : Packet.get_array 6 packet Nl80211.attr_mac ≡ ok mac

subscribed_station :
    (name index handler : ℕ) (m : Manager)
    → lookup index (new_ap_interface name index handler m).1.on_station_event_handler ≡ some handler
unfolding new_ap_interface subscribe
subscribed_station name index handler m =
    lookup-insert index index handler m.on_station_event_handler ∙ rw (==_refl index) refl

unsubscribed_station :
    (ap : ApInterface) (m : Manager)
    → lookup ap.interface_index (destroy ap m).1.0.on_station_event_handler ≡ none
unfolding destroy unsubscribe
unsubscribed_station ap m =
    lookup-erase ap.interface_index ap.interface_index m.on_station_event_handler
    ∙ rw (==_refl ap.interface_index) refl

-- The branch of BroadcastHandler that the message takes.
broadcast_station :
    (unset_bssid : Bytes) (unset_reg : ℕ) (m : Manager) (packet : Bytes) (index : ℕ) (mac : Bytes)
    → TellsOfStation m packet index mac
    → broadcast_handler unset_bssid unset_reg m packet
      ≡ or_default [] (Dispatch.on_station_event m packet)
unfolding broadcast_handler broadcast_command
broadcast_station unset_bssid unset_reg m packet index mac t = elim t.command [
  | inl c ↦ rw (t.family, ==_refl m.family_id) (rw c refl)
  | inr c ↦ rw (t.family, ==_refl m.family_id) (rw c refl)
]

reaches :
    (m : Manager) (packet : Bytes) (index handler : ℕ) (mac : Bytes)
    → TellsOfStation m packet index mac
    → lookup index m.on_station_event_handler ≡ some handler
    → Dispatch.on_station_event m packet
      ≡ ok (
          (if get_command packet == Nl80211.cmd_new_station
            then new_station handler mac
            else del_station handler mac)
          ∷ [])
unfolding Dispatch.on_station_event
reaches m packet index handler mac t e = rw t.interface (rw e (rw t.address refl))

reaches_nobody :
    (m : Manager) (packet : Bytes) (index : ℕ) (mac : Bytes)
    → TellsOfStation m packet index mac
    → lookup index m.on_station_event_handler ≡ none
    → Dispatch.on_station_event m packet ≡ fails
unfolding Dispatch.on_station_event
reaches_nobody m packet index mac t e = rw t.interface (rw e refl)

runs :
    (name index handler callback : ℕ) (m : Manager) (is_new : Bool) (mac : Bytes)
    → run_handlers
        (register_callback (some callback) (new_ap_interface name index handler m).0).0
        ((if is_new then new_station handler mac else del_station handler mac) ∷ [])
      ≡ on_connected_clients_changed callback mac is_new ∷ []
unfolding run_handlers register_callback new_ap_interface
runs name index handler callback m true mac = rw (==_refl handler) refl
runs name index handler callback m false mac = rw (==_refl handler) refl

same_family :
    (name index handler : ℕ) (m : Manager)
    → (new_ap_interface name index handler m).1.family_id ≡ m.family_id
unfolding new_ap_interface subscribe
same_family name index handler m = refl

still_same_family : (ap : ApInterface) (m : Manager) → (destroy ap m).1.0.family_id ≡ m.family_id
unfolding destroy unsubscribe
still_same_family ap m = refl

-- A message that a station has come or gone, on the interface of an access point: while the access point
-- is there, with a callback registered, BroadcastHandler leads to one call of that callback, with the address
-- of the station and whether it has come; and once an access point of the interface is destroyed, to no
-- handler.
pub broadcast_handler-new_ap_interface :
    (name index handler callback : ℕ) (unset_bssid : Bytes) (unset_reg : ℕ) (m : Manager)
    (packet mac : Bytes) (gone : ApInterface)
    → TellsOfStation m packet index mac
    → gone.interface_index ≡ index
    → ((broadcast_handler unset_bssid unset_reg (new_ap_interface name index handler m).1 packet
          >>= λ events. ok (
              run_handlers
                (register_callback (some callback) (new_ap_interface name index handler m).0).0
                events))
        ≡ ok (
            on_connected_clients_changed callback mac
              (get_command packet == Nl80211.cmd_new_station)
            ∷ []))
      × (broadcast_handler unset_bssid unset_reg (destroy gone m).1.0 packet ≡ ok [])
broadcast_handler-new_ap_interface name index handler callback unset_bssid unset_reg m packet mac
      gone t same =
    let alive = (new_ap_interface name index handler m).1 in
    let t' : TellsOfStation alive packet index mac = record {
      family = t.family ∙ sym (same_family name index handler m);
      command = t.command;
      interface = t.interface;
      address = t.address;
    } in
    (
      rw (broadcast_station unset_bssid unset_reg alive packet index mac t') (
          rw (reaches alive packet index handler mac t' (subscribed_station name index handler m)) (
            ap ok (
              runs name index handler callback m (get_command packet == Nl80211.cmd_new_station)
                mac))),
      let t'' : TellsOfStation (destroy gone m).1.0 packet index mac = record {
        family = t.family ∙ sym (still_same_family gone m);
        command = t.command;
        interface = t.interface;
        address = t.address;
      } in
          let nobody : lookup index (destroy gone m).1.0.on_station_event_handler ≡ none =
            rw (← same) (unsubscribed_station gone m) in
          rw (broadcast_station unset_bssid unset_reg (destroy gone m).1.0 packet index mac t'')
            (rw (reaches_nobody (destroy gone m).1.0 packet index mac t'' nobody) refl),
    )
