-- ===== src/Ap.antt =====
-- ap_interface_impl.cpp and ap_interface_binder.{h,cpp}: an access point, which hands station events and
-- channel switches from NetlinkManager on to the callback that a client registered.
pub mod Events
use dumbos_platform_system_c.Base.{
  ℕ, Bool, true, false, List, [], ◌∷◌, ◌++◌, Option, none, some, ◌==◌, if◌then◌else◌, Bytes,
  Outcome, ok, faults,
}
use dumbos_platform_system_c.Manager.State.{
  Manager, station, channel_switch, subscribe, unsubscribe,
}
use dumbos_platform_system_c.Manager.Dispatch.{
  Event, new_station, del_station, channel_switched, ChannelBandwidth, bw_invalid, bw_20_noht,
  bw_20, bw_40, bw_80, bw_80p80, bw_160, bw_320,
}

-- The object and its binder. `handler` names what the constructor binds; `has_impl` is `impl_ != nullptr`.
pub record ApInterface : Type 0 where
  pub interface_name : ℕ
  pub interface_index : ℕ
  pub handler : ℕ
  pub event_callback : Option ℕ
  pub has_impl : Bool

-- Calls to the outside: those of a callback, and InterfaceTool::SetUpState.
pub data ApCall : Type 0 where
  on_connected_clients_changed : ℕ → Bytes → Bool → ApCall
  on_soft_ap_channel_switched : ℕ → ℕ → ℕ → ApCall
  set_up_state : ℕ → Bool → ApCall

-- net/netlink_manager.h: enum StationEvent.
pub data StationEvent : Type 0 where
  added deleted : StationEvent

-- The constructors of both classes.
unfoldable pub new_ap_interface : ℕ → ℕ → ℕ → Manager → ApInterface × Manager
new_ap_interface interface_name interface_index handler m = (
  record {
    interface_name = interface_name;
    interface_index = interface_index;
    handler = handler;
    event_callback = none;
    has_impl = true;
  },
  subscribe channel_switch interface_index handler (subscribe station interface_index handler m),
)

-- The destructor; the binder may outlive it.
unfoldable pub destroy : ApInterface → Manager → ApInterface × (Manager × List ApCall)
destroy ap m = (
  record ap { has_impl = false },
  (
    unsubscribe channel_switch ap.interface_index (unsubscribe station ap.interface_index m),
    set_up_state ap.interface_name false ∷ [],
  ),
)

-- ApInterfaceBinder::registerCallback, which always reports success.
unfoldable pub register_callback : Option ℕ → ApInterface → ApInterface × Bool
register_callback callback ap = (record ap { event_callback = callback }, true)

-- ApInterfaceBinder::getInterfaceName.
unfoldable pub get_interface_name : ApInterface → Outcome ℕ
get_interface_name ap = if ap.has_impl then ok ap.interface_name else faults

notify_clients : Option ℕ → Bytes → Bool → List ApCall
notify_clients none mac_address is_connected = []
notify_clients (some callback) mac_address is_connected =
    on_connected_clients_changed callback mac_address is_connected ∷ []

-- ApInterfaceBinder::NotifyConnectedClientsChanged.
unfoldable pub notify_connected_clients_changed : ApInterface → Bytes → Bool → List ApCall
unfolding notify_clients
notify_connected_clients_changed ap mac_address is_connected =
    notify_clients ap.event_callback mac_address is_connected

-- aidl IApInterfaceEventCallback: the BANDWIDTH constants that the switch chooses.
unfoldable pub bandwidth_constant : ChannelBandwidth → ℕ
bandwidth_constant bw_invalid = 0
bandwidth_constant bw_20_noht = 1
bandwidth_constant bw_20 = 2
bandwidth_constant bw_40 = 3
bandwidth_constant bw_80 = 4
bandwidth_constant bw_80p80 = 5
bandwidth_constant bw_160 = 6
bandwidth_constant bw_320 = 7

notify_channel : Option ℕ → ℕ → ChannelBandwidth → List ApCall
unfolding bandwidth_constant
notify_channel none frequency channel_bandwidth = []
notify_channel (some callback) frequency channel_bandwidth =
    on_soft_ap_channel_switched callback frequency (bandwidth_constant channel_bandwidth) ∷ []

-- ApInterfaceBinder::NotifySoftApChannelSwitched; the frequency is a bit pattern.
unfoldable pub notify_soft_ap_channel_switched : ApInterface → ℕ → ChannelBandwidth → List ApCall
unfolding notify_channel
notify_soft_ap_channel_switched ap frequency channel_bandwidth =
    notify_channel ap.event_callback frequency channel_bandwidth

-- ApInterfaceImpl::OnStationEvent.
unfoldable pub on_station_event : StationEvent → Bytes → ApInterface → List ApCall
unfolding notify_connected_clients_changed
on_station_event added mac_address ap = notify_connected_clients_changed ap mac_address true
on_station_event deleted mac_address ap = notify_connected_clients_changed ap mac_address false

-- ApInterfaceImpl::OnChannelSwitchEvent.
unfoldable pub on_channel_switch_event : ℕ → ChannelBandwidth → ApInterface → List ApCall
unfolding notify_soft_ap_channel_switched
on_channel_switch_event frequency bandwidth ap =
    notify_soft_ap_channel_switched ap frequency bandwidth

-- A call of a handler by NetlinkManager, where it is one of this object's.
unfoldable pub run_handler : ApInterface → Event → List ApCall
unfolding on_station_event on_channel_switch_event
run_handler ap (new_station handler mac_address) =
    if handler == ap.handler then on_station_event added mac_address ap else []
run_handler ap (del_station handler mac_address) =
    if handler == ap.handler then on_station_event deleted mac_address ap else []
run_handler ap (channel_switched handler frequency bandwidth) =
    if handler == ap.handler then on_channel_switch_event frequency bandwidth ap else []
run_handler ap other_event = []

unfoldable pub run_handlers : ApInterface → List Event → List ApCall
unfolding run_handler
run_handlers ap [] = []
run_handlers ap (event ∷ events) = run_handler ap event ++ run_handlers ap events
