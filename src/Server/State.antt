-- ===== src/Server/State.antt =====
-- The members of Server. Interface names are natural numbers that keep their order; a binder, an
-- interface object or a callback is known by a number.
use dumbos_platform_system_c.Base.{ℕ, List, [], Bytes}

-- net/netlink_utils.h: InterfaceInfo.
pub record InterfaceInfo : Type 0 where
  pub if_index : ℕ
  pub wiphy_index : ℕ
  pub name : ℕ
  pub mac_address : Bytes

-- What a call of Server does to the outside, in order; UpdateBandInfo is a call of a client interface
-- (Client.update_band_info), known by its object.
pub data Effect : Type 0 where
  on_client_interface_ready : ℕ → ℕ → Effect
  on_ap_interface_ready : ℕ → ℕ → Effect
  on_client_torndown_event : ℕ → ℕ → Effect
  on_ap_torndown_event : ℕ → ℕ → Effect
  on_reg_domain_changed : ℕ → Bytes → Effect
  set_up_state_down : ℕ → Effect
  subscribe_reg_domain_change : ℕ → Effect
  unsubscribe_reg_domain_change : ℕ → Effect
  update_band_info : ℕ → Effect

pub record Server : Type 0 where
  pub band_to_wiphy_index_map : List (ℕ × ℕ)
  pub iface_to_wiphy_index_map : List (ℕ × ℕ)
  pub ap_interfaces : List (ℕ × ℕ)
  pub client_interfaces : List (ℕ × ℕ)
  pub interface_event_callbacks : List ℕ
  pub wificond_event_callbacks : List ℕ
  pub debug_interfaces : List InterfaceInfo

-- Server::Server.
abbrev pub new_server : Server
new_server = record {
  band_to_wiphy_index_map = [];
  iface_to_wiphy_index_map = [];
  ap_interfaces = [];
  client_interfaces = [];
  interface_event_callbacks = [];
  wificond_event_callbacks = [];
  debug_interfaces = [];
}
