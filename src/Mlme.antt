-- ===== src/Mlme.antt =====
-- net/mlme_event.{h,cpp}: the MLME events that are read from packets. The factory of each event class
-- returns a null pointer where the model fails. Where the packet has no NL80211_ATTR_MAC the array
-- `bssid_` keeps its indeterminate bytes, which are `unset` here.
use dumbos_platform_system_c.Base.{
  ℕ, Bool, false, not, ◌==◌, if◌then◌else◌, Bytes, Outcome, ok, fails, ◌>>=◌, or_default,
}
use dumbos_platform_system_c.Nl80211.{
  attr_ifindex, attr_mac, attr_status_code, attr_timed_out, cmd_associate, cmd_connect, cmd_roam,
  cmd_disconnect, cmd_disassociate,
}
use dumbos_platform_system_c.Packet
use dumbos_platform_system_c.Packet.{get_command}

-- The members of the event classes; a roam, disconnect or disassociate event has the first two only.
pub record MlmeEvent : Type 0 where
  pub interface_index : ℕ
  pub bssid : Bytes
  pub status_code : ℕ
  pub is_timeout : Bool

-- GetCommonFields.
unfoldable pub get_common_fields : Bytes → Bytes → Outcome (ℕ × Bytes)
get_common_fields unset packet = do
  if_index ← Packet.get_int 4 packet attr_ifindex
  bssid ← or_default unset (Packet.get_array 6 packet attr_mac)
  ok (if_index, bssid)

-- MlmeAssociateEvent::InitFromPacket.
unfoldable pub associate_from_packet : Bytes → Bytes → Outcome MlmeEvent
unfolding get_common_fields
associate_from_packet unset packet =
    if not (get_command packet == cmd_associate)
    then fails
    else (get_common_fields unset packet >>= λ common.
        Packet.has_attribute packet attr_timed_out >>= λ timed_out. ok (record {
          interface_index = common.0;
          bssid = common.1;
          status_code = 0;
          is_timeout = timed_out;
        }))

-- MlmeConnectEvent::InitFromPacket.
unfoldable pub connect_from_packet : Bytes → Bytes → Outcome MlmeEvent
unfolding get_common_fields
connect_from_packet unset packet =
    if not (get_command packet == cmd_connect)
    then fails
    else (get_common_fields unset packet >>= λ common.
        or_default 0 (Packet.get_int 2 packet attr_status_code) >>= λ status.
        Packet.has_attribute packet attr_timed_out >>= λ timed_out. ok (record {
          interface_index = common.0;
          bssid = common.1;
          status_code = status;
          is_timeout = timed_out;
        }))

abbrev plain_event : ℕ × Bytes → MlmeEvent
plain_event common = record {
  interface_index = common.0;
  bssid = common.1;
  status_code = 0;
  is_timeout = false;
}

-- MlmeRoamEvent::InitFromPacket.
unfoldable pub roam_from_packet : Bytes → Bytes → Outcome MlmeEvent
unfolding get_common_fields
roam_from_packet unset packet =
    if not (get_command packet == cmd_roam)
    then fails
    else get_common_fields unset packet >>= λ common. ok (plain_event common)

-- MlmeDisconnectEvent::InitFromPacket.
unfoldable pub disconnect_from_packet : Bytes → Bytes → Outcome MlmeEvent
unfolding get_common_fields
disconnect_from_packet unset packet =
    if not (get_command packet == cmd_disconnect)
    then fails
    else get_common_fields unset packet >>= λ common. ok (plain_event common)

-- MlmeDisassociateEvent::InitFromPacket.
unfoldable pub disassociate_from_packet : Bytes → Bytes → Outcome MlmeEvent
unfolding get_common_fields
disassociate_from_packet unset packet =
    if not (get_command packet == cmd_disassociate)
    then fails
    else get_common_fields unset packet >>= λ common. ok (plain_event common)
