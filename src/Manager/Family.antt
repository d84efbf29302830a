-- ===== src/Manager/Family.antt =====
-- Start of NetlinkManager: the family of nl80211 is asked for by name, and its multicast groups are joined.
use dumbos_platform_system_c.Base.{
  ℕ, Bool, true, false, not, List, [], ◌∷◌, ◌++◌, Option, none, some, ◌==◌, if◌then◌else◌, Bytes,
  Outcome, ok, fails, ◌>>=◌, attempt, or_default,
}
use dumbos_platform_system_c.Base.Texts.{find_text, set_text}
use dumbos_platform_system_c.Uapi.{
  genl_id_ctrl, ctrl_cmd_newfamily, ctrl_cmd_getfamily, ctrl_attr_family_id, ctrl_attr_family_name,
  ctrl_attr_mcast_groups, ctrl_attr_mcast_grp_name, ctrl_attr_mcast_grp_id,
}
use dumbos_platform_system_c.Attribute
use dumbos_platform_system_c.Attribute.{payload, is_valid, new_string, get_list_of_attributes}
use dumbos_platform_system_c.Packet
use dumbos_platform_system_c.Packet.{new_packet, get_message_type, get_command}
use dumbos_platform_system_c.Manager.State.{Manager, get_sequence_number}
use dumbos_platform_system_c.Manager.Calls.{Exchange, exchange, single}

-- net/kernel-header-latest/nl80211.h: NL80211_GENL_NAME and the groups that Start joins.
abbrev pub nl80211_genl_name : Bytes
nl80211_genl_name = 110 ∷ 108 ∷ 56 ∷ 48 ∷ 50 ∷ 49 ∷ 49 ∷ []

abbrev pub multicast_group_scan : Bytes
multicast_group_scan = 115 ∷ 99 ∷ 97 ∷ 110 ∷ []

abbrev pub multicast_group_reg : Bytes
multicast_group_reg = 114 ∷ 101 ∷ 103 ∷ 117 ∷ 108 ∷ 97 ∷ 116 ∷ 111 ∷ 114 ∷ 121 ∷ []

abbrev pub multicast_group_mlme : Bytes
multicast_group_mlme = 109 ∷ 108 ∷ 109 ∷ 101 ∷ []

-- net/netlink_manager.h: struct MessageType.
pub record MessageType : Type 0 where
  pub family_id : ℕ
  pub groups : List (Bytes × ℕ)

-- The body of the loop over the groups; a group without a name or an id is passed over.
unfoldable pub add_group : List (Bytes × ℕ) → Bytes → Outcome (List (Bytes × ℕ))
add_group groups group = or_default groups (do
  group_name ← Attribute.get_string (payload group) ctrl_attr_mcast_grp_name
  group_id ← Attribute.get_int 4 (payload group) ctrl_attr_mcast_grp_id
  ok (set_text group_name group_id groups))

unfoldable pub add_groups : List (Bytes × ℕ) → List Bytes → Outcome (List (Bytes × ℕ))
unfolding add_group
add_groups groups [] = ok groups
add_groups groups (group ∷ later) = add_group groups group >>= λ next. add_groups next later

-- The groups of the new entry, which starts without any.
unfoldable pub read_groups : Option Bytes → Outcome (List (Bytes × ℕ))
unfolding add_groups
read_groups none = ok []
read_groups (some multicast_groups) =
    or_default [] (get_list_of_attributes is_valid multicast_groups) >>= add_groups []

-- The name of the family and its entry; `fails` where OnNewFamily returns before it makes one.
unfoldable pub read_family : Bytes → Outcome (Bytes × MessageType)
unfolding read_groups
read_family packet =
    if not (get_message_type packet == genl_id_ctrl)
    then fails
    else if not (get_command packet == ctrl_cmd_newfamily)
    then fails
    else (do
      family_id ← Packet.get_int 2 packet ctrl_attr_family_id
      family_name ← Packet.get_string packet ctrl_attr_family_name
      multicast_groups ← attempt (Packet.get_nested packet ctrl_attr_mcast_groups)
      groups ← read_groups multicast_groups
      ok (family_name, record { family_id = family_id; groups = groups }))

-- OnNewFamily on `message_types_`.
unfoldable pub on_new_family :
    Bytes → List (Bytes × MessageType) → Outcome (List (Bytes × MessageType))
unfolding read_family
on_new_family packet message_types =
    or_default message_types
      (read_family packet >>= λ family. ok (set_text family.0 family.1 message_types))

-- The members that Start changes, with the groups that the asynchronous socket has joined.
pub record Startup : Type 0 where
  pub manager : Manager
  pub started : Bool
  pub message_types : List (Bytes × MessageType)
  pub memberships : List ℕ

-- What the platform answers: SetupSocket for both sockets, the exchange with the kernel, WatchSocket, and
-- setsockopt() or nlinterceptor::subscribe() for a group id.
pub record Platform : Type 0 where
  pub sync_socket : Bool
  pub async_socket : Bool
  pub discovery : Exchange
  pub watched : Bool
  pub joins : ℕ → Bool

-- GetFamilyId answers with the entry of nl80211.
abbrev pub use_family : Option MessageType → Manager → Manager
use_family none m = m
use_family (some type) m = record m { family_id = type.family_id }

abbrev pub is_known : Option MessageType → Bool
is_known none = false
is_known (some type) = true

-- The end of DiscoverFamilyId, with the answer of the kernel.
unfoldable pub learn_family : Option Bytes → Manager → Startup → Outcome (Startup × Bool)
unfolding on_new_family
learn_family none m s = ok (record s { manager = m }, false)
learn_family (some response) m s = on_new_family response s.message_types >>= λ types. ok (
  record s { manager = use_family (find_text nl80211_genl_name types) m; message_types = types },
  is_known (find_text nl80211_genl_name types),
)

abbrev pub family_request : ℕ → ℕ → Bytes
family_request sequence pid =
    Packet.add_attribute (new_string ctrl_attr_family_name nl80211_genl_name)
      (new_packet genl_id_ctrl ctrl_cmd_getfamily sequence pid)

-- DiscoverFamilyId.
unfoldable pub discover_family_id : Exchange → ℕ → Startup → Outcome (Startup × Bool)
unfolding learn_family
discover_family_id discovery pid s =
    exchange discovery (family_request (get_sequence_number s.manager).1 pid)
      (get_sequence_number s.manager).0
    >>= λ sent. learn_family (single sent) sent.manager s

abbrev pub groups_of : Option MessageType → List (Bytes × ℕ)
groups_of none = []
groups_of (some type) = type.groups

abbrev pub join : (ℕ → Bool) → Option ℕ → Startup → Startup × Bool
join joins none s = (s, false)
join joins (some group_id) s =
    if joins group_id
    then (record s { memberships = s.memberships ++ group_id ∷ [] }, true)
    else (s, false)

-- SubscribeToEvents.
unfoldable pub subscribe_to_events : (ℕ → Bool) → Bytes → Startup → Startup × Bool
subscribe_to_events joins group s =
    join joins (find_text group (groups_of (find_text nl80211_genl_name s.message_types))) s

-- A step of Start that returns false ends it.
abbrev pub and_then : Startup × Bool → (Startup → Startup × Bool) → Startup × Bool
and_then (s, true) next = next s
and_then (s, false) next = (s, false)

-- Start, after DiscoverFamilyId.
unfoldable pub join_groups : (ℕ → Bool) → Startup → Startup × Bool
unfolding subscribe_to_events
join_groups joins s = and_then (subscribe_to_events joins multicast_group_reg s) (λ s1.
    and_then (subscribe_to_events joins multicast_group_scan s1) (λ s2.
      and_then (subscribe_to_events joins multicast_group_mlme s2)
        (λ s3. (record s3 { started = true }, true))))

-- Start.
unfoldable pub start : Platform → ℕ → Startup → Outcome (Startup × Bool)
unfolding discover_family_id join_groups
start p pid s =
    if s.started
    then ok (s, true)
    else if not p.sync_socket
    then ok (s, false)
    else if not p.async_socket
    then ok (s, false)
    else (discover_family_id p.discovery pid s >>= λ found.
        ok (and_then found (λ s1. if not p.watched then (s1, false) else join_groups p.joins s1)))
