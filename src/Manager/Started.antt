-- ===== src/Manager/Started.antt =====
-- Start, when the kernel describes the family of nl80211 in time.
use dumbos_platform_system_c.Base.{
  ℕ, Bool, ◌<◌, ◌≡◌, ◌≢◌, refl, ap, ◌∙◌, true, false, List, [], ◌∷◌, ◌++◌, map, arith, Bytes,
  le_bytes, zeros, Option, none, some, ok, if◌then◌else◌,
}
use dumbos_platform_system_c.Base.Texts.{same_text, find_text, set_text, find_text-set_text}
use dumbos_platform_system_c.Uapi.{
  nlmsg_error, nlm_f_request, genl_id_ctrl, ctrl_cmd_newfamily, ctrl_cmd_getfamily,
  ctrl_attr_family_id, ctrl_attr_family_name, ctrl_attr_mcast_groups, ctrl_attr_mcast_grp_name,
  ctrl_attr_mcast_grp_id,
}
use dumbos_platform_system_c.Attribute.Layout.{Attr, encode, new_string-encode}
use dumbos_platform_system_c.Attribute.Lookup.{AllFit, find_attr}
use dumbos_platform_system_c.Attribute.Values.{EndsNonzero}
use dumbos_platform_system_c.Attribute.Nested.{
  nested, payload-nested, get_list_of_attributes-encode,
}
use dumbos_platform_system_c.Attribute.Getters.{
  get_nested-encode_all, get_int-encode_all, get_string-encode_all,
}
use dumbos_platform_system_c.Packet.{is_multi, get_message_type}
use dumbos_platform_system_c.Packet.Layout.{Header, encode_packet}
use dumbos_platform_system_c.Packet.Fields.{FitsHeader, getters-encode}
use dumbos_platform_system_c.Packet.Build.{IsBuilt, new_packet-IsBuilt, add_attribute-IsBuilt}
use dumbos_platform_system_c.Manager.State.{Manager, get_sequence_number}
use dumbos_platform_system_c.Manager.Sequence.{get_sequence_number_bounds}
use dumbos_platform_system_c.Manager.Request.{Poll}
use dumbos_platform_system_c.Manager.Answers.{IsAnswer}
use dumbos_platform_system_c.Manager.Answered.{IsReady, answering, exchange-numbered, single-read}
use dumbos_platform_system_c.Manager.Family.{
  nl80211_genl_name, multicast_group_reg, multicast_group_scan, multicast_group_mlme, MessageType,
  add_group, add_groups, read_groups, read_family, on_new_family, Startup, Platform, learn_family,
  family_request, discover_family_id, subscribe_to_events, join_groups, start,
}

-- The attributes of one multicast group.
pub record TellsGroup (k : List Attr) (name : Bytes) (id : ℕ) : Type 0 where
  pub fit : AllFit k
  pub pad : ℕ
  pub named :
      find_attr ctrl_attr_mcast_grp_name k
      ≡ some (record { id = ctrl_attr_mcast_grp_name; content = name ++ zeros pad })
  pub name_ends : EndsNonzero name
  pub numbered :
      find_attr ctrl_attr_mcast_grp_id k
      ≡ some (record { id = ctrl_attr_mcast_grp_id; content = le_bytes 4 id })
  pub id_fits : id < 4294967296

-- The list of groups, each nested under an index.
pub data TellsGroups : List Attr → List (Bytes × ℕ) → Type 0 where
  no_groups : TellsGroups [] []
  one_group :
      {l k : List Attr} {groups : List (Bytes × ℕ)} {name : Bytes} {id : ℕ} (index : ℕ)
      → TellsGroup k name id
      → TellsGroups l groups
      → TellsGroups (nested index k ∷ l) ((name, id) ∷ groups)

-- The id that a list of groups gives to a name: that of the last group so called.
abbrev pub group_called : Bytes → Option ℕ → List (Bytes × ℕ) → Option ℕ
group_called name found [] = found
group_called name found ((other, id) ∷ groups) =
    group_called name (if same_text other name then some id else found) groups

abbrev entered : List (Bytes × ℕ) → List (Bytes × ℕ) → List (Bytes × ℕ)
entered known [] = known
entered known ((name, id) ∷ groups) = entered (set_text name id known) groups

find_text-entered :
    (name : Bytes) (known groups : List (Bytes × ℕ))
    → find_text name (entered known groups) ≡ group_called name (find_text name known) groups
find_text-entered name known [] = refl
find_text-entered name known ((other, id) ∷ groups) =
    find_text-entered name (set_text other id known) groups
    ∙ ap (λ found. group_called name found groups) (find_text-set_text other name id known)

add_group-TellsGroup :
    (index : ℕ) (k : List Attr) (name : Bytes) (id : ℕ) (known : List (Bytes × ℕ))
    → TellsGroup k name id
    → add_group known (encode (nested index k)) ≡ ok (set_text name id known)
unfolding add_group
add_group-TellsGroup index k name id known t =
    rw
      (
        payload-nested index k,
        get_string-encode_all ctrl_attr_mcast_grp_name t.pad name k t.fit t.name_ends t.named,
        get_int-encode_all 4 ctrl_attr_mcast_grp_id id k t.fit t.id_fits t.numbered,
      )
      refl

add_groups-TellsGroups :
    {l : List Attr} {groups : List (Bytes × ℕ)} (known : List (Bytes × ℕ))
    → TellsGroups l groups
    → add_groups known (map encode l) ≡ ok (entered known groups)
unfolding add_groups
add_groups-TellsGroups known no_groups = refl
add_groups-TellsGroups known (one_group {k = k} {name = name} {id = id} index t later) =
    rw (add_group-TellsGroup index k name id known t)
      (add_groups-TellsGroups (set_text name id known) later)

-- A message of the controller that describes the family of nl80211.
pub record TellsFamily (h : Header) (l k : List Attr) (family_id : ℕ) (groups : List (Bytes × ℕ))
    : Type 0 where
  pub header_fits : FitsHeader h
  pub type : h.type ≡ genl_id_ctrl
  pub command : h.command ≡ ctrl_cmd_newfamily
  pub fit : AllFit l
  pub groups_fit : AllFit k
  pub pad : ℕ
  pub numbered :
      find_attr ctrl_attr_family_id l
      ≡ some (record { id = ctrl_attr_family_id; content = le_bytes 2 family_id })
  pub id_fits : family_id < 65536
  pub named :
      find_attr ctrl_attr_family_name l
      ≡ some (record { id = ctrl_attr_family_name; content = nl80211_genl_name ++ zeros pad })
  pub listed : find_attr ctrl_attr_mcast_groups l ≡ some (nested ctrl_attr_mcast_groups k)
  pub tells : TellsGroups k groups

name_ends : EndsNonzero nl80211_genl_name
name_ends = λ e. omega arith

read_groups-TellsGroups :
    (k : List Attr) (groups : List (Bytes × ℕ))
    → AllFit k
    → TellsGroups k groups
    → read_groups (some (encode (nested ctrl_attr_mcast_groups k))) ≡ ok (entered [] groups)
unfolding read_groups
read_groups-TellsGroups k groups f t =
    rw (get_list_of_attributes-encode ctrl_attr_mcast_groups k f) (add_groups-TellsGroups [] t)

read_family-TellsFamily :
    (h : Header) (l k : List Attr) (family_id : ℕ) (groups : List (Bytes × ℕ))
    → TellsFamily h l k family_id groups
    → read_family (encode_packet h l)
      ≡ ok (nl80211_genl_name, record { family_id = family_id; groups = entered [] groups })
unfolding read_family
read_family-TellsFamily h l k family_id groups t =
    let got = getters-encode h l t.header_fits in
    rw (got.0, got.4, t.type, t.command)
      (rw
        (
          get_int-encode_all 2 ctrl_attr_family_id family_id l t.fit t.id_fits t.numbered,
          get_string-encode_all ctrl_attr_family_name t.pad nl80211_genl_name l t.fit name_ends
              t.named,
          get_nested-encode_all ctrl_attr_mcast_groups l t.fit,
          t.listed,
        )
        (rw (read_groups-TellsGroups k groups t.groups_fit t.tells) refl))

on_new_family-TellsFamily :
    (h : Header) (l k : List Attr) (family_id : ℕ) (groups : List (Bytes × ℕ))
    (types : List (Bytes × MessageType))
    → TellsFamily h l k family_id groups
    → on_new_family (encode_packet h l) types
      ≡ ok (
          set_text nl80211_genl_name
            (record { family_id = family_id; groups = entered [] groups })
            types)
unfolding on_new_family
on_new_family-TellsFamily h l k family_id groups types t =
    rw (read_family-TellsFamily h l k family_id groups t) refl

family_request-IsBuilt :
    (sequence pid : ℕ)
    → IsBuilt 1
        (record {
          type = genl_id_ctrl;
          flags = nlm_f_request;
          sequence = sequence;
          pid = pid;
          command = ctrl_cmd_getfamily;
        })
        (record { id = ctrl_attr_family_name; content = nl80211_genl_name ++ 0 ∷ [] } ∷ [])
        (family_request sequence pid)
family_request-IsBuilt sequence pid =
    add_attribute-IsBuilt 0 _ [] _ _ _
      (new_packet-IsBuilt genl_id_ctrl ctrl_cmd_getfamily sequence pid)
      (new_string-encode ctrl_attr_family_name nl80211_genl_name)
      (record { id_fits = omega arith; len_fits = omega arith }) refl

learn_family-TellsFamily :
    (h : Header) (l k : List Attr) (family_id : ℕ) (groups : List (Bytes × ℕ)) (s : Startup)
    (m : Manager)
    → TellsFamily h l k family_id groups
    → learn_family (some (encode_packet h l)) m s
      ≡ ok (
        record s {
          manager = record m { family_id = family_id };
          message_types =
              set_text nl80211_genl_name
                (record { family_id = family_id; groups = entered [] groups })
                s.message_types;
        },
        true,
      )
unfolding learn_family
learn_family-TellsFamily h l k family_id groups s m t =
    let entry : MessageType = record { family_id = family_id; groups = entered [] groups } in
    let there : find_text nl80211_genl_name (set_text nl80211_genl_name entry s.message_types)
        ≡ some entry =
      find_text-set_text nl80211_genl_name nl80211_genl_name entry s.message_types in
    rw (on_new_family-TellsFamily h l k family_id groups s.message_types t) (rw there refl)

-- A step of SubscribeToEvents that finds the group and joins it.
subscribe_to_events-joins :
    (joins : ℕ → Bool) (group : Bytes) (id : ℕ) (entry : MessageType) (s : Startup)
    → find_text nl80211_genl_name s.message_types ≡ some entry
    → find_text group entry.groups ≡ some id
    → joins id ≡ true
    → subscribe_to_events joins group s
      ≡ (record s { memberships = s.memberships ++ id ∷ [] }, true)
unfolding subscribe_to_events
subscribe_to_events-joins joins group id entry s e g j = rw e (rw g (rw j refl))

join_groups-joins :
    (joins : ℕ → Bool) (reg scan mlme : ℕ) (entry : MessageType) (s : Startup)
    → find_text nl80211_genl_name s.message_types ≡ some entry
    → find_text multicast_group_reg entry.groups ≡ some reg
    → find_text multicast_group_scan entry.groups ≡ some scan
    → find_text multicast_group_mlme entry.groups ≡ some mlme
    → joins reg ≡ true
    → joins scan ≡ true
    → joins mlme ≡ true
    → join_groups joins s ≡ (
      record s {
        started = true;
        memberships = ((s.memberships ++ reg ∷ []) ++ scan ∷ []) ++ mlme ∷ [];
      },
      true,
    )
unfolding join_groups
join_groups-joins joins reg scan mlme entry s e r c m jr jc jm =
    let s1 = record s { memberships = s.memberships ++ reg ∷ [] } in
    let s2 = record s1 { memberships = s1.memberships ++ scan ∷ [] } in
    rw (subscribe_to_events-joins joins multicast_group_reg reg entry s e r jr) (
      rw (subscribe_to_events-joins joins multicast_group_scan scan entry s1 e c jc)
        (rw (subscribe_to_events-joins joins multicast_group_mlme mlme entry s2 e m jm) refl))

abbrev discovery_header : ℕ → ℕ → Header
discovery_header sequence pid = record {
  type = genl_id_ctrl;
  flags = nlm_f_request;
  sequence = sequence;
  pid = pid;
  command = ctrl_cmd_getfamily;
}

discover_family_id-TellsFamily :
    (s : Startup) (pid : ℕ) (h : Header) (l k : List Attr) (family_id : ℕ)
    (groups : List (Bytes × ℕ)) (junk : Bytes) (elapsed : ℕ) (polls : List Poll)
    → IsReady s.manager
    → pid < 4294967296
    → TellsFamily h l k family_id groups
    → IsAnswer (get_sequence_number s.manager).1 (encode_packet h l)
    → is_multi (encode_packet h l) ≡ false
    → elapsed < 4000
    → discover_family_id (answering (encode_packet h l) junk elapsed polls) pid s
      ≡ ok (
        record s {
          manager = record (get_sequence_number s.manager).0 { family_id = family_id };
          message_types =
              set_text nl80211_genl_name
                (record { family_id = family_id; groups = entered [] groups })
                s.message_types;
        },
        true,
      )
unfolding discover_family_id
discover_family_id-TellsFamily s pid h l k family_id groups junk elapsed polls r pf t a i time =
    let header_fits : FitsHeader (discovery_header (get_sequence_number s.manager).1 pid) = record {
      type_fits = omega arith;
      flags_fit = omega arith;
      sequence_fits = (get_sequence_number_bounds s.manager r.counter_fits).1;
      pid_fits = pf;
      command_fits = omega arith;
    } in
    let ne_error : get_message_type (encode_packet h l) ≢ nlmsg_error =
      rw ((getters-encode h l t.header_fits).0, t.type) (λ e. omega arith) in
    rw
      (exchange-numbered s.manager 1 _ _ _ (encode_packet h l) junk elapsed polls r
        (family_request-IsBuilt (get_sequence_number s.manager).1 pid) header_fits refl a i time)
      (rw (single-read (encode_packet h l) ne_error)
        (learn_family-TellsFamily h l k family_id groups s (get_sequence_number s.manager).0 t))

-- The platform lets Start get to its end, for three group ids.
pub record Cooperates (p : Platform) (reg scan mlme : ℕ) : Type 0 where
  pub sync_socket : p.sync_socket ≡ true
  pub async_socket : p.async_socket ≡ true
  pub watched : p.watched ≡ true
  pub joins_reg : p.joins reg ≡ true
  pub joins_scan : p.joins scan ≡ true
  pub joins_mlme : p.joins mlme ≡ true

-- The list of groups has the three that Start joins.
pub record HasGroups (groups : List (Bytes × ℕ)) (reg scan mlme : ℕ) : Type 0 where
  pub has_reg : group_called multicast_group_reg none groups ≡ some reg
  pub has_scan : group_called multicast_group_scan none groups ≡ some scan
  pub has_mlme : group_called multicast_group_mlme none groups ≡ some mlme

start-steps :
    (p : Platform) (pid : ℕ) (s s1 s2 : Startup)
    → s.started ≡ false
    → p.sync_socket ≡ true
    → p.async_socket ≡ true
    → discover_family_id p.discovery pid s ≡ ok (s1, true)
    → p.watched ≡ true
    → join_groups p.joins s1 ≡ (s2, true)
    → start p pid s ≡ ok (s2, true)
unfolding start
start-steps p pid s s1 s2 new sync async found watched joined =
    simp (new, sync, async, found, watched, joined)

-- The kernel answers the request of Start, in its first datagram and before 4000 milliseconds have passed,
-- with a message that describes the family of nl80211 and has its three groups, and the platform refuses
-- nothing: Start on a manager that is not started returns true, and the manager is started, uses the id of
-- the family for its requests, and has joined the groups for regulatory changes, scans and MLME events.
pub start-answered :
    (p : Platform) (s : Startup) (pid : ℕ) (h : Header) (l k : List Attr) (family_id : ℕ)
    (groups : List (Bytes × ℕ)) (reg scan mlme : ℕ) (junk : Bytes) (elapsed : ℕ) (polls : List Poll)
    → s.started ≡ false
    → Cooperates p reg scan mlme
    → p.discovery ≡ answering (encode_packet h l) junk elapsed polls
    → HasGroups groups reg scan mlme
    → IsReady s.manager
    → pid < 4294967296
    → TellsFamily h l k family_id groups
    → IsAnswer (get_sequence_number s.manager).1 (encode_packet h l)
    → is_multi (encode_packet h l) ≡ false
    → elapsed < 4000
    → (end : Startup) × (start p pid s ≡ ok (end, true))
      × (end.started ≡ true)
      × (end.manager ≡ record (get_sequence_number s.manager).0 { family_id = family_id })
      × (end.memberships ≡ ((s.memberships ++ reg ∷ []) ++ scan ∷ []) ++ mlme ∷ [])
start-answered p s pid h l k family_id groups reg scan mlme junk elapsed polls new c d g r pf t a i
      time =
    let entry : MessageType = record { family_id = family_id; groups = entered [] groups } in
    let s1 : Startup = record s {
      manager = record (get_sequence_number s.manager).0 { family_id = family_id };
      message_types = set_text nl80211_genl_name entry s.message_types;
    } in
    let there : find_text nl80211_genl_name s1.message_types ≡ some entry =
      find_text-set_text nl80211_genl_name nl80211_genl_name entry s.message_types in
    let joined =
      join_groups-joins p.joins reg scan mlme entry s1 there
        (find_text-entered multicast_group_reg [] groups ∙ g.has_reg)
        (find_text-entered multicast_group_scan [] groups ∙ g.has_scan)
        (find_text-entered multicast_group_mlme [] groups ∙ g.has_mlme) c.joins_reg c.joins_scan
        c.joins_mlme in
    let discovered =
      discover_family_id-TellsFamily s pid h l k family_id groups junk elapsed polls r pf t a i
        time in
    (
      record s1 {
        started = true;
        memberships = ((s.memberships ++ reg ∷ []) ++ scan ∷ []) ++ mlme ∷ [];
      },
      start-steps p pid s _ _ new c.sync_socket c.async_socket (rw d discovered) c.watched joined,
      refl,
      refl,
      refl,
    )
