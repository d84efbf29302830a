-- ===== src/Utils/Split.antt =====
-- net/netlink_utils.cpp: MergePacketsForSplitWiphyDump and GetWiphyInfo.
use dumbos_platform_system_c.Base.{
  ℕ, Bool, true, false, not, ◌||◌, List, [], ◌∷◌, ◌==◌, if◌then◌else◌, Bytes, map, Option, none,
  some, Outcome, ok, fails, ◌>>=◌, attempt, or_default,
}
use dumbos_platform_system_c.Base.Assoc.{lookup, insert}
use dumbos_platform_system_c.Uapi.{nlm_f_dump}
use dumbos_platform_system_c.Nl80211
use dumbos_platform_system_c.Attribute.{new_int, get_attribute_id, merge}
use dumbos_platform_system_c.Packet
use dumbos_platform_system_c.Packet.{
  add_flag, add_attribute, add_flag_attribute, new_packet, get_all_attributes,
}
use dumbos_platform_system_c.Manager.{
  Manager, get_sequence_number, Origin, origin, request, Exchange, Called, exchange_with_retry,
  conclude,
}
use dumbos_platform_system_c.Wiphy.Parse.{WiphyInfo, parse_wiphy_info_from_packet}

-- attr_by_wiphy_and_id: by wiphy, then by id, the attribute.
abbrev pub AttrMap : Type 0
AttrMap = List (ℕ × List (ℕ × Bytes))

-- `attr_by_wiphy_and_id[w]`.
abbrev pub or_empty {ℓ} : {A : Type ℓ} → Option (List A) → List A
or_empty none = []
or_empty (some own) = own

-- The attributes that only tell which packets belong together.
abbrev pub filters : ℕ → Bool
filters id =
    (id == Nl80211.attr_wiphy) || ((id == Nl80211.attr_ifindex) || (id == Nl80211.attr_wdev))

-- An attribute whose id is new, or that is merged into the one that is there. Merge returns before it
-- changes anything where it returns false, and its result is not looked at.
unfoldable pub merge_into : Bytes → Option Bytes → Outcome Bytes
merge_into attr none = ok attr
merge_into attr (some old) = or_default old (merge attr old)

-- The body of the inner loop for an attribute that is kept.
unfoldable pub merge_attribute : ℕ → Bytes → AttrMap → Outcome AttrMap
unfolding merge_into
merge_attribute wiphy_index attr m =
    let own = or_empty (lookup wiphy_index m) in
    merge_into attr (lookup (get_attribute_id attr) own) >>= λ merged.
    ok (insert wiphy_index (insert (get_attribute_id attr) merged own) m)

-- The inner loop, over the attributes of one packet.
unfoldable pub merge_attributes : ℕ → List Bytes → AttrMap → Outcome AttrMap
merge_attributes wiphy_index [] m = ok m
merge_attributes wiphy_index (attr ∷ attributes) m =
    let skipped = merge_attributes wiphy_index attributes m in
    if filters (get_attribute_id attr)
    then skipped
    else (merge_attribute wiphy_index attr m >>= merge_attributes wiphy_index attributes)

-- The outer loop, over the packets.
unfoldable pub merge_packets : List Bytes → AttrMap → Outcome AttrMap
merge_packets [] m = ok m
merge_packets (packet ∷ packets) m = do
  wiphy_index ← Packet.get_int 4 packet Nl80211.attr_wiphy
  attributes ← get_all_attributes packet
  merged ← merge_attributes wiphy_index attributes m
  merge_packets packets merged

unfoldable pub add_attributes : List (ℕ × Bytes) → Bytes → Bytes
add_attributes [] packet = packet
add_attributes ((id, attr) ∷ own) packet = add_attributes own (add_attribute attr packet)

-- The packet of one wiphy.
unfoldable pub wiphy_packet : ℕ × List (ℕ × Bytes) → Bytes
unfolding add_attributes
wiphy_packet (wiphy_index, own) = add_attributes own (
    add_attribute (new_int 4 Nl80211.attr_wiphy wiphy_index)
      (new_packet 0 Nl80211.cmd_new_wiphy 0 0))

-- MergePacketsForSplitWiphyDump.
unfoldable pub merge_packets_for_split_wiphy_dump : List Bytes → Outcome (List Bytes)
merge_packets_for_split_wiphy_dump split_dump_info =
    merge_packets split_dump_info [] >>= λ m. ok (map wiphy_packet m)

unfoldable pub wiphy_info_request : Bool → Origin → ℕ → Bytes
wiphy_info_request supports_split o wiphy_index =
    let get_wiphy =
      add_attribute (new_int 4 Nl80211.attr_wiphy wiphy_index) (request o Nl80211.cmd_get_wiphy) in
    if supports_split
    then add_flag nlm_f_dump (add_flag_attribute Nl80211.attr_split_wiphy_dump get_wiphy)
    else get_wiphy

-- One packet of the last loop: `fails` where the loop goes on. What a packet of the wiphy that fails to
-- parse has written of the bands is dropped here, where the source leaves it in the output for the next.
unfoldable pub read_wiphy : ℕ → Bytes → Outcome WiphyInfo
read_wiphy wiphy_index packet = do
  current_wiphy_index ← Packet.get_int 4 packet Nl80211.attr_wiphy
  if not (current_wiphy_index == wiphy_index) then fails else parse_wiphy_info_from_packet packet

abbrev pub found_or : Option WiphyInfo → Outcome WiphyInfo → Outcome WiphyInfo
found_or none later = later
found_or (some info) later = ok info

unfoldable pub find_wiphy : ℕ → List Bytes → Outcome WiphyInfo
find_wiphy wiphy_index [] = fails
find_wiphy wiphy_index (packet ∷ packets) =
    let later = find_wiphy wiphy_index packets in
    attempt (read_wiphy wiphy_index packet) >>= λ info. found_or info later

-- What GetWiphyInfo reads of the responses; a failed merge leaves no packet.
unfoldable pub read_wiphy_info : Bool → Bool → ℕ → List Bytes → Outcome WiphyInfo
read_wiphy_info supports_split false wiphy_index response = fails
read_wiphy_info supports_split true wiphy_index response = do
  packets ←
      if supports_split
      then or_default [] (merge_packets_for_split_wiphy_dump response)
      else ok response
  find_wiphy wiphy_index packets

-- GetWiphyInfo.
unfoldable pub get_wiphy_info :
    Bool → Exchange → Exchange → ℕ → ℕ → Manager → Outcome (Called WiphyInfo)
get_wiphy_info supports_split e retry pid wiphy_index m = do
  s ←
      exchange_with_retry e retry (wiphy_info_request supports_split (origin m pid) wiphy_index)
        (get_sequence_number m).0
  conclude s (read_wiphy_info supports_split s.done wiphy_index s.response)
