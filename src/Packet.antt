-- ===== src/Packet.antt =====
-- net/nl80211_packet.{h,cpp}: a generic netlink packet is the byte vector `data_`. The struct nlmsghdr
-- is nlmsg_len (0, 4 bytes), nlmsg_type (4, 2), nlmsg_flags (6, 2), nlmsg_seq (8, 4), nlmsg_pid (12, 4);
-- genlmsghdr follows at 16: cmd (1 byte), version (1), reserved (2).
pub mod Layout
pub mod Fields
pub mod Contents
pub mod Build
use dumbos_platform_system_c.Base.{
  ℕ, zero, suc, ◌+◌, ◌-◌, ◌*◌, ◌≤◌, Bool, true, false, not, ◌&&◌, ◌||◌, List, [], ◌∷◌, ◌++◌, ◌==◌,
  leb, ltb, if◌then◌else◌, length, take, drop, Bytes, u32, field, le_bytes, resize, overwrite,
  has_bits, bit_or, Outcome, ok, fails, hangs, faults, ◌>>=◌,
}
use dumbos_platform_system_c.Uapi.{
  nla_hdrlen, nla_align, nlmsg_hdrlen, genl_hdrlen, nlmsg_error, nlmsg_min_type, nlm_f_request,
  nlm_f_multi, nlm_f_dump,
}
use dumbos_platform_system_c.Attribute
use dumbos_platform_system_c.Attribute.{nla_len, nla_type, flag_header, has_attribute_impl}

-- The offsets of the fields that the setters write.
abbrev pub set_nlmsg_len : ℕ → Bytes → Bytes
set_nlmsg_len len = overwrite 0 (le_bytes 4 len)

abbrev pub nlmsg_len : Bytes → ℕ
nlmsg_len = field 0 4

-- Getter functions.
abbrev pub get_message_type : Bytes → ℕ
get_message_type = field 4 2

abbrev pub get_flags : Bytes → ℕ
get_flags = field 6 2

abbrev pub get_message_sequence : Bytes → ℕ
get_message_sequence = field 8 4

abbrev pub get_port_id : Bytes → ℕ
get_port_id = field 12 4

abbrev pub get_command : Bytes → ℕ
get_command = field 16 1

-- The negated 32-bit integer behind the netlink header, as its bit pattern.
abbrev pub get_error_code : Bytes → ℕ
get_error_code data_ = u32 (4294967296 - field nlmsg_hdrlen 4 data_)

unfoldable pub is_dump : Bytes → Bool
is_dump data_ = has_bits (get_flags data_) nlm_f_dump

unfoldable pub is_multi : Bytes → Bool
is_multi data_ = has_bits (get_flags data_) nlm_f_multi

-- Setter functions.
unfoldable pub set_command : ℕ → Bytes → Bytes
set_command command = overwrite 16 (le_bytes 1 command)

unfoldable pub add_flag : ℕ → Bytes → Bytes
add_flag flag data_ = overwrite 6 (le_bytes 2 (bit_or (get_flags data_) flag)) data_

unfoldable pub set_flags : ℕ → Bytes → Bytes
set_flags flags = overwrite 6 (le_bytes 2 flags)

unfoldable pub set_message_type : ℕ → Bytes → Bytes
set_message_type message_type = overwrite 4 (le_bytes 2 message_type)

unfoldable pub set_message_sequence : ℕ → Bytes → Bytes
set_message_sequence message_sequence = overwrite 8 (le_bytes 4 message_sequence)

unfoldable pub set_port_id : ℕ → Bytes → Bytes
set_port_id pid = overwrite 12 (le_bytes 4 pid)

-- NL80211Packet(type, command, sequence, pid): the statements of the constructor in order.
unfoldable pub new_packet : ℕ → ℕ → ℕ → ℕ → Bytes
unfolding add_flag set_message_type set_message_sequence set_port_id set_command
new_packet type command sequence pid =
    let data_ = resize (nlmsg_hdrlen + genl_hdrlen) [] in
    let with_len = set_nlmsg_len (length data_) data_ in
    let with_type = set_message_type type (add_flag nlm_f_request with_len) in
    let with_pid = set_port_id pid (set_message_sequence sequence with_type) in
    set_command command (overwrite 17 (le_bytes 1 1) with_pid)

-- IsValid: the checks in the source's order.
unfoldable pub is_valid : Bytes → Bool
is_valid data_ =
    if ltb (length data_) nlmsg_hdrlen
    then false
    else if leb nlmsg_min_type (get_message_type data_)
        && (ltb (length data_) (nlmsg_hdrlen + genl_hdrlen)
            || ltb (nlmsg_len data_) (nlmsg_hdrlen + genl_hdrlen))
    then false
    else if (get_message_type data_ == nlmsg_error)
        && (ltb (length data_) (nlmsg_hdrlen + 4) || ltb (nlmsg_len data_) (nlmsg_hdrlen + 4))
    then false
    else if ltb (length data_) (nlmsg_len data_) || ltb (nlmsg_len data_) 16
    then false
    else true

-- The attributes: all that stands behind the two headers.
abbrev pub payload : Bytes → Bytes
payload data_ = drop (nlmsg_hdrlen + genl_hdrlen) data_

-- AddAttribute: the bytes are appended, then `nlmsg_len += append_data.size()`.
unfoldable pub add_attribute : Bytes → Bytes → Bytes
add_attribute attribute data_ =
    let joined = data_ ++ attribute in set_nlmsg_len (nlmsg_len joined + length attribute) joined

-- AddFlagAttribute.
unfoldable pub add_flag_attribute : ℕ → Bytes → Bytes
add_flag_attribute attribute_id data_ =
    let joined = data_ ++ flag_header attribute_id in
    set_nlmsg_len (nlmsg_len joined + nla_hdrlen) joined

-- HasAttribute, GetAttribute and GetAttributeValue for each T.
abbrev pub has_attribute : Bytes → ℕ → Outcome Bool
has_attribute data_ id = has_attribute_impl (payload data_) id

abbrev pub get_nested : Bytes → ℕ → Outcome Bytes
get_nested data_ id = Attribute.get_nested (payload data_) id

abbrev pub get_int : ℕ → Bytes → ℕ → Outcome ℕ
get_int w data_ id = Attribute.get_int w (payload data_) id

abbrev pub get_raw : Bytes → ℕ → Outcome Bytes
get_raw data_ id = Attribute.get_raw (payload data_) id

abbrev pub get_string : Bytes → ℕ → Outcome Bytes
get_string data_ id = Attribute.get_string (payload data_) id

abbrev pub get_array : ℕ → Bytes → ℕ → Outcome Bytes
get_array n data_ id = Attribute.get_array n (payload data_) id

-- The loop of GetAllAttributes over the bytes left. A stated length below the header's makes the
-- range [ptr + NLA_HDRLEN, ptr + nla_len) run backwards. On failure the attributes read so far stay
-- in the output vector, which the only caller then drops.
unfoldable pub get_all_loop : ℕ → Bytes → Outcome (List Bytes)
get_all_loop zero buf = hangs
get_all_loop (suc fuel) buf =
    let rest = get_all_loop fuel (drop (nla_align (nla_len buf)) buf) in
    let content = take (nla_len buf - nla_hdrlen) (drop nla_hdrlen buf) in
    if leb nla_hdrlen (length buf)
    then (if ltb (length buf) (nla_align (nla_len buf)) || nla_len buf == 0
        then fails
        else if ltb (nla_len buf) nla_hdrlen
        then faults
        else (rest >>= λ later. ok (Attribute.new_raw (nla_type buf) content ∷ later)))
    else ok []

-- GetAllAttributes.
unfoldable pub get_all_attributes : Bytes → Outcome (List Bytes)
get_all_attributes data_ = get_all_loop (suc (length data_)) (payload data_)
