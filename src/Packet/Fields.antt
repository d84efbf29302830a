-- ===== src/Packet/Fields.antt =====
-- The getters and setters of the header fields, and IsValid.
use dumbos_platform_system_c.Base.{
  ℕ, ◌+◌, ◌≤◌, ◌<◌, ◌≡◌, refl, ap, List, arith, length, Bytes, true, bit_or,
}
use dumbos_platform_system_c.Uapi.{nlmsg_hdrlen, genl_hdrlen, nlmsg_min_type, nlmsg_error}
use dumbos_platform_system_c.Attribute.Layout.{Attr, encode_all}
use dumbos_platform_system_c.Packet.{
  nlmsg_len, is_valid, get_message_type, get_flags, get_message_sequence, get_port_id, get_command,
  set_command, add_flag, set_flags, set_message_type, set_message_sequence, set_port_id,
}
use dumbos_platform_system_c.Packet.Layout.{Header, encode_packet}

-- The values fit the widths of their fields.
pub record FitsHeader (h : Header) : Type 0 where
  pub type_fits : h.type < 65536
  pub flags_fit : h.flags < 65536
  pub sequence_fits : h.sequence < 4294967296
  pub pid_fits : h.pid < 4294967296
  pub command_fits : h.command < 256

-- Each getter reads its own field of the header.
pub getters-encode :
    (h : Header) (l : List Attr)
    → FitsHeader h
    → (get_message_type (encode_packet h l) ≡ h.type)
      × (get_flags (encode_packet h l) ≡ h.flags)
      × (get_message_sequence (encode_packet h l) ≡ h.sequence)
      × (get_port_id (encode_packet h l) ≡ h.pid)
      × (get_command (encode_packet h l) ≡ h.command)
getters-encode h l f = omega arith

-- Each setter changes its own field and leaves the other fields, the length and the attributes.
pub setters-encode :
    (h : Header) (l : List Attr) (v : ℕ)
    → (set_message_type v (encode_packet h l) ≡ encode_packet (record h { type = v }) l)
      × (set_flags v (encode_packet h l) ≡ encode_packet (record h { flags = v }) l)
      × (set_message_sequence v (encode_packet h l) ≡ encode_packet (record h { sequence = v }) l)
      × (set_port_id v (encode_packet h l) ≡ encode_packet (record h { pid = v }) l)
      × (set_command v (encode_packet h l) ≡ encode_packet (record h { command = v }) l)
unfolding set_message_type set_flags set_message_sequence set_port_id set_command
setters-encode h l v = (refl, refl, refl, refl, refl)

-- AddFlag joins the flag to those that are set.
pub add_flag-encode :
    (h : Header) (l : List Attr) (flag : ℕ)
    → FitsHeader h
    → add_flag flag (encode_packet h l) ≡ encode_packet (record h { flags = bit_or h.flags flag }) l
unfolding add_flag
add_flag-encode h l flag f =
    ap (λ v. encode_packet (record h { flags = bit_or v flag }) l) (getters-encode h l f).1

-- IsValid accepts every packet that this class builds, whatever its message type.
pub is_valid-encode :
    (h : Header) (l : List Attr)
    → FitsHeader h
    → nlmsg_hdrlen + genl_hdrlen + length (encode_all l) < 4294967296
    → is_valid (encode_packet h l) ≡ true
unfolding is_valid
is_valid-encode h l f n = ground (arith, (getters-encode h l f).0, len)
  where
    len : nlmsg_len (encode_packet h l) ≡ nlmsg_hdrlen + genl_hdrlen + length (encode_all l)
    len = omega arith

-- What IsValid guarantees about any bytes: the netlink header is there, the stated length is inside the
-- buffer, and the part that GetCommand and GetErrorCode read is there for the types that have it.
pub is_valid-room :
    (data_ : Bytes)
    → is_valid data_ ≡ true
    → (nlmsg_hdrlen ≤ nlmsg_len data_)
      × (nlmsg_len data_ ≤ length data_)
      × (nlmsg_min_type ≤ get_message_type data_ → nlmsg_hdrlen + genl_hdrlen ≤ nlmsg_len data_)
      × (get_message_type data_ ≡ nlmsg_error → nlmsg_hdrlen + 4 ≤ nlmsg_len data_)
unfolding is_valid
is_valid-room data_ h = (ground arith, ground arith, λ t. ground arith, λ t. ground arith)
