-- ===== src/Uapi.antt =====
-- The documented layout constants and values of linux/netlink.h and linux/genetlink.h that the code names.
use dumbos_platform_system_c.Base.{ℕ, ◌+◌, ◌*◌, ◌/◌}

-- linux/netlink.h: the aligned length of an attribute header, and NLA_ALIGN.
abbrev pub nla_hdrlen : ℕ
nla_hdrlen = 4

abbrev pub nla_align : ℕ → ℕ
nla_align len = (len + 3) / 4 * 4

-- linux/netlink.h and linux/genetlink.h: the headers of a generic netlink message.
abbrev pub nlmsg_hdrlen : ℕ
nlmsg_hdrlen = 16

abbrev pub genl_hdrlen : ℕ
genl_hdrlen = 4

-- linux/netlink.h: message types and flags.
abbrev pub nlmsg_noop : ℕ
nlmsg_noop = 1

abbrev pub nlmsg_error : ℕ
nlmsg_error = 2

abbrev pub nlmsg_done : ℕ
nlmsg_done = 3

abbrev pub nlmsg_overrun : ℕ
nlmsg_overrun = 4

abbrev pub nlmsg_min_type : ℕ
nlmsg_min_type = 16

abbrev pub nlm_f_request : ℕ
nlm_f_request = 1

abbrev pub nlm_f_multi : ℕ
nlm_f_multi = 2

abbrev pub nlm_f_ack : ℕ
nlm_f_ack = 4

-- NLM_F_ROOT | NLM_F_MATCH.
abbrev pub nlm_f_dump : ℕ
nlm_f_dump = 768

-- linux/genetlink.h: the controller's message type, commands and attributes.
abbrev pub genl_id_ctrl : ℕ
genl_id_ctrl = 16

abbrev pub ctrl_cmd_newfamily : ℕ
ctrl_cmd_newfamily = 1

abbrev pub ctrl_cmd_getfamily : ℕ
ctrl_cmd_getfamily = 3

abbrev pub ctrl_attr_family_id : ℕ
ctrl_attr_family_id = 1

abbrev pub ctrl_attr_family_name : ℕ
ctrl_attr_family_name = 2

abbrev pub ctrl_attr_mcast_groups : ℕ
ctrl_attr_mcast_groups = 7

abbrev pub ctrl_attr_mcast_grp_name : ℕ
ctrl_attr_mcast_grp_name = 1

abbrev pub ctrl_attr_mcast_grp_id : ℕ
ctrl_attr_mcast_grp_id = 2
