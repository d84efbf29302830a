-- ===== src/Nl80211.antt =====
-- net/kernel-header-latest/nl80211.h: the values of the enumerators that the code names, with the
-- prefix NL80211_ left out.
use dumbos_platform_system_c.Base.{ℕ}

abbrev pub attr_ack : ℕ
attr_ack = 92

abbrev pub attr_bss : ℕ
attr_bss = 47

abbrev pub attr_channel_width : ℕ
attr_channel_width = 159

abbrev pub attr_cookie : ℕ
attr_cookie = 88

abbrev pub attr_ext_features : ℕ
attr_ext_features = 217

abbrev pub attr_feature_flags : ℕ
attr_feature_flags = 143

abbrev pub attr_frame : ℕ
attr_frame = 51

abbrev pub attr_ie : ℕ
attr_ie = 42

abbrev pub attr_ifindex : ℕ
attr_ifindex = 3

abbrev pub attr_ifname : ℕ
attr_ifname = 4

abbrev pub attr_iftype : ℕ
attr_iftype = 5

abbrev pub attr_mac : ℕ
attr_mac = 6

abbrev pub attr_max_match_sets : ℕ
attr_max_match_sets = 133

abbrev pub attr_max_num_scan_ssids : ℕ
attr_max_num_scan_ssids = 43

abbrev pub attr_max_num_sched_scan_plans : ℕ
attr_max_num_sched_scan_plans = 222

abbrev pub attr_max_num_sched_scan_ssids : ℕ
attr_max_num_sched_scan_ssids = 123

abbrev pub attr_max_scan_plan_interval : ℕ
attr_max_scan_plan_interval = 223

abbrev pub attr_max_scan_plan_iterations : ℕ
attr_max_scan_plan_iterations = 224

abbrev pub attr_protocol_features : ℕ
attr_protocol_features = 173

abbrev pub attr_reg_alpha2 : ℕ
attr_reg_alpha2 = 33

abbrev pub attr_reg_type : ℕ
attr_reg_type = 49

abbrev pub attr_scan_flags : ℕ
attr_scan_flags = 158

abbrev pub attr_scan_frequencies : ℕ
attr_scan_frequencies = 44

abbrev pub attr_scan_ssids : ℕ
attr_scan_ssids = 45

abbrev pub attr_sched_scan_interval : ℕ
attr_sched_scan_interval = 119

abbrev pub attr_sched_scan_match : ℕ
attr_sched_scan_match = 132

abbrev pub attr_sched_scan_plans : ℕ
attr_sched_scan_plans = 225

abbrev pub attr_sched_scan_rssi_adjust : ℕ
attr_sched_scan_rssi_adjust = 247

abbrev pub attr_split_wiphy_dump : ℕ
attr_split_wiphy_dump = 174

abbrev pub attr_status_code : ℕ
attr_status_code = 72

abbrev pub attr_sta_info : ℕ
attr_sta_info = 21

abbrev pub attr_timed_out : ℕ
attr_timed_out = 65

abbrev pub attr_wdev : ℕ
attr_wdev = 153

abbrev pub attr_wiphy : ℕ
attr_wiphy = 1

abbrev pub attr_wiphy_bands : ℕ
attr_wiphy_bands = 22

abbrev pub attr_wiphy_freq : ℕ
attr_wiphy_freq = 38

abbrev pub band_2ghz : ℕ
band_2ghz = 0

abbrev pub band_5ghz : ℕ
band_5ghz = 1

abbrev pub band_60ghz : ℕ
band_60ghz = 2

abbrev pub band_6ghz : ℕ
band_6ghz = 3

abbrev pub band_attr_freqs : ℕ
band_attr_freqs = 1

abbrev pub band_attr_ht_capa : ℕ
band_attr_ht_capa = 4

abbrev pub band_attr_ht_mcs_set : ℕ
band_attr_ht_mcs_set = 3

abbrev pub band_attr_iftype_data : ℕ
band_attr_iftype_data = 9

abbrev pub band_attr_vht_capa : ℕ
band_attr_vht_capa = 8

abbrev pub band_attr_vht_mcs_set : ℕ
band_attr_vht_mcs_set = 7

abbrev pub band_iftype_attr_eht_cap_phy : ℕ
band_iftype_attr_eht_cap_phy = 9

abbrev pub band_iftype_attr_he_cap_mcs_set : ℕ
band_iftype_attr_he_cap_mcs_set = 4

abbrev pub band_iftype_attr_he_cap_phy : ℕ
band_iftype_attr_he_cap_phy = 3

abbrev pub bss_beacon_tsf : ℕ
bss_beacon_tsf = 13

abbrev pub bss_bssid : ℕ
bss_bssid = 1

abbrev pub bss_capability : ℕ
bss_capability = 5

abbrev pub bss_chain_signal : ℕ
bss_chain_signal = 19

abbrev pub bss_frequency : ℕ
bss_frequency = 2

abbrev pub bss_information_elements : ℕ
bss_information_elements = 6

abbrev pub bss_last_seen_boottime : ℕ
bss_last_seen_boottime = 15

abbrev pub bss_signal_mbm : ℕ
bss_signal_mbm = 7

abbrev pub bss_status : ℕ
bss_status = 9

abbrev pub bss_status_associated : ℕ
bss_status_associated = 1

abbrev pub bss_status_authenticated : ℕ
bss_status_authenticated = 0

abbrev pub bss_tsf : ℕ
bss_tsf = 3

abbrev pub chan_width_160 : ℕ
chan_width_160 = 5

abbrev pub chan_width_20 : ℕ
chan_width_20 = 1

abbrev pub chan_width_20_noht : ℕ
chan_width_20_noht = 0

abbrev pub chan_width_320 : ℕ
chan_width_320 = 13

abbrev pub chan_width_40 : ℕ
chan_width_40 = 2

abbrev pub chan_width_80 : ℕ
chan_width_80 = 3

abbrev pub chan_width_80p80 : ℕ
chan_width_80p80 = 4

abbrev pub cmd_abort_scan : ℕ
cmd_abort_scan = 114

abbrev pub cmd_associate : ℕ
cmd_associate = 38

abbrev pub cmd_authenticate : ℕ
cmd_authenticate = 37

abbrev pub cmd_ch_switch_notify : ℕ
cmd_ch_switch_notify = 88

abbrev pub cmd_connect : ℕ
cmd_connect = 46

abbrev pub cmd_del_station : ℕ
cmd_del_station = 20

abbrev pub cmd_disassociate : ℕ
cmd_disassociate = 40

abbrev pub cmd_disconnect : ℕ
cmd_disconnect = 48

abbrev pub cmd_frame : ℕ
cmd_frame = 59

abbrev pub cmd_frame_tx_status : ℕ
cmd_frame_tx_status = 60

abbrev pub cmd_get_interface : ℕ
cmd_get_interface = 5

abbrev pub cmd_get_protocol_features : ℕ
cmd_get_protocol_features = 95

abbrev pub cmd_get_reg : ℕ
cmd_get_reg = 31

abbrev pub cmd_get_scan : ℕ
cmd_get_scan = 32

abbrev pub cmd_get_station : ℕ
cmd_get_station = 17

abbrev pub cmd_get_wiphy : ℕ
cmd_get_wiphy = 1

abbrev pub cmd_new_interface : ℕ
cmd_new_interface = 7

abbrev pub cmd_new_scan_results : ℕ
cmd_new_scan_results = 34

abbrev pub cmd_new_station : ℕ
cmd_new_station = 19

abbrev pub cmd_new_wiphy : ℕ
cmd_new_wiphy = 3

abbrev pub cmd_reg_change : ℕ
cmd_reg_change = 36

abbrev pub cmd_roam : ℕ
cmd_roam = 47

abbrev pub cmd_scan_aborted : ℕ
cmd_scan_aborted = 35

abbrev pub cmd_sched_scan_results : ℕ
cmd_sched_scan_results = 77

abbrev pub cmd_sched_scan_stopped : ℕ
cmd_sched_scan_stopped = 78

abbrev pub cmd_set_interface : ℕ
cmd_set_interface = 6

abbrev pub cmd_start_sched_scan : ℕ
cmd_start_sched_scan = 75

abbrev pub cmd_stop_sched_scan : ℕ
cmd_stop_sched_scan = 76

abbrev pub cmd_trigger_scan : ℕ
cmd_trigger_scan = 33

abbrev pub cmd_wiphy_reg_change : ℕ
cmd_wiphy_reg_change = 113

abbrev pub dfs_available : ℕ
dfs_available = 2

abbrev pub dfs_usable : ℕ
dfs_usable = 0

abbrev pub ext_feature_high_accuracy_scan : ℕ
ext_feature_high_accuracy_scan = 24

abbrev pub ext_feature_low_power_scan : ℕ
ext_feature_low_power_scan = 23

abbrev pub ext_feature_low_span_scan : ℕ
ext_feature_low_span_scan = 22

abbrev pub ext_feature_sched_scan_relative_rssi : ℕ
ext_feature_sched_scan_relative_rssi = 12

abbrev pub feature_scan_random_mac_addr : ℕ
feature_scan_random_mac_addr = 536870912

abbrev pub feature_sched_scan_random_mac_addr : ℕ
feature_sched_scan_random_mac_addr = 1073741824

abbrev pub frequency_attr_dfs_state : ℕ
frequency_attr_dfs_state = 7

abbrev pub frequency_attr_disabled : ℕ
frequency_attr_disabled = 2

abbrev pub frequency_attr_freq : ℕ
frequency_attr_freq = 1

abbrev pub frequency_attr_no_ir : ℕ
frequency_attr_no_ir = 3

abbrev pub iftype_station : ℕ
iftype_station = 2

abbrev pub iftype_unspecified : ℕ
iftype_unspecified = 0

abbrev pub protocol_feature_split_wiphy_dump : ℕ
protocol_feature_split_wiphy_dump = 1

abbrev pub rate_info_bitrate32 : ℕ
rate_info_bitrate32 = 5

abbrev pub regdom_type_country : ℕ
regdom_type_country = 0

abbrev pub regdom_type_custom_world : ℕ
regdom_type_custom_world = 2

abbrev pub regdom_type_intersection : ℕ
regdom_type_intersection = 3

abbrev pub regdom_type_world : ℕ
regdom_type_world = 1

abbrev pub scan_flag_colocated_6ghz : ℕ
scan_flag_colocated_6ghz = 16384

abbrev pub scan_flag_high_accuracy : ℕ
scan_flag_high_accuracy = 1024

abbrev pub scan_flag_low_power : ℕ
scan_flag_low_power = 512

abbrev pub scan_flag_low_span : ℕ
scan_flag_low_span = 256

abbrev pub scan_flag_random_addr : ℕ
scan_flag_random_addr = 8

abbrev pub sched_scan_match_attr_rssi : ℕ
sched_scan_match_attr_rssi = 2

abbrev pub sched_scan_match_attr_ssid : ℕ
sched_scan_match_attr_ssid = 1

abbrev pub sched_scan_plan_interval : ℕ
sched_scan_plan_interval = 1

abbrev pub sched_scan_plan_iterations : ℕ
sched_scan_plan_iterations = 2

abbrev pub sta_info_rx_bitrate : ℕ
sta_info_rx_bitrate = 14

abbrev pub sta_info_signal : ℕ
sta_info_signal = 7

abbrev pub sta_info_tx_bitrate : ℕ
sta_info_tx_bitrate = 8

abbrev pub sta_info_tx_failed : ℕ
sta_info_tx_failed = 12

abbrev pub sta_info_tx_packets : ℕ
sta_info_tx_packets = 10
