-- ===== src/Parcels.antt =====
-- The parcelables: what scanning/{single_scan_settings, pno_settings, pno_network, hidden_network,
-- channel_settings, scan_result, radio_chain_info}.cpp, client/native_wifi_client.cpp and
-- device_wiphy_capabilities.cpp write to an android::Parcel and read from it.
pub mod Interface
pub mod Write
pub mod Read
pub mod Laws
pub mod Settings
pub mod Results
