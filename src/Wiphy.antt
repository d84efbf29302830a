-- ===== src/Wiphy.antt =====
-- net/netlink_utils.{h,cpp}, the reading of NL80211_CMD_NEW_WIPHY packets: what bands, streams, scan
-- limits and features a wiphy has.
pub mod Info
pub mod Streams
pub mod Bands
pub mod Parse
pub mod Limits
pub mod Kept
pub mod Parsed
pub use Info.*
unfoldable pub use Streams.*
unfoldable pub use Bands.*
unfoldable pub use Parse.*
