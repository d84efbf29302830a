-- ===== src/Manager.antt =====
-- net/netlink_manager.{h,cpp}: NetlinkManager, which owns the netlink sockets: sequence numbers,
-- handlers of unicast replies, and dispatch of multicast messages. A handler is known by a number.
pub mod State
pub mod Receive
pub mod Request
pub mod Calls
pub mod Dispatch
pub mod Sequence
pub mod Delivery
pub mod Order
pub mod Running
pub mod Quiet
pub mod Returns
pub mod Replies
pub mod Answers
pub mod Dumps
pub mod Answered
pub mod Family
pub mod Started
unfoldable pub use State.*
unfoldable pub use Receive.*
unfoldable pub use Request.*
unfoldable pub use Calls.*
unfoldable pub use Dispatch.*
unfoldable pub use Family.*
