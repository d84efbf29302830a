-- ===== src/Server.antt =====
-- server.{h,cpp}: Server, the interfaces that wificond manages and the callbacks it notifies.
pub mod State
pub mod Callbacks
pub mod BandMap
pub mod Interfaces
pub mod Registration
pub mod Bookkeeping
pub mod Ownership
pub mod Reachable
unfoldable pub use State.*
unfoldable pub use Callbacks.*
unfoldable pub use BandMap.*
unfoldable pub use Interfaces.*
