-- ===== src/Scanner.antt =====
-- scanning/scanner_impl.{h,cpp}: ScannerImpl, the scan state of one client interface. The calls of
-- ScanUtils enter as functions that give the kernel's answer to a request; IsAssociated and
-- GetBandInfo of the client interface enter as arguments. Logging is left out.
pub mod State
pub mod Request
pub mod Pno
pub mod Events
pub mod Ssids
pub mod Counter
pub mod Failures
pub mod PnoBounds
pub mod Lifecycle
unfoldable pub use State.*
unfoldable pub use Request.*
unfoldable pub use Pno.*
unfoldable pub use Events.*
