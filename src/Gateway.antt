-- ===== src/Gateway.antt =====
-- backend/src/api/readings.js: the gateway that accepts signed readings and relays them.
mod Buffers
mod Payload
mod Request
mod Handler
pub mod Injective
pub mod Acceptance
mod Tests
unfoldable pub use Buffers.*
unfoldable pub use Payload.*
unfoldable pub use Request.*
unfoldable pub use Handler.*
