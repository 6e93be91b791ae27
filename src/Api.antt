-- ===== src/Api.antt =====
-- backend/src/api/server.js: the REST routes over the cache, and the telemetry bus.
mod Routes
mod Bus
mod Cors
mod Pages
mod App
pub mod Agreement
pub mod Subscriptions
pub mod Origins
pub mod Effects
pub mod Growth
mod Tests
unfoldable pub use Routes.*
unfoldable pub use Bus.*
unfoldable pub use Cors.*
unfoldable pub use Pages.*
unfoldable pub use App.*
