-- ===== src/Frontend.antt =====
-- frontend/src: the dashboard, its requests to the REST API and its live stream.
mod Requests
mod Devices
mod Telemetry
mod Wallet
mod App
pub mod DeviceTable
pub mod Totals
pub mod Stream
mod Tests
unfoldable pub use Requests.*
unfoldable pub use Devices.*
unfoldable pub use Telemetry.*
unfoldable pub use Wallet.*
unfoldable pub use App.*
