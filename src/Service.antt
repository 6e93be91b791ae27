-- ===== src/Service.antt =====
-- backend/src/index.js: the parts put together.
mod Config
mod Wiring
mod Steps
mod Migrate
pub mod Processes
pub mod Metering
mod Relayed
mod Published
pub mod Live
pub mod Billing
pub mod Idle
pub mod Stopped
pub mod Crashes
mod Feed
pub mod Reconciled
pub mod Oversized
pub mod Constraints
mod Tests
mod BillingTests
mod ReconciledTests
mod MeteringTests
unfoldable pub use Wiring.*
