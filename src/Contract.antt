-- ===== src/Contract.antt =====
-- contracts/src/lib.rs, storage.rs and types.rs: the Soroban contract that keeps the escrow
-- deposits, the meters and the operators' earnings.
pub mod Host
mod Storage
mod Accessors
mod Entry
mod Queries
mod Registered
mod Agreement
pub mod Success
pub mod Tests
mod Replay
pub mod Accepted
mod Payments
mod Charges
pub mod History
mod Effects
mod Accounts
pub mod Journal
pub mod Books
mod Custody
mod Money
mod Solvency
mod Rules
mod Maps
unfoldable pub use Host.*
unfoldable pub use Storage.*
unfoldable pub use Entry.*
unfoldable pub use Queries.*
