-- ===== src/Indexer.antt =====
-- backend/src/indexer/indexer.js: the poller of contract events. Two children hold the decoding
-- of an event with its handling, and the loop of `poll`; the others what they guarantee.
pub mod Event
mod Poll
mod Keeping
pub mod Handling
pub mod Paging
pub mod Delivery
pub mod Progress
pub mod Stall
pub mod Emission
pub mod Constraints
pub mod Overlap
pub mod Coverage
pub mod Interleaving
mod Tests
unfoldable pub use Event.*
unfoldable pub use Poll.*
