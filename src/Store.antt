-- ===== src/Store.antt =====
-- backend/src/db/store.js: the relational cache, over SQLite or PostgreSQL. Three children hold
-- its tables, the statements that write and those that read; the others what they guarantee.
mod Tables
mod Write
mod Read
pub mod Conflicts
pub mod Ingest
pub mod Watermark
pub mod Totals
pub mod Ordering
pub mod Constraints
mod Tests
unfoldable pub use Tables.*
unfoldable pub use Write.*
unfoldable pub use Read.*
