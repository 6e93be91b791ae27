-- ===== src/Decode.antt =====
-- backend/src/indexer/decode.js: reading the values of a contract event.
-- A value is an XDR object of the Stellar SDK or a plain object with fields `type` and `value`.
mod Values
mod Functions
pub mod Numerals
mod Tests
unfoldable pub use Values.*
unfoldable pub use Functions.*
