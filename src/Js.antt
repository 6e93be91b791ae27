-- ===== src/Js.antt =====
-- What the backend uses of JavaScript's numbers: String(n) of an integer, BigInt(s) of a string
-- and Number(s) of a string of decimal digits.
mod Decimal
mod Number
mod Roundtrip
unfoldable pub use Decimal.*
unfoldable pub use Number.*
unfoldable pub use Roundtrip.*
