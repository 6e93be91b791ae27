-- ===== src/Sql.antt =====
-- What the store's SQL statements mean on lists of rows: ORDER BY, GROUP BY, SUM, COUNT, MIN, MAX.
mod Keys
mod Order
mod Group
mod Extremes
mod Exact
unfoldable pub use Keys.*
unfoldable pub use Order.*
unfoldable pub use Group.*
unfoldable pub use Extremes.*
unfoldable pub use Exact.*
