-- ===== src/Hub.antt =====
-- backend/src/api/ws.js: the hub that streams billing events to WebSocket clients.
mod Clients
pub mod Delivery
pub mod Heartbeat
mod Tests
unfoldable pub use Clients.*
