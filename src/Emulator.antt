-- ===== src/Emulator.antt =====
-- emulator/client.py: the device that meters, signs and posts readings.
mod Device
mod Hex
pub mod Posting
unfoldable pub use Device.*
