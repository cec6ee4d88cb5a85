-- ===== src/Discovery.antt =====
-- discovery.py: `DiscoveryManager`.
pub mod Blocks
pub mod Bridge
pub mod Diagnostics
pub mod Messages
pub mod Profiles
pub mod Published
pub mod Valid
mod Tests
