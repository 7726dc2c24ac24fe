-- ===== src/Bridge.antt =====
-- The registration bridge, bridge/bridge.py.
pub mod Auth
pub mod Probe
pub mod Calls
pub mod Rollback
pub mod Push
mod Examples
