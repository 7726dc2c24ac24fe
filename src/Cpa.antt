-- ===== src/Cpa.antt =====
-- The store of auth files of the Windows client, clients/windows/cpa and cpa_reprobe.py.
pub mod Names
pub mod State
pub mod Preprobe
pub mod Refresh
pub mod Reprobe
pub mod Schema
mod Examples
