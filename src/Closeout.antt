-- ===== src/Closeout.antt =====
-- The clean-up of a batch in scripts/finalize_grok_batch.py, which can be killed and started
-- again, and the mapping of its auth files to accounts.
pub mod Files
pub mod Journal
pub mod Sound
pub mod Runs
pub mod Loop
pub mod Quarantined
pub mod Purged
pub mod Opened
pub mod Resumed
pub mod Mapping
mod Examples
