-- ===== src/Egress.antt =====
-- The egress binding tool, skills/grok-sub2api-ops/scripts/bind_quota_egress.py.
pub mod Base
pub mod Balance
pub mod Account
pub mod Assign
pub mod Monad
pub mod Client
pub mod Snapshot
pub mod Apply
pub mod Pages
pub mod Plan
pub mod Run
mod Examples
mod Samples
