-- ===== src/Micro/Boundary.antt =====
-- The RED boundary of cli/micro/surface.py: the commit that a rollback may reset to, found from the
-- session, the ledger and the history.
pub mod Git
pub mod Anchor
pub mod Bind
pub mod Revert
pub mod Walks
pub mod Safe
pub mod Own
pub mod Cycle
pub mod Fixtures
mod Examples
