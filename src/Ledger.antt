-- ===== src/Ledger.antt =====
-- state/ledger.py
pub mod Filter
pub mod Rows
pub mod TaskId
pub mod Append
pub mod Write
pub mod Phase
pub mod Issues
pub mod Unblocked
mod Examples
