-- ===== src/Judge.antt =====
-- The JUDGE gate: core/judge_policy.py.
pub mod Advisory
pub mod Policy
pub mod Evidence
pub mod Tokens
mod Examples
