-- ===== src/Micro.antt =====
-- cli/micro/surface.py: the RED, GREEN, JUDGE, REFACTOR runner.
pub mod Session
pub mod Action
pub mod Task
pub mod Phases
pub mod Logic
pub mod Green
pub mod Budget
pub mod Cycle
pub mod Run
pub mod Boundary
pub mod Verdict
pub mod Evidence
pub mod Statuses
pub mod Queue
mod Fixtures
mod Examples
