-- ===== src/Tests.antt =====
-- Concrete runs: each applies a theorem at inputs that exercise the code.
pub mod Data
mod Admission
mod Settlement
mod Decisions
mod Pipeline
mod Entering
mod Background
mod Letters
mod Metadata
mod Operation
mod Limiting
mod Purging
