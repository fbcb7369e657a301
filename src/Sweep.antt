-- ===== src/Sweep.antt =====
-- internal/sweep: what a pass over a remote listing finds, and how it closes gates.
pub mod Classify
pub mod Dispatch
pub mod Differences
pub mod Verdicts
pub mod Remotes
pub mod Closing
pub mod Passes
pub mod Names
pub mod Pacing
mod Examples
