-- ===== src/Freshness.antt =====
-- Package internal/freshness: how long a remote read may be skipped, and the in-memory record of
-- what was last verified.
pub mod Policy
pub mod Grades
pub mod Latch
pub mod Evaluation
pub mod Expiry
pub mod Ordering
pub mod History
pub mod Confirmation
mod Examples
