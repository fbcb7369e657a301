-- ===== src/Xds/Tracker.antt =====
-- internal/xds/server/tracker.go: which Delta xDS streams have proved that they hold a snapshot.
-- A map that no loop of the package visits is a function of its keys; `nodes` and the fingerprints
-- of a snapshot are association lists. A nil inner map reads like an empty one, as in Go.
pub mod State
pub mod Snapshots
pub mod Requests
pub mod Acked
pub mod Details
pub mod Convergence
pub mod StreamIds
pub mod Streams
pub mod Explained
pub mod Runs
pub mod Frame
pub mod Peers
pub mod Blank
pub mod Unidentified
pub mod Invariant
pub mod Proof
pub mod Answers
mod Examples
