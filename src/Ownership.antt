-- ===== src/Ownership.antt =====
-- The key and the markers that say which remote objects are the cluster's: internal/ownership, and
-- ledger.go and ownership.go of internal/cloudflare.
pub mod Key
pub mod Converge
pub mod Unattended
pub mod Ends
pub mod Ledger
pub mod Signed
pub mod Carried
pub mod Recognized
pub mod AccessTags
pub mod Texts
pub mod Private
mod Examples
mod MarkerExamples
pub mod Comments
