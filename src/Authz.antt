-- ===== src/Authz.antt =====
-- internal/authz/evaluate.go: what the grants of a CloudflareAccount permit.
pub mod Names
pub mod Covers
pub mod Grants
pub mod Permits
pub mod Gates
pub mod OneGrant
pub mod Decisions
mod Examples
