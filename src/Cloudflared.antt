-- ===== src/Cloudflared.antt =====
-- internal/cloudflared: the complete ingress configuration that a tunnel runs with.
pub mod Origin
pub mod Paths
pub mod Ingress
pub mod Order
pub mod FirstMatch
pub mod Guards
pub mod Coverage
pub mod PathOrder
pub mod Errors
pub mod Service
pub mod OneService
pub mod Names
pub mod Direct
pub mod Compile
pub mod Refusals
pub mod Accepted
pub mod Seconds
mod Examples
mod DirectExamples
