-- ===== src/GatewayApi.antt =====
-- internal/gatewayapi: hostnames of Routes and Listeners, and references across namespaces.
pub mod Hostname
pub mod Wildcards
pub mod Hosts
pub mod Intersection
pub mod PairListed
pub mod Listed
pub mod Ascending
pub mod Listeners
pub mod Claims
pub mod Conflicts
pub mod Claimants
pub mod Served
pub mod Matches
pub mod FirstNamed
pub mod Compiled
pub mod Precedence
pub mod RouteOrder
pub mod RouteFirst
pub mod RefGrant
pub mod TlsPolicies
pub mod PolicyTargets
pub mod PolicyOrder
pub mod OldestPolicy
pub mod Filters
pub mod Backends
pub mod Resolution
pub mod BackendRefs
pub mod ClusterNames
mod Examples
mod ListenerExamples
mod MatchExamples
mod RouteExamples
mod BackendExamples
