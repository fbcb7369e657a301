-- ===== src/Xds.antt =====
-- Package internal/xds/server: when the Envoy fleet of a Gateway holds a snapshot.
pub mod Tracker
