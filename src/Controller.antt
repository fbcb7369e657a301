-- ===== src/Controller.antt =====
-- Package internal/controller: the parts of the reconcilers that are modelled.
pub mod FreshnessGate
