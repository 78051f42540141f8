-- ===== src/Contracts.antt =====
-- qevion/contracts: the data types that the components share.
pub mod Provenance
pub mod Control
pub mod Values
pub mod Tools
pub mod Readiness
