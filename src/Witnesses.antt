-- ===== src/Witnesses.antt =====
-- The theorems at concrete inputs, and small tests of the definitions.
mod Machines
mod Fields
mod Context
mod Tools
mod Control
mod Turn
mod Outcome
mod Governance
pub mod Session
mod Preflight
