-- ===== src/Core.antt =====
-- qevion/core: the session's building blocks.
pub mod Transitions
pub mod Dialog
pub mod Arguments
pub mod Tools
pub mod Focus
pub mod Objectives
pub mod Fields
pub mod Activity
pub mod Outcome
pub mod Governance
pub mod Record
pub mod Instructions
pub mod Session
