-- ===== src/Control.antt =====
-- qevion/control/: what decides, before any conversation, whether an activity may run.
pub mod Readiness
pub mod Contact
pub mod Preflight
pub mod Activation
