-- ===== src/Control/Preflight.antt =====
-- qevion/control/preflight.py: the checks of a blueprint before it may go live.
pub mod Data
pub mod Checks
pub mod Policies
pub mod Bindings
pub mod Runs
pub mod Clear
pub mod Runnable
pub mod Ready
