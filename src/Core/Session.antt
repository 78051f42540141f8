-- ===== src/Core/Session.antt =====
-- qevion/core/session.py: the session orchestrator. `Session/Data.antt` has its data and state, and
-- the other modules its methods, each an action on that state.
pub mod Data
pub mod Actions
pub mod Returns
pub mod Events
pub mod Lifecycle
pub mod ToolCalls
pub mod Interruption
pub mod Handlers
pub mod Steps
pub mod Frames
pub mod Audit
pub mod Numbering
pub mod Coherence
pub mod Hearing
pub mod Closing
pub mod Interrupts
