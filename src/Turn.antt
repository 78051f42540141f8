-- ===== src/Turn.antt =====
-- qevion/adapters/turn/: when a user's turn starts and ends.
pub mod Energy
