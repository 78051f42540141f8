-- ===== src/Control/Activation.antt =====
-- qevion/control/readiness.py with qevion/control/preflight.py: what activating a version means for the
-- blueprint that was checked.
