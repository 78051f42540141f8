-- ===== src/Contracts/Provenance.antt =====
-- qevion/contracts/common.py, Provenance; and the strength table that qevion/core/field_store.py
-- and qevion/core/tool_pipeline.py both hold.
use markting_call_center.Base.{ℕ, String}

pub data Provenance : Type 0 where
  user_stated tool_verified system_derived knowledge_approved unverified unknown : Provenance

unfoldable pub strength : Provenance → ℕ
strength Provenance.unknown = 0
strength Provenance.unverified = 1
strength Provenance.user_stated = 2
strength Provenance.system_derived = 3
strength Provenance.knowledge_approved = 4
strength Provenance.tool_verified = 5

unfoldable pub provenance_value : Provenance → String
provenance_value Provenance.user_stated = "USER_STATED"
provenance_value Provenance.tool_verified = "TOOL_VERIFIED"
provenance_value Provenance.system_derived = "SYSTEM_DERIVED"
provenance_value Provenance.knowledge_approved = "KNOWLEDGE_APPROVED"
provenance_value Provenance.unverified = "UNVERIFIED"
provenance_value Provenance.unknown = "UNKNOWN"
