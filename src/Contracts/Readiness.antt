-- ===== src/Contracts/Readiness.antt =====
-- The readiness states of qevion/contracts/activity.py and the transitions, preflight reasons and
-- results of qevion/contracts/control.py.
use markting_call_center.Base.{Bool, Eq, holds, holds_iff, List, [], ◌∷◌, contains, select}

pub data ReadinessState : Type 0 where
  draft discovery_in_progress needs_information needs_configuration blocked : ReadinessState
  ready_for_simulation simulation_failed ready_for_activation : ReadinessState
  active suspended retired : ReadinessState

abbrev pub readiness_discrete : Discrete ReadinessState
readiness_discrete = hlevel

instance abbrev pub readiness_eq : Eq ReadinessState
readiness_eq = record {
  same = λ a b. holds (readiness_discrete a b);
  same_iff = λ a b. holds_iff (readiness_discrete a b);
}

-- `READINESS_TRANSITIONS`: each set with its elements as the source lists them.
unfoldable pub readiness_transitions : ReadinessState → List ReadinessState
readiness_transitions ReadinessState.draft =
    ReadinessState.discovery_in_progress ∷ ReadinessState.retired ∷ []
readiness_transitions ReadinessState.discovery_in_progress =
    ReadinessState.needs_information ∷ ReadinessState.needs_configuration ∷ ReadinessState.blocked
    ∷ ReadinessState.retired ∷ []
readiness_transitions ReadinessState.needs_information =
    ReadinessState.needs_configuration ∷ ReadinessState.discovery_in_progress
    ∷ ReadinessState.blocked ∷ ReadinessState.retired ∷ []
readiness_transitions ReadinessState.needs_configuration =
    ReadinessState.needs_information ∷ ReadinessState.blocked ∷ ReadinessState.ready_for_simulation
    ∷ ReadinessState.retired ∷ []
readiness_transitions ReadinessState.blocked =
    ReadinessState.needs_information ∷ ReadinessState.needs_configuration ∷ ReadinessState.retired
    ∷ []
readiness_transitions ReadinessState.ready_for_simulation =
    ReadinessState.simulation_failed ∷ ReadinessState.ready_for_activation ∷ ReadinessState.blocked
    ∷ ReadinessState.retired ∷ []
readiness_transitions ReadinessState.simulation_failed =
    ReadinessState.needs_configuration ∷ ReadinessState.ready_for_simulation
    ∷ ReadinessState.retired ∷ []
readiness_transitions ReadinessState.ready_for_activation =
    ReadinessState.active ∷ ReadinessState.needs_configuration ∷ ReadinessState.retired ∷ []
readiness_transitions ReadinessState.active = ReadinessState.suspended ∷ ReadinessState.retired ∷ []
readiness_transitions ReadinessState.suspended = ReadinessState.active ∷ ReadinessState.retired ∷ []
readiness_transitions ReadinessState.retired = []

unfoldable pub can_transition : ReadinessState → ReadinessState → Bool
unfolding readiness_transitions
can_transition src dst = contains (readiness_transitions src) dst

pub data PreflightReason : Type 0 where
  missing_required_knowledge missing_required_tool tool_not_authorized_for_tenant : PreflightReason
  unsupported_capability unsupported_locale_combination voice_unavailable : PreflightReason
  contradictory_policies missing_outcome_schema impossible_completion_criteria : PreflightReason
  provider_capability_unavailable incomplete_field_definition : PreflightReason
  incompatible_confirmation_rule undefined_escalation : PreflightReason
  undefined_unknown_question_policy unapproved_business_decision : PreflightReason
  unresolved_knowledge_conflict invalid_config unsupported_channel : PreflightReason
  contact_policy_missing_for_outbound license_blocked_component : PreflightReason

pub record PreflightFinding : Type 0 where
  pub reason : PreflightReason
  -- `severity == "BLOCK"`
  pub is_blocking : Bool

pub record PreflightResult : Type 0 where
  -- `status == "READY"`
  pub is_ready : Bool
  pub findings : List PreflightFinding

unfoldable pub blocking : PreflightResult → List PreflightFinding
blocking result = select (λ f. f.is_blocking) result.findings
