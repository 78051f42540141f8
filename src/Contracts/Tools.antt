-- ===== src/Contracts/Tools.antt =====
-- qevion/contracts/tool.py and the tool parts of qevion/contracts/activity.py.
use markting_call_center.Base.{ℕ, String, Bool, true, false, Option, List, Dict}
use markting_call_center.Contracts.Provenance.{Provenance}
use markting_call_center.Contracts.Values.{Value}

pub data ToolImpact : Type 0 where
  read write escalation : ToolImpact

-- `Literal["none", "confirm_before_execute"]`
pub data Confirmation : Type 0 where
  not_needed confirm_before_execute : Confirmation

-- The part of a JSON schema that `validate_args` reads: a property has a `type` entry or none, and
-- `closed` says that `additionalProperties` is False.
pub record Schema : Type 0 where
  pub required : List String
  pub properties : Dict String (Option String)
  pub closed : Bool

pub record ToolDeclaration : Type 0 where
  pub tool_id : String
  pub parameters : Schema
  pub impact : ToolImpact
  pub confirmation : Confirmation
  pub idempotency_key_fields : List String
  pub timeout_ms : ℕ
  pub result_provenance : Provenance

pub record ToolPermission : Type 0 where
  pub impact : ToolImpact
  pub confirmation : Confirmation

pub data ToolPipelineStep : Type 0 where
  received schema_validated permission_checked policy_checked budget_checked : ToolPipelineStep
  deduplicated confirmation executing result_validated provenance_tagged returned : ToolPipelineStep

pub data ToolOutcomeStatus : Type 0 where
  completed failed rejected_args rejected_policy rejected_budget : ToolOutcomeStatus
  confirmation_denied duplicate timeout unknown : ToolOutcomeStatus

pub record ToolInvocation : Type 0 where
  pub call_id : String
  pub tool_id : String
  pub arguments : Dict String Value
  pub session_id : String
  pub tenant_id : String
  pub activity_id : String
  pub turn_id : Option String
  pub requested_at_ms : ℕ

-- The messages of `validate_args`.
pub data ArgumentError : Type 0 where
  missing_argument unexpected_argument : String → ArgumentError
  wrong_type : (argument type : String) → ArgumentError

-- The `error` of an outcome: a text, or what `run` makes its text of.
pub data ErrorText : Type 0 where
  text : String → ErrorText
  invalid_args : List ArgumentError → ErrorText
  impact_mismatch : (permitted declared : ToolImpact) → ErrorText

pub record ToolOutcome : Type 0 where
  pub call_id : String
  pub tool_id : String
  pub status : ToolOutcomeStatus
  pub output : Dict String Value
  pub provenance : Provenance
  pub error : Option ErrorText
  pub latency_ms : Option ℕ
  pub step_reached : ToolPipelineStep

unfoldable pub is_completed : ToolOutcomeStatus → Bool
is_completed ToolOutcomeStatus.completed = true
is_completed _ = false
