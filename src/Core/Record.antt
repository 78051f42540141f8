-- ===== src/Core/Record.antt =====
-- qevion/core/outcome_engine.py, OutcomeEngine.build: the record of a session. A date stands for its
-- milliseconds since the epoch, and the time at which a record is produced is left out.
use markting_call_center.Base.{
  ℕ, String, string_eq, Bool, false, ◌==◌, Option, none, some, List, ◌++◌, map, select, length,
  contains, Dict, values, Result, ok, raise,
}
use markting_call_center.Contracts.Provenance.{Provenance}
use markting_call_center.Contracts.Tools.{ToolOutcome, ToolOutcomeStatus}
use markting_call_center.Core.Fields.{
  FieldValue, FieldStore, recorded_names, unsatisfied_required, verified_names, inferred_names,
  rejected_names,
}
use markting_call_center.Core.Governance.{ClaimDecisionEntry}
use markting_call_center.Core.Outcome.{
  OutcomeSchema, Completion, RuleInputs, Ruling, SessionFacts, Observation, flags_from_tools,
  completion, primary_for, next_actions,
}

pub record ToolProvenanceEntry : Type 0 where
  pub call_id : String
  pub tool_id : String
  pub status : ToolOutcomeStatus
  pub fields_affected : List String

pub record OutcomeTimestamps : Type 0 where
  pub session_started : ℕ
  pub session_ended : Option ℕ
  pub first_user_turn : Option ℕ
  pub last_user_turn : Option ℕ

-- What the engine reads of a blueprint.
pub record Blueprint : Type 0 where
  pub tenant_id : String
  pub line_id : Option String
  pub activity_id : String
  pub version : String
  pub direction : String
  pub completion : Completion
  pub outcome_schema : OutcomeSchema

pub record RouteEntry : Type 0 where
  pub ts_ms : ℕ
  pub target : String
  pub ref : Option String
  pub reason : Option String

pub record CoverageMissEntry : Type 0 where
  pub ts_ms : ℕ
  pub topic : String
  pub behavior_applied : String

-- The rest of SessionFacts, beside what the outcome depends on.
pub record SessionDetails : Type 0 where
  pub session_id : String
  pub channel : String
  pub started_at_ms : ℕ
  pub ended_at_ms : Option ℕ
  pub last_user_turn_ms : Option ℕ
  pub turn_count : ℕ
  pub interruption_count : ℕ
  pub event_count : ℕ
  pub handoff_ids : List String
  pub flags : List String
  pub routing_history : List RouteEntry
  pub coverage_misses : List CoverageMissEntry
  pub claim_decisions : List ClaimDecisionEntry
  pub summary_text : Option String
  pub event_log_ref : Option String
  pub evidence_refs : List String
  pub policy_versions : Dict String String
  pub knowledge_versions : Dict String String

-- The observations of `primary_for`, and those of the fields that are not satisfied.
pub data Note : Type 0 where
  observed : Observation → Note
  field_requires : (name : String) → Provenance → Option Provenance → Note

pub record Outcome (V : Type 0) : Type 0 where
  pub outcome_id : String
  pub session_id : String
  pub tenant_id : String
  pub line_id : Option String
  pub activity_id : String
  pub activity_version : String
  pub direction : String
  pub channel : String
  pub primary : String
  pub secondary : List String
  pub collected_fields : List (FieldValue V)
  pub verified_fields : List String
  pub inferred_fields : List String
  pub rejected_fields : List String
  pub observations : List Note
  pub next_actions : List String
  pub handoff_ref : Option String
  pub policy_versions : Dict String String
  pub knowledge_versions : Dict String String
  pub tool_provenance : List ToolProvenanceEntry
  pub timestamps : OutcomeTimestamps
  pub evidence_refs : List String
  pub summary_text : Option String

pub record InteractionRecord (V : Type 0) : Type 0 where
  pub record_id : String
  pub outcome : Outcome V
  pub routing_history : List RouteEntry
  pub handoff_ids : List String
  pub coverage_misses : List CoverageMissEntry
  pub claim_decisions : List ClaimDecisionEntry
  pub turn_count : ℕ
  pub interruption_count : ℕ
  pub tool_call_count : ℕ
  pub event_count : ℕ
  pub event_log_ref : Option String
  pub evidence_refs : List String

-- `f.tool_call_id == o.call_id`
abbrev made_by : String → Option String → Bool
made_by call_id none = false
made_by call_id (some id) = id == call_id

-- `observations.append`, in the loop over `unsatisfied_required`.
abbrev requires : String × Provenance × Option Provenance → Note
requires (name, need, got) = field_requires name need got

module _ {V : Type 0} where
  unfoldable pub provenance_entry : FieldStore V → ToolOutcome → ToolProvenanceEntry
  provenance_entry store o = record {
    call_id = o.call_id;
    tool_id = o.tool_id;
    status = o.status;
    fields_affected =
        map (λ (f : FieldValue V). f.name)
          (select (λ f. made_by o.call_id f.tool_call_id) (values store.current));
  }

  unfoldable pub assemble :
      Blueprint
      → FieldStore V
      → List ToolOutcome
      → SessionFacts
      → SessionDetails
      → (outcome_id record_id : String) → (flags : List String) → (primary : String) → List Note
      → InteractionRecord V
  unfolding provenance_entry
  assemble bp store history f d outcome_id record_id flags primary notes = record {
    record_id = record_id;
    outcome = record {
      outcome_id = outcome_id;
      session_id = d.session_id;
      tenant_id = bp.tenant_id;
      line_id = bp.line_id;
      activity_id = bp.activity_id;
      activity_version = bp.version;
      direction = bp.direction;
      channel = d.channel;
      primary = primary;
      secondary = select (contains flags) bp.outcome_schema.secondary;
      collected_fields = values store.current;
      verified_fields = verified_names store;
      inferred_fields = inferred_names store;
      rejected_fields = rejected_names store;
      observations = notes;
      next_actions = next_actions bp.outcome_schema primary f;
      handoff_ref = f.handoff_ref;
      policy_versions = d.policy_versions;
      knowledge_versions = d.knowledge_versions;
      tool_provenance = map (provenance_entry store) history;
      timestamps = record {
        session_started = d.started_at_ms;
        session_ended = d.ended_at_ms;
        first_user_turn = f.first_user_turn_ms;
        last_user_turn = d.last_user_turn_ms;
      };
      evidence_refs = d.evidence_refs;
      summary_text = d.summary_text;
    };
    routing_history = d.routing_history;
    handoff_ids = d.handoff_ids;
    coverage_misses = d.coverage_misses;
    claim_decisions = d.claim_decisions;
    turn_count = d.turn_count;
    interruption_count = d.interruption_count;
    tool_call_count = length history;
    event_count = d.event_count;
    event_log_ref = d.event_log_ref;
    evidence_refs = d.evidence_refs;
  }

  module _ (decide : List String → RuleInputs V → Ruling)
      (split_once : String → Option (String × String)) (strip : String → String) where
    -- `build`; nothing stands for the IndexError of an Activity that allows no outcome.
    unfoldable pub build :
        Blueprint
        → FieldStore V
        → List ToolOutcome
        → SessionFacts
        → SessionDetails
        → (outcome_id record_id : String) → Result (Option (InteractionRecord V))
    unfolding assemble
    build bp store history f d outcome_id record_id =
        let flags = d.flags ++ flags_from_tools history in
        let verdict = completion decide split_once strip bp.completion store flags in
        let (primary, seen) = primary_for bp.outcome_schema verdict f (recorded_names store) in
        elim primary [
          | none ↦ ok none
          | some p ↦ elim (unsatisfied_required store) [
            | raise e ↦ raise e
            | ok lacking ↦ ok (
                some (
                  assemble bp store history f d outcome_id record_id flags p
                    (map observed seen ++ map requires lacking)))
          ]
        ]
