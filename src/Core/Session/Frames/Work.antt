-- ===== src/Core/Session/Frames/Work.antt =====
-- Frames of tool calls, and of all that reaches a session.
use markting_call_center.Base.{
  refl, ℕ, String, Bool, true, false, Option, none, some, List, [], ◌∷◌, Dict, Result,
}
use markting_call_center.Contracts.Values.{Value}
use markting_call_center.Contracts.Tools.{ToolInvocation, ToolOutcome}
use markting_call_center.Core.Fields.{FieldSpec, FieldValue, FieldStore}
use markting_call_center.Core.Tools.{Pipeline, ToolEvent}
use markting_call_center.Core.Session.Data.{Session, SessionDeps, Knowledge, FieldRuling, Waiting}
use markting_call_center.Core.Session.Actions.{Keeps, modify_knowledge, Keeps-bind}
use markting_call_center.Core.Session.ToolCalls.{
  field_stored, on_fields, field_ruled, record_spec, record_field, ask_sink, request_handoff,
  verify_field, apply_tool, apply_tool_outcome, finish_tool, emit_tools, run_pipeline, ask_user,
  run_tool, confirmed, answer_waiting, answer_tool,
}
use markting_call_center.Core.Session.Frames.{IsFrame, frame_rules}

-- The writes of the knowledge too.
pub record IsFull (d : SessionDeps) (P : Session → Type 0) : Type 0 where
  pub frame : IsFrame d P
  pub knowledge : (g : Knowledge → Knowledge) → Keeps P (modify_knowledge g)

module _ {d : SessionDeps} {P : Session → Type 0} (f : IsFull d P) where
  pub knowledge-Keeps : (g : Knowledge → Knowledge) → Keeps P (modify_knowledge g)
  knowledge-Keeps = f.knowledge

  -- A method of the store writes the store that it returns.
  fields-Keeps :
      {A : Type 0} (g : FieldStore Value → FieldStore Value × Result A) → Keeps P (on_fields d g)
  unfolding on_fields modify_knowledge
  fields-Keeps g = record {
    at = λ s h. (f.knowledge (λ k. record k { fields = (g k.fields).0 })).at s h;
  }

  field_stored-Keeps :
      (spec : FieldSpec) (name : String) (value : Value) (fv : FieldValue Value)
      → Keeps P (field_stored d spec name value fv)
  unfolding field_stored
  field_stored-Keeps spec name value fv = search (frame_rules, knowledge-Keeps, f.frame) depth 20

  field_ruled-Keeps :
      (spec : FieldSpec) (name : String) (out : ToolOutcome) (r : FieldRuling) (v : Option Value)
      → Keeps P (field_ruled d spec name out r v)
  unfolding field_ruled
  field_ruled-Keeps spec name out r none = search (frame_rules, knowledge-Keeps, f.frame) depth 20
  field_ruled-Keeps spec name out r (some v) =
      search (frame_rules, fields-Keeps, field_stored-Keeps, f.frame) depth 20

  record_spec-Keeps :
      (name : String) (value : Value) (out : ToolOutcome) (spec : Option FieldSpec)
      → Keeps P (record_spec d name value out spec)
  unfolding record_spec
  record_spec-Keeps name value out none = search (frame_rules, f.frame) depth 20
  record_spec-Keeps name value out (some spec) =
      search (frame_rules, field_ruled-Keeps, f.frame) depth 20

  record-Keeps :
      (name : String) (value : Value) (out : ToolOutcome) → Keeps P (record_field d name value out)
  unfolding record_field
  record-Keeps name value out = search (frame_rules, record_spec-Keeps) depth 20

  sink-Keeps :
      (sink : Option ((handoff_id reason destination : String) → Bool)) (hid reason dest : String)
      → Keeps P (ask_sink d sink hid reason dest)
  unfolding ask_sink
  sink-Keeps none hid reason dest = search (frame_rules) depth 20
  sink-Keeps (some sink) hid reason dest = search (frame_rules, f.frame) depth 20

  handoff-Keeps : (reason destination : String) → Keeps P (request_handoff d reason destination)
  unfolding request_handoff
  handoff-Keeps reason destination = search (frame_rules, sink-Keeps, f.frame) depth 20

  verify-Keeps :
      (name : String) (now : ℕ) (out : ToolOutcome) → Keeps P (verify_field d name now out)
  unfolding verify_field
  verify-Keeps name now out = search (frame_rules, fields-Keeps, f.frame) depth 20

  apply_tool-Keeps :
      (now : ℕ) (out : ToolOutcome) (args : Dict String Value) → Keeps P (apply_tool d now out args)
  unfolding apply_tool
  apply_tool-Keeps now out args =
      search (frame_rules, knowledge-Keeps, record-Keeps, verify-Keeps, handoff-Keeps, f.frame)
        depth 30

  apply-Keeps :
      (out : ToolOutcome) (args : Dict String Value) → Keeps P (apply_tool_outcome d out args)
  unfolding apply_tool_outcome
  apply-Keeps out args = search (frame_rules, apply_tool-Keeps, f.frame) depth 30

  finish-Keeps :
      (call_id : String) (out : ToolOutcome) (args : Dict String Value)
      → Keeps P (finish_tool d call_id out args)
  unfolding finish_tool
  finish-Keeps call_id out args = search (frame_rules, apply-Keeps, f.frame) depth 30

  emit_tools-Keeps : (es : List (ToolEvent × String)) → Keeps P (emit_tools d es)
  unfolding emit_tools
  emit_tools-Keeps [] = search (frame_rules)
  emit_tools-Keeps ((e, call_id) ∷ es) =
      Keeps-bind _ _ (f.frame.event _ refl) (λ _. emit_tools-Keeps es)

  run_pipeline-Keeps :
      (answer : Option Bool) (before : Pipeline) (inv : ToolInvocation)
      → Keeps P (run_pipeline d answer before inv)
  unfolding run_pipeline
  run_pipeline-Keeps answer before inv =
      search (frame_rules, knowledge-Keeps, emit_tools-Keeps) depth 20

  ask_user-Keeps : (before : Pipeline) (inv : ToolInvocation) → Keeps P (ask_user d before inv)
  unfolding ask_user
  ask_user-Keeps before inv = search (frame_rules, f.frame) depth 20

  pub run_tool-Keeps :
      (call_id tool_id : String) (args : Dict String Value)
      → Keeps P (run_tool d call_id tool_id args)
  unfolding run_tool
  run_tool-Keeps call_id tool_id args =
      search (frame_rules, run_pipeline-Keeps, ask_user-Keeps, finish-Keeps, f.frame) depth 30

  confirmed-Keeps : (answer : Option Bool) → Keeps P (confirmed d answer)
  unfolding confirmed
  confirmed-Keeps (some true) = search (frame_rules, f.frame) depth 20
  confirmed-Keeps (some false) = search (frame_rules, f.frame) depth 20
  confirmed-Keeps none = search (frame_rules, f.frame) depth 20

  answer_waiting-Keeps : (w : Option Waiting) → Keeps P (answer_waiting d w)
  unfolding answer_waiting
  answer_waiting-Keeps none = search (frame_rules)
  answer_waiting-Keeps (some w) =
      search (frame_rules, confirmed-Keeps, run_pipeline-Keeps, finish-Keeps, f.frame) depth 30

  pub answer-Keeps : Keeps P (answer_tool d)
  unfolding answer_tool
  answer-Keeps = search (frame_rules, answer_waiting-Keeps) depth 20
