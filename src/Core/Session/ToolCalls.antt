-- ===== src/Core/Session/ToolCalls.antt =====
-- qevion/core/session.py, SessionTools: tool calls and what their results change. A call that has to
-- be confirmed takes two actions: `run_tool` leaves it waiting, and `answer_tool` goes on from there.
use Prim.Native.String.{◌++◌ as str_append}
use markting_call_center.Base.{
  ℕ, zero, suc, String, string_eq, Bool, true, false, not, ◌&&◌, ◌==◌, if◌then◌else◌, is_some,
  or_else, is_empty, Option, none, some, List, [], ◌∷◌, ◌++◌, length, Dict, get, has_key, Result,
}
use markting_call_center.Contracts.Control.{DialogState, ActivityState, dialog_beq, activity_beq}
use markting_call_center.Contracts.Values.{Value, null}
use markting_call_center.Contracts.Tools.{
  ToolInvocation, ToolOutcome, ToolOutcomeStatus, ErrorText, text, is_completed,
}
use markting_call_center.Core.Fields.{
  FieldSpec, FieldValue, FieldStore, record_value, verify, missing_required, is_verified,
}
use markting_call_center.Core.Focus as Focus
use markting_call_center.Core.Objectives as Objectives
use markting_call_center.Core.Objectives.{collect_field}
use markting_call_center.Core.Outcome.{is_true_value}
use markting_call_center.Core.Tools as Tools
use markting_call_center.Core.Tools.{Pipeline, ToolEvent, confirmation_requested}
use markting_call_center.Core.Session.Data.{
  SessionDeps, Waiting, FieldRuling, tool_event, failure_classified, unknown_field, field_decided,
  field_recorded, field_corrected, field_verified, user_correction, coverage_miss,
  handoff_requested, handoff_acknowledged, route_requested, send_tool_result, confirmation_request,
}
use markting_call_center.Core.Session.Actions.{
  Action, pure, gets, modify_knowledge, modify_course, when, ◌>>=◌, ◌>>◌,
}
use markting_call_center.Core.Session.Events.{
  read_clock, draw_id, emit, send, dialog_fire, activity_fire, order,
}

abbrev status_value : ToolOutcomeStatus → String
status_value ToolOutcomeStatus.completed = "completed"
status_value ToolOutcomeStatus.failed = "failed"
status_value ToolOutcomeStatus.rejected_args = "rejected_args"
status_value ToolOutcomeStatus.rejected_policy = "rejected_policy"
status_value ToolOutcomeStatus.rejected_budget = "rejected_budget"
status_value ToolOutcomeStatus.confirmation_denied = "confirmation_denied"
status_value ToolOutcomeStatus.duplicate = "duplicate"
status_value ToolOutcomeStatus.timeout = "timeout"
status_value ToolOutcomeStatus.unknown = "unknown"

-- `out.status in (FAILED, TIMEOUT, UNKNOWN)`
abbrev has_failed : ToolOutcomeStatus → Bool
has_failed ToolOutcomeStatus.failed = true
has_failed ToolOutcomeStatus.timeout = true
has_failed ToolOutcomeStatus.unknown = true
has_failed _ = false

-- `out.error == "confirmation pending"`
unfoldable pub is_pending : Option ErrorText → Bool
is_pending (some (text t)) = t == "confirmation pending"
is_pending _ = false

-- The entries of a list after the first n.
abbrev after {ℓ} : {A : Type ℓ} → ℕ → List A → List A
after zero xs = xs
after (suc n) [] = []
after (suc n) (x ∷ xs) = after n xs

-- Whether a run stopped where it asks the user.
unfoldable pub asks : List (ToolEvent × String) → Bool
asks [] = false
asks ((confirmation_requested, call_id) ∷ []) = true
asks ((_, call_id) ∷ []) = false
asks (e ∷ (e' ∷ es)) = asks (e' ∷ es)

module _ (d : SessionDeps) where
  -- `str(args.get(key, default))`
  abbrev text_argument : Dict String Value → String → String → String
  text_argument args key default = elim (get args key) [ none ↦ default | some v ↦ d.str v ]

  -- The end of `_record_field`, once the value is stored.
  unfoldable pub field_stored : FieldSpec → String → Value → FieldValue Value → Action Unit
  field_stored spec name value fv = do
    modify_knowledge
        (λ k. record k { objectives = (Objectives.complete k.objectives collect_field name).0 })
    if is_some fv.corrected_from
        then emit d (field_corrected name fv.provenance) >> emit d (user_correction name)
        else emit d (field_recorded name fv.provenance)
    when (spec.type == "entity_ref") (do
      now ← read_clock d
      modify_knowledge (λ k. record k {
        focus = Focus.push k.focus (record {
          entity_id = d.str value;
          entity_type = name;
          ts_ms = now;
          source = "user";
          label = none;
        });
      }))
    missing ← gets (λ s. missing_required s.knowledge.fields)
    when (not (is_empty missing))
        (activity_fire d "field_needed" "more required fields" "core:field_store" >> pure tt)

  -- A method of the field store.
  unfoldable pub on_fields :
      {A : Type 0} → (FieldStore Value → FieldStore Value × Result A) → Action A
  on_fields f s =
      let (fields, r) = f s.knowledge.fields in
      (r, record s { knowledge = record s.knowledge { fields = fields } })

  -- `_record_field`, on what the decision port says; nothing stands for a value that it refuses.
  unfoldable pub field_ruled :
      FieldSpec → String → ToolOutcome → FieldRuling → Option Value → Action Unit
  field_ruled spec name out ruling none = do
    now ← read_clock d
    modify_knowledge (λ k. record k {
      objectives = (Objectives.add k.objectives collect_field name 1 now ruling.reason).0;
    })
    activity_fire d "field_needed"
        (str_append name (str_append " invalid: " (or_else ruling.reason "None"))) "core:decision"
    pure tt
  field_ruled spec name out ruling (some value) = do
    turn_id ← gets (λ s. s.course.turn_id)
    now ← read_clock d
    fv ← on_fields (λ f. record_value d.same_value f name value out.provenance (record {
      turn_id = turn_id;
      tool_call_id = some out.call_id;
      ts_ms = some now;
      confidence = 1000;
    }))
    field_stored spec name value fv

  unfoldable pub record_spec : String → Value → ToolOutcome → Option FieldSpec → Action Unit
  record_spec name value out none = emit d (failure_classified (unknown_field name))
  record_spec name value out (some spec) =
      let ruling = d.validate_field spec value in
      emit d (field_decided name (is_some ruling.value))
      >> field_ruled spec name out ruling (if ruling.is_unknown then none else ruling.value)

  -- `_record_field`
  unfoldable pub record_field : String → Value → ToolOutcome → Action Unit
  record_field name value out = do
    spec ← gets (λ s. get s.knowledge.fields.specs name)
    record_spec name value out spec

  -- The sink's answer, if there is a sink. What the request says of the conversation is left out.
  unfoldable pub ask_sink :
      Option ((handoff_id reason destination : String) → Bool)
      → String
      → String
      → String
      → Action Bool
  ask_sink none hid reason destination = pure true
  ask_sink (some sink) hid reason destination =
      emit d (handoff_acknowledged hid (sink hid reason destination))
      >> pure (sink hid reason destination)

  unfoldable pub request_handoff : String → String → Action (Option String)
  request_handoff reason destination = do
    hid ← draw_id d "ho"
    emit d (handoff_requested hid reason destination)
    accepted ← ask_sink d.handoff_sink hid reason destination
    if not accepted then pure none else do
      modify_course
          (λ c. record c { handoff_ref = some hid; handoff_ids = c.handoff_ids ++ hid ∷ [] })
      now ← read_clock d
      modify_course (λ c. record c {
        routing_history =
            c.routing_history
            ++ record {
              ts_ms = now;
              target = "human";
              ref = some destination;
              reason = some reason;
            }
              ∷ [];
      })
      emit d (route_requested "human" destination)
      activity_fire d "handoff" reason "core:handoff"
      pure (some hid)

  -- `name in self.fields.specs and self.fields.get(name)`
  abbrev is_held : FieldStore Value → String → Bool
  is_held f name = has_key f.specs name && has_key f.current name

  unfoldable pub verify_field : String → ℕ → ToolOutcome → Action Unit
  verify_field name now out = do
    held ← gets (λ s. is_held s.knowledge.fields name)
    when (is_true_value (get out.output "verified") && held) (do
      on_fields (λ f. verify d.same_value f name out.call_id (some now) none)
      emit d (field_verified name out.call_id))

  -- The `match` of `_apply_tool_outcome`.
  unfoldable pub apply_tool : ℕ → ToolOutcome → Dict String Value → Action Unit
  apply_tool now out args =
      if out.tool_id == "record_field"
      then record_field (text_argument args "name" "") (or_else (get args "value") null) out
      else if out.tool_id == "verify_field"
      then verify_field (text_argument args "name" "") now out
      else if out.tool_id == "clarify"
      then activity_fire d "ambiguity" "clarify tool" "core:tool_pipeline" >> pure tt
      else if out.tool_id == "request_handoff"
      then request_handoff (text_argument args "reason" "requested")
          (text_argument args "destination_ref" "default")
        >> pure tt
      else if out.tool_id == "collect_question"
      then modify_knowledge (λ k. record k {
        coverage_misses =
            k.coverage_misses
            ++ record {
              ts_ms = now;
              topic = text_argument args "topic" "";
              behavior_applied = "COLLECT_QUESTION";
            }
              ∷ [];
      })
        >> emit d (coverage_miss (text_argument args "topic" ""))
      else when (out.tool_id == "schedule_callback")
          (modify_knowledge (λ k. record k { flags = k.flags ++ "callback_scheduled" ∷ [] }))

  -- `_apply_tool_outcome`
  unfoldable pub apply_tool_outcome : ToolOutcome → Dict String Value → Action Unit
  apply_tool_outcome out args = do
    now ← read_clock d
    a ← gets (λ s. s.machines.activity.state)
    if not (is_completed out.status)
        then when (has_failed out.status && activity_beq a ActivityState.executing) (
            activity_fire d "execution_failed" (status_value out.status) "core:tool_pipeline"
            >> pure tt)
        else do
          apply_tool now out args
          b ← gets (λ s. s.machines.activity.state)
          when
              (activity_beq b ActivityState.executing
                && is_verified out.provenance
                && is_true_value (get out.output "accepted"))
              (activity_fire d "executed" out.tool_id "core:tool_pipeline" >> pure tt)

  -- The end of `run_tool`, once the pipeline has returned.
  unfoldable pub finish_tool : String → ToolOutcome → Dict String Value → Action Unit
  finish_tool call_id out args = do
    apply_tool_outcome out args
    when (not (is_pending out.error))
        (order d (send_tool_result call_id out.output out.status out.error))
    m ← gets (λ s. s.machines.dialog)
    when (dialog_beq m.state DialogState.waiting_tool) (
        dialog_fire d (if is_completed out.status then "tool_returned" else "tool_failed") none
        >> pure tt)

  -- `_emit_tool`, for each event that a run adds.
  unfoldable pub emit_tools : List (ToolEvent × String) → Action Unit
  emit_tools [] = pure tt
  emit_tools ((e, call_id) ∷ es) = emit d (tool_event e call_id) >> emit_tools es

  -- A run of the pipeline with this answer of the user, from a pipeline that may stand before what
  -- has been run of it already.
  unfoldable pub run_pipeline : Option Bool → Pipeline → ToolInvocation → Action ToolOutcome
  run_pipeline answer before inv = do
    known ← gets (λ s. length s.knowledge.pipeline.emitted)
    let (p, out) = Tools.run (record d.tools { confirm = some (λ _. answer) }) before inv in
        do
          modify_knowledge (λ k. record k { pipeline = p })
          emit_tools (after known p.emitted)
          pure out

  -- `_confirm_tool`, up to the wait.
  unfoldable pub ask_user : Pipeline → ToolInvocation → Action Unit
  ask_user before inv = do
    modify_course (λ c. record c {
      waiting = some (record { invocation = inv; before = before; answer = none });
    })
    activity_fire d "confirm_needed" (str_append "tool " inv.tool_id) "core:confirmation_gate"
    dialog_fire d "confirmation_needed" none
    send d (confirmation_request inv.call_id inv.tool_id inv.arguments)

  unfoldable pub run_tool : String → String → Dict String Value → Action Unit
  run_tool call_id tool_id arguments = do
    turn_id ← gets (λ s. s.course.turn_id)
    before ← gets (λ s. s.knowledge.pipeline)
    now ← read_clock d
    let inv : ToolInvocation = record {
      call_id = call_id;
      tool_id = tool_id;
      arguments = arguments;
      session_id = d.session_id;
      tenant_id = d.blueprint.tenant_id;
      activity_id = d.blueprint.activity_id;
      turn_id = turn_id;
      requested_at_ms = now;
    } in
        do
          out ← run_pipeline none before inv
          stopped ← gets (λ s. asks s.knowledge.pipeline.emitted)
          if stopped then ask_user before inv else finish_tool call_id out arguments

  -- The end of `_confirm_tool`: what the user's answer, or none in time, changes.
  unfoldable pub confirmed : Option Bool → Action Unit
  confirmed (some true) = do
    activity_fire d "confirmed" "user confirmed" "core:confirmation_interpreter"
    dialog_fire d "confirmed" none
    pure tt
  confirmed (some false) = do
    activity_fire d "denied" "user denied" "core:confirmation_interpreter"
    dialog_fire d "denied" none
    pure tt
  confirmed none = do
    m ← gets (λ s. s.machines.dialog)
    when (dialog_beq m.state DialogState.waiting_confirmation)
        (dialog_fire d "end_of_turn" (some "confirmation timeout") >> pure tt)

  unfoldable pub answer_waiting : Option Waiting → Action Unit
  answer_waiting none = pure tt
  answer_waiting (some w) = do
    modify_course (λ c. record c { waiting = none })
    confirmed (or_else w.answer none)
    out ← run_pipeline (or_else w.answer none) w.before w.invocation
    finish_tool w.invocation.call_id out w.invocation.arguments

  -- `run_tool` from the wait on: the future has a result, or the time is up.
  unfoldable pub answer_tool : Action Unit
  answer_tool = do w ← gets (λ s. s.course.waiting); answer_waiting w
