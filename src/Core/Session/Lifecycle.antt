-- ===== src/Core/Session/Lifecycle.antt =====
-- qevion/core/session.py, SessionLifecycle: the start of a session, its end, and the completion rules.
-- What the sinks and the transport do when they are called at the end is left to them.
use markting_call_center.Base.{
  String, Bool, true, false, not, ◌&&◌, ◌||◌, if◌then◌else◌, is_some, Option, none, some, List,
  ◌++◌, Result, ok, raise, index_error, [],
}
use markting_call_center.Contracts.Control.{DialogState, ActivityState, dialog_beq, activity_beq}
use markting_call_center.Contracts.Values.{Value}
use markting_call_center.Core.Dialog as Dialog
use markting_call_center.Core.Activity as Activity
use markting_call_center.Core.Fields.{ready_for_execution}
use markting_call_center.Core.Instructions.{compose}
use markting_call_center.Core.Outcome.{
  CompletionVerdict, SessionFacts, completion, flags_from_tools, is_yes,
}
use markting_call_center.Core.Record.{InteractionRecord, SessionDetails, build}
use markting_call_center.Core.Session.Data.{
  Session, SessionDeps, Waiting, session_created, session_started, session_ended,
  provider_session_created, provider_session_closed, outcome_produced, interaction_record_produced,
  ready, update_instructions, close_provider,
}
use markting_call_center.Core.Session.Actions.{
  Action, pure, gets, from, modify_course, when, ◌>>=◌, ◌>>◌,
}
use markting_call_center.Core.Session.Events.{
  read_clock, draw_id, emit, send, transition, fire_dialog, dialog_fire, step_activity,
  activity_fire, order, snapshot, refresh_instructions,
}

-- `self._closed = True`
unfoldable pub mark_closed : Action Unit
mark_closed = modify_course (λ c. record c { closed = true })

module _ (d : SessionDeps) where
  -- `_all_flags`
  unfoldable pub all_flags : Session → List String
  all_flags s = s.knowledge.flags ++ flags_from_tools s.knowledge.pipeline.history

  -- `self.outcome_engine.completion(self.fields, self._all_flags())`
  unfoldable pub verdict : Session → CompletionVerdict
  unfolding all_flags
  verdict s =
      completion d.decide d.split_once d.strip d.blueprint.completion s.knowledge.fields
        (all_flags s)

  unfoldable pub start : Action Bool
  start = do
    now ← read_clock d
    modify_course (λ c. record c { started_at_ms = now })
    emit d (session_created d.channel)
    snap ← snapshot d
    modify_course (λ c. record c {
      instructions_fp = some (d.sha (compose d.static_text snap));
      provider_open = true;
    })
    order d (update_instructions (compose d.static_text snap))
    emit d provider_session_created
    dialog_fire d "session_started" none
    emit d session_started
    send d (ready d.blueprint.activity_id)
    activity_fire d "opened" "session started" "core"

  -- The trigger that `_finalize_activity` chooses.
  unfoldable pub final_trigger : CompletionVerdict → String
  final_trigger v =
      if is_some v.exit_rule
      then "exit_rule_met"
      else if is_yes v.failure
      then "failure_rule_met"
      else if is_yes v.success
      then "success_rule_met"
      else "user_left"

  -- `_finalize_activity`
  unfoldable pub finalize_activity : String → Action Unit
  unfolding final_trigger
  finalize_activity reason = do
    v ← gets verdict
    step_activity d (final_trigger v) reason "core:completion_rules" false
    over ← gets (λ s. Activity.terminal s.machines.activity)
    when (not over) (step_activity d "closed" reason "core:completion_rules" false >> pure tt)

  -- `fut.set_result(None)`, `if not fut.done()`
  abbrev given_up : Option Waiting → Option Waiting
  given_up none = none
  given_up (some w) = elim w.answer [
    | none ↦ some (record w { answer = some none })
    | some a ↦ some w
  ]

  facts_of : Session → SessionFacts
  facts_of s = record {
    activity_state = s.machines.activity_state;
    first_user_turn_ms = s.course.first_user_turn_ms;
    handoff_ref = s.course.handoff_ref;
  }

  details_of : Session → SessionDetails
  details_of s = record {
    session_id = d.session_id;
    channel = d.channel;
    started_at_ms = s.course.started_at_ms;
    ended_at_ms = s.course.ended_at_ms;
    last_user_turn_ms = s.course.last_user_turn_ms;
    turn_count = s.course.turn_count;
    interruption_count = s.course.interruption_count;
    event_count = s.log.event_count;
    handoff_ids = s.course.handoff_ids;
    flags = s.knowledge.flags;
    routing_history = s.course.routing_history;
    coverage_misses = s.knowledge.coverage_misses;
    claim_decisions = [];
    summary_text = none;
    event_log_ref = none;
    evidence_refs = [];
    policy_versions = [];
    knowledge_versions = [];
  }

  abbrev or_index_error :
      Result (Option (InteractionRecord Value)) → Result (InteractionRecord Value)
  or_index_error (raise x) = raise x
  or_index_error (ok none) = raise index_error
  or_index_error (ok (some r)) = ok r

  -- The call of `outcome_engine.build`.
  unfoldable pub build_record : Action (InteractionRecord Value)
  unfolding facts_of details_of
  build_record = do
    outcome_id ← draw_id d "out"
    record_id ← draw_id d "rec"
    r ← gets (λ s. or_index_error (
        build d.decide d.split_once d.strip d.blueprint s.knowledge.fields
          s.knowledge.pipeline.history (facts_of s) (details_of s) outcome_id record_id))
    from r

  -- The dialog machine's part of `_close`.
  unfoldable pub close_dialog : String → Action Unit
  close_dialog reason = do
    m ← gets (λ s. s.machines.dialog)
    when (not (dialog_beq m.state DialogState.closed) && Dialog.can m "close")
        (do t ← fire_dialog d "close" (some reason); transition d t false)

  -- The provider's part of `_close`.
  unfoldable pub close_session_of_provider : Action Unit
  close_session_of_provider = do
    opened ← gets (λ s. s.course.provider_open)
    when opened (order d close_provider >> emit d provider_session_closed)

  -- `_close`, after its first line.
  unfoldable pub close_down : String → Action (InteractionRecord Value)
  close_down reason = do
    now ← read_clock d
    modify_course (λ c. record c { ended_at_ms = some now; waiting = given_up c.waiting })
    close_dialog reason
    over ← gets (λ s. Activity.terminal s.machines.activity)
    when (not over) (finalize_activity reason)
    close_session_of_provider
    r ← build_record
    modify_course (λ c. record c { produced = some r })
    emit d (outcome_produced r.outcome.primary r.outcome.secondary)
    emit d interaction_record_produced
    turns ← gets (λ s. s.course.turn_count)
    emit d (session_ended reason turns)
    pure r

  -- `_close`
  unfoldable pub close_now : String → Action (InteractionRecord Value)
  close_now reason = mark_closed >> close_down reason

  -- The task that `close` starts: its result stays, and every later call awaits it.
  unfoldable pub close_task : String → Action (InteractionRecord Value)
  close_task reason s =
      let (r, s') = close_now reason s in
      (r, record s' { course = record s'.course { close_task = some r } })

  unfoldable pub closing :
      String
      → Option (InteractionRecord Value)
      → Option (Result (InteractionRecord Value))
      → Action (InteractionRecord Value)
  closing reason (some r) task = pure r
  closing reason none (some r) = from r
  closing reason none none = close_task reason

  unfoldable pub close : String → Action (InteractionRecord Value)
  close reason = do
    r ← gets (λ s. s.course.produced)
    task ← gets (λ s. s.course.close_task)
    closing reason r task

  -- `evaluate_completion`, on the verdict and its exit rule.
  unfoldable pub by_verdict : CompletionVerdict → Option String → Action Bool
  by_verdict v (some rule) = activity_fire d "exit_rule_met" rule "core:completion_rules"
  by_verdict v none =
      if is_yes v.failure
      then activity_fire d "failure_rule_met" "failure rule" "core:completion_rules"
      else if is_yes v.success
      then activity_fire d "success_rule_met" "success rule" "core:completion_rules"
      else do
        r ← gets (λ s. ready_for_execution s.knowledge.fields)
        is_ready ← from r
        a ← gets (λ s. s.machines.activity.state)
        if is_ready
              && (activity_beq a ActivityState.collecting || activity_beq a ActivityState.engaged)
            then activity_fire d "fields_complete" "all required satisfied" "core:field_store"
            else pure false

  unfoldable pub evaluate_completion : Action Unit
  evaluate_completion = do
    over ← gets (λ s. Activity.terminal s.machines.activity || s.course.closed)
    if over
        then pure tt
        else do v ← gets verdict; by_verdict v v.exit_rule; refresh_instructions d; pure tt
