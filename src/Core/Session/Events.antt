-- ===== src/Core/Session/Events.antt =====
-- qevion/core/session.py, SessionCore: the clock, events, transitions, messages to the client and
-- instructions to the provider.
use markting_call_center.Base.{
  ℕ, ◌+◌, ◌-◌, String, string_eq, Bool, true, false, not, ◌==◌, if◌then◌else◌, Option, none, some,
  List, [], ◌∷◌, ◌++◌, map, length, ok, raise, value_error,
}
use markting_call_center.Contracts.Control.{parse_activity_state, ActivityState}
use markting_call_center.Contracts.Provenance.{Provenance}
use markting_call_center.Core.Transitions.{Transition}
use markting_call_center.Core.Dialog as Dialog
use markting_call_center.Core.Activity as Activity
use markting_call_center.Core.Fields.{missing_required, recorded_names, unsatisfied_required}
use markting_call_center.Core.Focus.{is_ambiguous}
use markting_call_center.Core.Instructions.{RuntimeSnapshot, compose}
use markting_call_center.Core.Session.Data.{
  Session, SessionDeps, Log, Event, EventBody, state_changed, failure_classified,
  illegal_dialog_transition, transport_disconnected, ServerMessage, state, Order,
  update_instructions, Waiting,
}
use markting_call_center.Core.Session.Actions.{
  Action, pure, gets, from, modify_log, modify_machines, modify_voice, modify_course, when, ◌>>=◌,
  ◌>>◌,
}

-- `t.authority = authority`: the transition stands in the machine's log, which shows the change.
unfoldable pub authorize : String → List Transition → List Transition
authorize authority [] = []
authorize authority (t ∷ []) = record t { authority = authority } ∷ []
authorize authority (t ∷ (u ∷ us)) = t ∷ authorize authority (u ∷ us)

module _ (d : SessionDeps) where
  -- `self.clock()`
  unfoldable pub read_clock : Action ℕ
  read_clock s = (
    ok (d.clock s.log.readings),
    record s { log = record s.log { readings = s.log.readings + 1 } },
  )

  -- `new_id(prefix)`
  unfoldable pub draw_id : String → Action String
  draw_id kind s =
      (ok (d.new_id kind s.log.drawn), record s { log = record s.log { drawn = s.log.drawn + 1 } })

  -- The log after `emit`.
  unfoldable pub logged : Option String → EventBody → Log → Log
  logged turn_id body l =
      let e : Event = record {
        seq = l.seq;
        turn_id = turn_id;
        ts_ms = d.clock l.readings;
        body = body;
      } in
      record l {
        readings = l.readings + 1;
        seq = l.seq + 1;
        events = l.events ++ e ∷ [];
        event_count = length (l.events ++ e ∷ []);
      }

  unfoldable pub emit : EventBody → Action Unit
  unfolding logged
  emit body s = (ok tt, record s { log = logged s.course.turn_id body s.log })

  -- `transport.send`, which may raise ConnectionError.
  unfoldable pub deliver : ServerMessage → Action Bool
  deliver m s = (
    ok (d.delivers s.log.tried),
    record s {
      log = record s.log {
        tried = s.log.tried + 1;
        sent = if d.delivers s.log.tried then s.log.sent ++ m ∷ [] else s.log.sent;
      };
    },
  )

  -- `_send`
  unfoldable pub send : ServerMessage → Action Unit
  send m = do
    closed ← gets (λ s. s.course.closed)
    if closed then pure tt else do
      now ← read_clock
      went ← deliver m
      when (not went) (emit (transport_disconnected "send failed"))

  -- The message of `_send_state`; the names that are recorded stand in the store's order.
  abbrev state_message : Session → ServerMessage
  state_message s =
      state s.machines.dialog.state s.machines.activity.state (missing_required s.knowledge.fields)
        (recorded_names s.knowledge.fields) s.course.turn_id

  unfoldable pub send_state : Action Unit
  send_state = do m ← gets state_message; send m

  -- `self.facts.activity_state = ActivityState(t.to_state)`
  unfoldable pub set_state : String → Option ActivityState → Action Unit
  set_state text none = from (raise (value_error text))
  set_state text (some a) = modify_machines (λ m. record m { activity_state = a })

  -- `_transition`
  unfoldable pub transition : Transition → Bool → Action Unit
  transition t push_state = do
    emit (state_changed t)
    when (t.machine == "activity") (set_state t.to_state (parse_activity_state t.to_state))
    when push_state send_state

  -- `self.dialog.fire(trigger, self.clock(), reason)`
  unfoldable pub fire_dialog_at : ℕ → String → Option String → Action Transition
  fire_dialog_at now trigger reason s =
      let (m, r) = Dialog.fire s.machines.dialog trigger now reason in
      (r, record s { machines = record s.machines { dialog = m } })

  unfoldable pub fire_dialog : String → Option String → Action Transition
  fire_dialog trigger reason = do now ← read_clock; fire_dialog_at now trigger reason

  unfoldable pub dialog_fire : String → Option String → Action Bool
  dialog_fire trigger reason = do
    m ← gets (λ s. s.machines.dialog)
    if not (Dialog.can m trigger)
        then emit (failure_classified (illegal_dialog_transition trigger m.state)) >> pure false
        else do t ← fire_dialog trigger reason; transition t true; pure true

  unfoldable pub fire_activity_at : ℕ → String → String → Action (Option Transition)
  fire_activity_at now trigger reason s =
      let (m, r) = Activity.fire_if_possible s.machines.activity trigger now (some reason) in
      (r, record s { machines = record s.machines { activity = m } })

  -- What follows a transition of the activity machine, if there was one.
  unfoldable pub authorized : String → Bool → Option Transition → Action Bool
  unfolding authorize
  authorized authority push_state none = pure false
  authorized authority push_state (some t) = do
    modify_machines (λ m. record m {
      activity = record m.activity { transitions = authorize authority m.activity.transitions };
    })
    transition (record t { authority = authority }) push_state
    pure true

  unfoldable pub step_activity : String → String → String → Bool → Action Bool
  step_activity trigger reason authority push_state = do
    now ← read_clock
    t ← fire_activity_at now trigger reason
    authorized authority push_state t

  unfoldable pub activity_fire : String → String → String → Action Bool
  activity_fire trigger reason authority = step_activity trigger reason authority true

  -- A call of the provider, `if self._provider`.
  unfoldable pub order : Order → Action Unit
  order o = do
    opened ← gets (λ s. s.course.provider_open)
    when opened (modify_log (λ l. record l { orders = l.orders ++ o ∷ [] }))

  abbrev call_of : Option Waiting → Option String
  call_of none = none
  call_of (some w) = some w.invocation.call_id

  snapshot_of : Session → List (String × Provenance × Option Provenance) → RuntimeSnapshot
  snapshot_of s lacking = record {
    activity_state = s.machines.activity.state;
    missing_required = missing_required s.knowledge.fields;
    unsatisfied = map (λ l. (l.0, l.1)) lacking;
    focus_ambiguous = is_ambiguous s.knowledge.focus none 2;
    pending_confirmation = call_of s.course.waiting;
  }

  -- `_snapshot`
  unfoldable pub snapshot : Action RuntimeSnapshot
  unfolding snapshot_of
  snapshot = do
    r ← gets (λ s. unsatisfied_required s.knowledge.fields)
    lacking ← from r
    gets (λ s. snapshot_of s lacking)

  abbrev same_text : Option String → String → Bool
  same_text none t = false
  same_text (some u) t = u == t

  unfoldable pub refresh_instructions : Action Bool
  refresh_instructions = do
    snap ← snapshot
    fp ← gets (λ s. s.course.instructions_fp)
    text ← pure (compose d.static_text snap)
    if same_text fp (d.sha text) then pure false else do
      modify_course (λ c. record c { instructions_fp = some (d.sha text) })
      order (update_instructions text)
      pure true

  -- `_latency`: `max(0, value_ms)` of a difference.
  unfoldable pub latency : String → ℕ → ℕ → Action Unit
  latency segment end start =
      modify_voice (λ v. record v { latency = v.latency ++ (segment, end - start) ∷ [] })
