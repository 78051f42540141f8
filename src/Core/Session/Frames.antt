-- ===== src/Core/Session/Frames.antt =====
-- What the actions of a session keep: a property that the primitive writes keep is kept by every
-- method made of them.
pub mod Logs
pub mod Inputs
pub mod Talk
pub mod Work
use markting_call_center.Base.{ℕ, String, Bool, Option, none, some, true, Result, ◌≡◌, false}
use markting_call_center.Contracts.Values.{Value}
use markting_call_center.Core.Record.{InteractionRecord}
use markting_call_center.Core.Outcome.{CompletionVerdict}
use markting_call_center.Core.Instructions.{RuntimeSnapshot}
use markting_call_center.Core.Session.Data.{
  Session, SessionDeps, Voice, Course, EventBody, ServerMessage, Order, state_changed,
}
use markting_call_center.Core.Session.Actions.{
  Action, Keeps, keeps_rules, modify_voice, modify_course, Keeps-bind,
}
use markting_call_center.Core.Session.Events.{
  read_clock, draw_id, deliver, emit, send, dialog_fire, step_activity, activity_fire, order,
  snapshot, refresh_instructions, latency,
}
use markting_call_center.Core.Session.Lifecycle.{
  close_dialog, mark_closed, close_session_of_provider, build_record, finalize_activity, close_down,
  close_now, close_task, closing, close, by_verdict, evaluate_completion, start,
}

-- The events of transitions.
abbrev pub is_change : EventBody → Bool
is_change (state_changed t) = true
is_change _ = false

-- The writes of everything but the knowledge.
pub record IsFrame (d : SessionDeps) (P : Session → Type 0) : Type 0 where
  pub clock : Keeps P (read_clock d)
  pub draw : (kind : String) → Keeps P (draw_id d kind)
  pub delivery : (m : ServerMessage) → Keeps P (deliver d m)
  pub event : (body : EventBody) → is_change body ≡ false → Keeps P (emit d body)
  pub ask : (o : Order) → Keeps P (order d o)
  pub voice : (f : Voice → Voice) → Keeps P (modify_voice f)
  pub course :
      (f : Course → Course) → ((c : Course) → (f c).closed ≡ c.closed) → Keeps P (modify_course f)
  pub marks : Keeps P mark_closed
  pub dialog : (trigger : String) (reason : Option String) → Keeps P (dialog_fire d trigger reason)
  pub closes : (reason : String) → Keeps P (close_dialog d reason)
  pub activity :
      (trigger reason authority : String) (push : Bool)
      → Keeps P (step_activity d trigger reason authority push)
  -- `close`, of the task that it runs.
  pub task : (reason : String) → Keeps P (close_now d reason) → Keeps P (close_task d reason)

module _ {d : SessionDeps} {P : Session → Type 0} (f : IsFrame d P) where
  pub clock-Keeps : Keeps P (read_clock d)
  clock-Keeps = f.clock

  pub draw-Keeps : (kind : String) → Keeps P (draw_id d kind)
  draw-Keeps = f.draw

  pub emit-Keeps : (body : EventBody) → is_change body ≡ false → Keeps P (emit d body)
  emit-Keeps = f.event

  pub order-Keeps : (o : Order) → Keeps P (order d o)
  order-Keeps = f.ask

  pub voice-Keeps : (g : Voice → Voice) → Keeps P (modify_voice g)
  voice-Keeps = f.voice

  pub course-Keeps :
      (g : Course → Course) → ((c : Course) → (g c).closed ≡ c.closed) → Keeps P (modify_course g)
  course-Keeps = f.course

  pub marks-Keeps : Keeps P mark_closed
  marks-Keeps = f.marks

  pub dialog-Keeps :
      (trigger : String) (reason : Option String) → Keeps P (dialog_fire d trigger reason)
  dialog-Keeps = f.dialog

  pub step-Keeps :
      (trigger reason authority : String) (push : Bool)
      → Keeps P (step_activity d trigger reason authority push)
  step-Keeps = f.activity

  pub activity-Keeps :
      (trigger reason authority : String) → Keeps P (activity_fire d trigger reason authority)
  unfolding activity_fire
  activity-Keeps trigger reason authority = f.activity trigger reason authority true

  pub send-Keeps : (m : ServerMessage) → Keeps P (send d m)
  unfolding send
  send-Keeps m = search (keeps_rules, clock-Keeps, f.delivery, emit-Keeps) depth 20

  pub snapshot-Keeps : Keeps P (snapshot d)
  unfolding snapshot
  snapshot-Keeps = search keeps_rules

  pub latency-Keeps : (segment : String) (end start : ℕ) → Keeps P (latency d segment end start)
  unfolding latency
  latency-Keeps segment _ _ = f.voice _

pub ruleset frame_rules = (
  keeps_rules, clock-Keeps, draw-Keeps, emit-Keeps, order-Keeps, voice-Keeps, course-Keeps,
  dialog-Keeps, step-Keeps, activity-Keeps, send-Keeps, snapshot-Keeps, latency-Keeps,
)

module _ {d : SessionDeps} {P : Session → Type 0} (f : IsFrame d P) where
  pub refresh-Keeps : Keeps P (refresh_instructions d)
  unfolding refresh_instructions
  refresh-Keeps = search frame_rules depth 20

  pub start-Keeps : Keeps P (start d)
  unfolding start
  start-Keeps = search frame_rules depth 30

  finalize-Keeps : (reason : String) → Keeps P (finalize_activity d reason)
  unfolding finalize_activity
  finalize-Keeps reason = search frame_rules depth 20

  build-Keeps : Keeps P (build_record d)
  unfolding build_record
  build-Keeps = search frame_rules depth 20

  provider-Keeps : Keeps P (close_session_of_provider d)
  unfolding close_session_of_provider
  provider-Keeps = search frame_rules depth 20

  pub close_down-Keeps : (reason : String) → Keeps P (close_down d reason)
  unfolding close_down
  close_down-Keeps reason =
      search (frame_rules, f.closes, finalize-Keeps, build-Keeps, provider-Keeps) depth 40

  close_now-Keeps : (reason : String) → Keeps P (close_now d reason)
  unfolding close_now
  close_now-Keeps reason = search (frame_rules, close_down-Keeps) depth 20

  closing-Keeps :
      (reason : String) (r : Option (InteractionRecord Value))
      (task : Option (Result (InteractionRecord Value)))
      → Keeps P (closing d reason r task)
  unfolding closing
  closing-Keeps reason (some r) task = search keeps_rules
  closing-Keeps reason none (some r) = search keeps_rules
  closing-Keeps reason none none = f.task reason (close_now-Keeps reason)

  pub close-Keeps : (reason : String) → Keeps P (close d reason)
  unfolding close
  close-Keeps reason = search (keeps_rules, closing-Keeps) depth 20

  by_verdict-Keeps : (v : CompletionVerdict) (rule : Option String) → Keeps P (by_verdict d v rule)
  unfolding by_verdict
  by_verdict-Keeps v (some rule) = search frame_rules depth 20
  by_verdict-Keeps v none = search frame_rules depth 20

  pub evaluate_completion-Keeps : Keeps P (evaluate_completion d)
  unfolding evaluate_completion
  evaluate_completion-Keeps = search (frame_rules, by_verdict-Keeps, refresh-Keeps) depth 20
