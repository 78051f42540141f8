-- ===== src/Core/Session/Frames/Logs.antt =====
-- Frames of the properties that do not read the machines.
use markting_call_center.Base.{◌≡◌, ℕ, String, Bool, Option, none, some}
use markting_call_center.Core.Transitions.{Transition}
use markting_call_center.Contracts.Control.{ActivityState}
use markting_call_center.Core.Session.Data.{
  Session, SessionDeps, Machines, Voice, Course, EventBody, ServerMessage, Order,
}
use markting_call_center.Core.Session.Actions.{
  Keeps, keeps_rules, modify_machines, modify_voice, modify_course,
}
use markting_call_center.Core.Session.Events.{
  read_clock, draw_id, deliver, emit, send, send_state, order, set_state, transition,
  fire_dialog_at, fire_dialog, dialog_fire, fire_activity_at, authorized, step_activity,
}
use markting_call_center.Core.Session.Lifecycle.{mark_closed, close_dialog, close_now, close_task}
use markting_call_center.Core.Session.Frames.{IsFrame}

-- The writes of a transition.
pub record IsMachineFrame (d : SessionDeps) (P : Session → Type 0) : Type 0 where
  pub clock : Keeps P (read_clock d)
  pub delivery : (m : ServerMessage) → Keeps P (deliver d m)
  pub event : (body : EventBody) → Keeps P (emit d body)
  pub machines : (s : Session) (m : Machines) → P s → P (record s { machines = m })

pub record IsLogFrame (d : SessionDeps) (P : Session → Type 0) : Type 0 where
  pub clock : Keeps P (read_clock d)
  pub draw : (kind : String) → Keeps P (draw_id d kind)
  pub delivery : (m : ServerMessage) → Keeps P (deliver d m)
  pub event : (body : EventBody) → Keeps P (emit d body)
  pub ask : (o : Order) → Keeps P (order d o)
  pub machines : (s : Session) (m : Machines) → P s → P (record s { machines = m })
  pub voice : (f : Voice → Voice) → Keeps P (modify_voice f)
  pub course :
      (f : Course → Course) → ((c : Course) → (f c).closed ≡ c.closed) → Keeps P (modify_course f)
  pub marks : Keeps P mark_closed
  pub task : (reason : String) → Keeps P (close_now d reason) → Keeps P (close_task d reason)

module _ {d : SessionDeps} {P : Session → Type 0} (f : IsMachineFrame d P) where
  clock-Keeps : Keeps P (read_clock d)
  clock-Keeps = f.clock

  pub send-Keeps : (m : ServerMessage) → Keeps P (send d m)
  unfolding send
  send-Keeps m = search (keeps_rules, clock-Keeps, f.delivery, f.event) depth 20

  send_state-Keeps : Keeps P (send_state d)
  unfolding send_state
  send_state-Keeps = search (keeps_rules, send-Keeps) depth 20

  machines-Keeps : (g : Machines → Machines) → Keeps P (modify_machines g)
  unfolding modify_machines
  machines-Keeps g = record { at = λ s h. f.machines s (g s.machines) h }

  set_state-Keeps : (text : String) (a : Option ActivityState) → Keeps P (set_state d text a)
  unfolding set_state
  set_state-Keeps text none = search keeps_rules
  set_state-Keeps text (some a) = machines-Keeps _

  transition-Keeps : (t : Transition) (push : Bool) → Keeps P (transition d t push)
  unfolding transition
  transition-Keeps t push =
      search (keeps_rules, f.event, set_state-Keeps, send_state-Keeps) depth 20

  fire_at-Keeps :
      (now : ℕ) (trigger : String) (reason : Option String)
      → Keeps P (fire_dialog_at d now trigger reason)
  unfolding fire_dialog_at
  fire_at-Keeps now trigger reason = record { at = λ s h. f.machines s _ h }

  fire-Keeps : (trigger : String) (reason : Option String) → Keeps P (fire_dialog d trigger reason)
  unfolding fire_dialog
  fire-Keeps trigger reason = search (keeps_rules, clock-Keeps, fire_at-Keeps) depth 20

  pub dialog-Keeps :
      (trigger : String) (reason : Option String) → Keeps P (dialog_fire d trigger reason)
  unfolding dialog_fire
  dialog-Keeps trigger reason = search (keeps_rules, f.event, fire-Keeps, transition-Keeps) depth 20

  close_dialog-Keeps : (reason : String) → Keeps P (close_dialog d reason)
  unfolding close_dialog
  close_dialog-Keeps reason = search (keeps_rules, fire-Keeps, transition-Keeps) depth 20

  fire_activity-Keeps :
      (now : ℕ) (trigger reason : String) → Keeps P (fire_activity_at d now trigger reason)
  unfolding fire_activity_at
  fire_activity-Keeps now trigger reason = record { at = λ s h. f.machines s _ h }

  authorized-Keeps :
      (authority : String) (push : Bool) (t : Option Transition)
      → Keeps P (authorized d authority push t)
  unfolding authorized
  authorized-Keeps authority push none = search keeps_rules
  authorized-Keeps authority push (some t) =
      search (keeps_rules, machines-Keeps, transition-Keeps) depth 20

  step-Keeps :
      (trigger reason authority : String) (push : Bool)
      → Keeps P (step_activity d trigger reason authority push)
  unfolding step_activity
  step-Keeps trigger reason authority push =
      search (keeps_rules, clock-Keeps, fire_activity-Keeps, authorized-Keeps) depth 20

module _ {d : SessionDeps} {P : Session → Type 0} (f : IsLogFrame d P) where
  machine-IsFrame : IsMachineFrame d P
  machine-IsFrame = record {
    clock = f.clock;
    delivery = f.delivery;
    event = f.event;
    machines = f.machines;
  }

  pub log-IsFrame : IsFrame d P
  log-IsFrame = record {
    clock = f.clock;
    draw = f.draw;
    delivery = f.delivery;
    event = λ body _. f.event body;
    ask = f.ask;
    voice = f.voice;
    course = f.course;
    marks = f.marks;
    dialog = dialog-Keeps machine-IsFrame;
    closes = close_dialog-Keeps machine-IsFrame;
    activity = step-Keeps machine-IsFrame;
    task = f.task;
  }
