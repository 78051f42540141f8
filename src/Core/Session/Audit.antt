-- ===== src/Core/Session/Audit.antt =====
-- The audit trail of a session: its event log holds exactly the transitions of the two machines, each
-- machine's log runs along its table, and the facts know the activity machine's state.
pub mod Activity
pub mod Dialog
pub mod Runs
use markting_call_center.Base.{
  ℕ, String, string_eq, Bool, true, false, ◌==◌, if◌then◌else◌, Option, none, some, List, [], ◌∷◌,
  ◌++◌, ◌+◌, Result, ok, raise, ◌≡◌, refl, ap, sym, subst, append-nil, Bool-cases, inl, inr, ◌∙◌,
  append-nil,
}
use markting_call_center.Contracts.Control.{
  ActivityState, DialogState, parse_activity_state, activity_value, dialog_value,
}
use markting_call_center.Core.Transitions.{Transition}
use markting_call_center.Core.Activity.{Table, ActivityMachine, from_blueprint_ref}
use markting_call_center.Core.Activity.Laws as ActivityLaws
use markting_call_center.Core.Activity.Laws.{
  HasFired, from_blueprint_ref-IsFresh, FireCase, idle, raised, fired,
}
use markting_call_center.Core.Dialog.{DialogMachine, new}
use markting_call_center.Core.Dialog.Laws as DialogLaws
use markting_call_center.Core.Dialog.Laws.{HasMoved, DialogCase, refused, went}
use markting_call_center.Core.Session.Data.{
  Session, SessionDeps, Machines, ServerMessage, Order, Input, Event, EventBody, state_changed,
}
use markting_call_center.Core.Session.Actions.{
  Action, Keeps, Keeps-when, keeps_rules, modify_log, modify_voice, modify_course, modify_knowledge,
  gets, pure, when, proceed, modify_machines, ◌>>=◌,
}
use markting_call_center.Core.Session.Events.{
  logged, emit, read_clock, deliver, send, transition, set_state, send_state, authorize, authorized,
  step_activity, fire_activity_at, fire_dialog, fire_dialog_at, dialog_fire, draw_id, order, send,
  read_clock, deliver,
}
use markting_call_center.Core.Session.Lifecycle.{close_dialog, close_task}
use markting_call_center.Core.Session.Steps.{new_session, init, run}
use markting_call_center.Core.Session.Frames.{is_change}
use markting_call_center.Core.Session.Frames.Work.{IsFull}
use markting_call_center.Core.Session.Frames.Inputs.{run-At}

-- The transitions of a machine in a log.
abbrev change_of : String → EventBody → List Transition → List Transition
change_of name (state_changed t) rest = if t.machine == name then t ∷ rest else rest
change_of name _ rest = rest

abbrev pub changes : String → List Event → List Transition
changes name [] = []
changes name (e ∷ es) = let rest = changes name es in change_of name e.body rest

pub record IsTrail (table : Table) (m : Machines) (es : List Event) : Type 0 where
  pub activity_log : ActivityLaws.IsLogged table m.activity
  pub dialog_log : DialogLaws.IsLogged m.dialog
  pub state_known : m.activity_state ≡ m.activity.state
  pub activity_events : changes "activity" es ≡ m.activity.transitions
  pub dialog_events : changes "dialog" es ≡ m.dialog.transitions

abbrev pub IsAudited : Table → Session → Type 0
IsAudited table s = IsTrail table s.machines s.log.events

change_of-append :
    (name : String) (body : EventBody) (xs ys : List Transition)
    → change_of name body xs ++ ys ≡ change_of name body (xs ++ ys)
change_of-append name (state_changed t) xs ys = elim (Bool-cases (t.machine == name)) [
  | inl y ↦ rw y refl
  | inr n ↦ rw n refl
]
change_of-append name _ xs ys = refl

changes-append :
    (name : String) (es : List Event) (e : Event)
    → changes name (es ++ e ∷ []) ≡ changes name es ++ change_of name e.body []
changes-append name [] e = refl
changes-append name (e' ∷ es) e =
    rw (changes-append name es e) (sym (change_of-append name e'.body _ _))

change_of_other :
    (name : String) (body : EventBody) (xs : List Transition)
    → is_change body ≡ false
    → change_of name body xs ≡ xs
change_of_other name (state_changed t) xs h = cc
change_of_other name _ xs h = refl

authorize-append :
    (authority : String) (ts : List Transition) (t : Transition)
    → authorize authority (ts ++ t ∷ []) ≡ ts ++ record t { authority = authority } ∷ []
unfolding authorize
authorize-append authority [] t = refl
authorize-append authority (u ∷ []) t = refl
authorize-append authority (u ∷ (v ∷ us)) t =
    ap (λ r. u ∷ r) (authorize-append authority (v ∷ us) t)

module _ (d : SessionDeps) (table : Table) where
  -- An event that is no transition leaves the trail as it is.
  pub emit-IsAudited :
      (body : EventBody) → is_change body ≡ false → Keeps (IsAudited table) (emit d body)
  unfolding emit logged
  emit-IsAudited body n = record {
    at = λ s h. record {
      activity_log = h.activity_log;
      dialog_log = h.dialog_log;
      state_known = h.state_known;
      activity_events =
          rw (changes-append "activity" s.log.events _)
            (rw (change_of_other "activity" body [] n) (rw append-nil h.activity_events));
      dialog_events =
          rw (changes-append "dialog" s.log.events _)
            (rw (change_of_other "dialog" body [] n) (rw append-nil h.dialog_events));
    };
  }

  pub clock-IsAudited : Keeps (IsAudited table) (read_clock d)
  unfolding read_clock
  clock-IsAudited = record { at = λ s h. h }

  pub deliver-IsAudited : (m : ServerMessage) → Keeps (IsAudited table) (deliver d m)
  unfolding deliver
  deliver-IsAudited m = record { at = λ s h. h }

  pub send-IsAudited : (m : ServerMessage) → Keeps (IsAudited table) (send d m)
  unfolding send
  send-IsAudited m =
      search (keeps_rules, emit-IsAudited, clock-IsAudited, deliver-IsAudited) depth 20

  pub send_state-IsAudited : Keeps (IsAudited table) (send_state d)
  unfolding send_state
  send_state-IsAudited = search (keeps_rules, send-IsAudited) depth 20

  -- What a transition leaves, once it is sent.
  pub push-IsAudited :
      (push : Bool) (b : Bool) → Keeps (IsAudited table) (when push (send_state d) >>= λ _. pure b)
  push-IsAudited push b = search (keeps_rules, send_state-IsAudited) depth 20
