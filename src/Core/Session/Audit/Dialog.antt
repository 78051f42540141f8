-- ===== src/Core/Session/Audit/Dialog.antt =====
-- The audit trail over the transitions of the dialog machine.
use markting_call_center.Base.{
  String, string_eq, Bool, true, false, Option, ◌+◌, Result, ◌≡◌, refl, sym, subst, append-nil,
  append-nil,
}
use markting_call_center.Contracts.Control.{DialogState}
use markting_call_center.Core.Transitions.{Transition}
use markting_call_center.Core.Activity.{Table}
use markting_call_center.Core.Dialog.{DialogMachine}
use markting_call_center.Core.Dialog.Laws as DialogLaws
use markting_call_center.Core.Dialog.Laws.{HasMoved, DialogCase, refused, went}
use markting_call_center.Core.Session.Data.{Session, SessionDeps, state_changed}
use markting_call_center.Core.Session.Actions.{
  Action, Keeps, Keeps-when, keeps_rules, pure, when, proceed, ◌>>=◌, bind-pure,
}
use markting_call_center.Core.Session.Events.{
  logged, emit, read_clock, transition, send_state, fire_dialog, fire_dialog_at, dialog_fire,
  read_clock,
}
use markting_call_center.Core.Session.Lifecycle.{close_dialog}
use markting_call_center.Core.Session.Audit.{
  IsAudited, changes-append, send_state-IsAudited, emit-IsAudited,
}

module _ (d : SessionDeps) (table : Table) where
  -- The session once a transition of the dialog machine is logged.
  abbrev settled : Session → DialogMachine → Transition → DialogState → Session
  settled s m t a = record s {
    machines = record s.machines { dialog = DialogLaws.moved m t a };
    log = logged d s.course.turn_id (state_changed t) s.log;
  }

  settled-IsAudited :
      (s : Session) (trigger : String) (t : Transition) (a : DialogState)
      → HasMoved s.machines.dialog trigger t a
      → IsAudited table s
      → IsAudited table (settled s s.machines.dialog t a)
  unfolding logged
  settled-IsAudited s trigger t a f h = record {
    activity_log = h.activity_log;
    dialog_log = DialogLaws.moved-IsLogged s.machines.dialog trigger t a f h.dialog_log;
    state_known = h.state_known;
    activity_events =
        rw (changes-append "activity" s.log.events _)
          (rw f.of_machine (rw append-nil h.activity_events));
    dialog_events =
        rw (changes-append "dialog" s.log.events _) (rw f.of_machine (rw h.dialog_events refl));
  }

  transition-settled :
      (push : Bool) (s : Session) (m : DialogMachine) (t : Transition) (a : DialogState)
      → t.machine ≡ "dialog"
      → transition d t push
          (record s { machines = record s.machines { dialog = DialogLaws.moved m t a } })
        ≡ when push (send_state d) (settled s m t a)
  unfolding transition ◌>>=◌ proceed when emit logged pure
  transition-settled push s m t a e = rw e refl

  -- What follows `fire`, on what it came to; `k` goes on as `_transition` does.
  after_move-IsAudited :
      {A : Type 0} (trigger : String) (push : Bool) (s : Session)
      (c : DialogMachine × Result Transition) (k : Transition → Action A)
      → ((t : Transition) (s' : Session) → (k t s').1 ≡ (transition d t push s').1)
      → DialogCase s.machines.dialog trigger c
      → IsAudited table s
      → IsAudited table
          (proceed c.1 k (record s { machines = record s.machines { dialog = c.0 } })).1
  unfolding proceed
  after_move-IsAudited trigger push s _ k e (refused x) h = h
  after_move-IsAudited trigger push s _ k e (went t a f) h = subst (IsAudited table) (sym (e t _)) (
      subst (λ r. IsAudited table r.1)
        (sym (transition-settled push s s.machines.dialog t a f.of_machine))
        ((Keeps-when push (send_state d) (λ _. send_state-IsAudited d table)).at _
          (settled-IsAudited s trigger t a f h)))

  move-IsAudited :
      {A : Type 0} (trigger : String) (reason : Option String) (push : Bool)
      (k : Transition → Action A)
      → ((t : Transition) (s' : Session) → (k t s').1 ≡ (transition d t push s').1)
      → Keeps (IsAudited table) (fire_dialog d trigger reason >>= k)
  unfolding fire_dialog fire_dialog_at read_clock ◌>>=◌ proceed
  move-IsAudited trigger reason push k e = record {
    at = λ s h.
        after_move-IsAudited trigger push
          (record s { log = record s.log { readings = s.log.readings + 1 } }) _ k e
          (DialogLaws.fire-DialogCase s.machines.dialog trigger (d.clock s.log.readings) reason) h;
  }

  pushed-IsAudited :
      (trigger : String) (reason : Option String)
      → Keeps
          (IsAudited table)
          (fire_dialog d trigger reason >>= λ t. transition d t true >>= λ _. pure true)
  pushed-IsAudited trigger reason =
      move-IsAudited trigger reason true _ (λ t s. bind-pure (transition d t true) true s)

  pub dialog-IsAudited :
      (trigger : String) (reason : Option String)
      → Keeps (IsAudited table) (dialog_fire d trigger reason)
  unfolding dialog_fire
  dialog-IsAudited trigger reason = search (keeps_rules, emit-IsAudited, pushed-IsAudited) depth 20

  closed-IsAudited :
      (reason : Option String)
      → Keeps (IsAudited table) (fire_dialog d "close" reason >>= λ t. transition d t false)
  closed-IsAudited reason = move-IsAudited "close" reason false _ (λ t s. refl)

  pub close_dialog-IsAudited : (reason : String) → Keeps (IsAudited table) (close_dialog d reason)
  unfolding close_dialog
  close_dialog-IsAudited reason = search (keeps_rules, closed-IsAudited) depth 20
