-- ===== src/Core/Session/Audit/Activity.antt =====
-- The audit trail over the transitions of the activity machine.
use markting_call_center.Base.{
  String, string_eq, Bool, true, Option, some, ◌+◌, Result, ◌≡◌, refl, sym, subst, append-nil,
  append-nil,
}
use markting_call_center.Contracts.Control.{ActivityState, parse_activity_state}
use markting_call_center.Core.Transitions.{Transition}
use markting_call_center.Core.Activity.{Table, ActivityMachine}
use markting_call_center.Core.Activity.Laws as ActivityLaws
use markting_call_center.Core.Activity.Laws.{
  HasFired, from_blueprint_ref-IsFresh, FireCase, idle, raised, fired,
}
use markting_call_center.Core.Session.Data.{Session, SessionDeps, state_changed}
use markting_call_center.Core.Session.Actions.{Keeps, pure, when, proceed, modify_machines, ◌>>=◌}
use markting_call_center.Core.Session.Events.{
  logged, emit, read_clock, transition, set_state, send_state, authorized, step_activity,
  fire_activity_at, read_clock,
}
use markting_call_center.Core.Session.Audit.{
  IsAudited, authorize-append, push-IsAudited, changes-append,
}

module _ (d : SessionDeps) (table : Table) where
  -- The session once a transition of the activity machine is logged with its authority.
  abbrev landed : Session → ActivityMachine → Transition → ActivityState → Session
  landed s m t a = record s {
    machines = record s.machines { activity = ActivityLaws.moved m t a; activity_state = a };
    log = logged d s.course.turn_id (state_changed t) s.log;
  }

  landed-IsAudited :
      (s : Session) (trigger : String) (t : Transition) (a : ActivityState)
      → HasFired s.machines.activity trigger t a
      → IsAudited table s
      → IsAudited table (landed s s.machines.activity t a)
  unfolding logged
  landed-IsAudited s trigger t a f h = record {
    activity_log =
        ActivityLaws.moved-IsLogged table s.machines.activity trigger t a f h.activity_log;
    dialog_log = h.dialog_log;
    state_known = refl;
    activity_events =
        rw (changes-append "activity" s.log.events _) (rw f.of_machine (rw h.activity_events refl));
    dialog_events =
        rw (changes-append "dialog" s.log.events _)
          (rw f.of_machine (rw append-nil h.dialog_events));
  }

  authorized-landed :
      (authority : String) (push : Bool) (s : Session) (m : ActivityMachine) (t : Transition)
      (a : ActivityState)
      → t.machine ≡ "activity"
      → parse_activity_state t.to_state ≡ some a
      → authorized d authority push
          (some t)
          (record s { machines = record s.machines { activity = ActivityLaws.moved m t a } })
        ≡ (when push (send_state d) >>= λ _. pure true)
            (landed s m (record t { authority = authority }) a)
  unfolding authorized transition ◌>>=◌ proceed when set_state modify_machines emit logged
  authorized-landed authority push s m t a e p =
      rw (authorize-append authority m.transitions t) (rw e (rw p refl))

  fired-IsAudited :
      (trigger authority : String) (push : Bool) (s : Session) (t : Transition) (a : ActivityState)
      → HasFired s.machines.activity trigger t a
      → IsAudited table s
      → IsAudited table
          (authorized d authority push (some t) (record s {
            machines = record s.machines { activity = ActivityLaws.moved s.machines.activity t a };
          })).1
  fired-IsAudited trigger authority push s t a f h =
      let t' : Transition = record t { authority = authority } in
      let f' : HasFired s.machines.activity trigger t' a = record {
        of_machine = f.of_machine;
        by_trigger = f.by_trigger;
        leaves = f.leaves;
        arrives = f.arrives;
        in_table = f.in_table;
      } in
      subst (λ r. IsAudited table r.1)
        (sym (authorized-landed authority push s s.machines.activity t a f.of_machine f.arrives))
        ((push-IsAudited d table push true).at _ (landed-IsAudited s trigger t' a f' h))

  -- The rest of `step_activity`, on what `fire_if_possible` came to.
  after_fire-IsAudited :
      (trigger authority : String) (push : Bool) (s : Session)
      (c : ActivityMachine × Result (Option Transition))
      → FireCase s.machines.activity trigger c
      → IsAudited table s
      → IsAudited table
          (proceed c.1
            (authorized d authority push)
            (record s { machines = record s.machines { activity = c.0 } })).1
  unfolding proceed
  after_fire-IsAudited trigger authority push s _ idle h = unfold authorized pure in h
  after_fire-IsAudited trigger authority push s _ (raised x) h = h
  after_fire-IsAudited trigger authority push s _ (fired t a f) h =
      fired-IsAudited trigger authority push s t a f h

  pub step-IsAudited :
      (trigger reason authority : String) (push : Bool)
      → Keeps (IsAudited table) (step_activity d trigger reason authority push)
  unfolding step_activity fire_activity_at read_clock ◌>>=◌ proceed
  step-IsAudited trigger reason authority push = record {
    at = λ s h.
        after_fire-IsAudited trigger authority push
          (record s { log = record s.log { readings = s.log.readings + 1 } }) _
          (ActivityLaws.fire_if_possible-FireCase s.machines.activity trigger
            (d.clock s.log.readings) (some reason))
          h;
  }
