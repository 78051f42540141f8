-- ===== src/Core/Session/Audit/Runs.antt =====
-- The audit trail over a whole session.
use markting_call_center.Base.{String, string_eq, List, [], ◌∷◌, ◌++◌, ok, ◌≡◌, refl, sym, subst}
use markting_call_center.Contracts.Control.{ActivityState, activity_value, dialog_value}
use markting_call_center.Core.Activity.{Table, ActivityMachine, from_blueprint_ref}
use markting_call_center.Core.Activity.Laws.{from_blueprint_ref-IsFresh}
use markting_call_center.Core.Dialog.{new}
use markting_call_center.Core.Session.Data.{Session, SessionDeps, Order, Input}
use markting_call_center.Core.Session.Actions.{
  Keeps, keeps_rules, modify_log, modify_voice, modify_course, modify_knowledge,
}
use markting_call_center.Core.Session.Events.{draw_id, order}
use markting_call_center.Core.Session.Lifecycle.{mark_closed, close_task}
use markting_call_center.Core.Session.Steps.{init_new, new_session, init, run}
use markting_call_center.Core.Session.Frames.Work.{IsFull}
use markting_call_center.Core.Session.Frames.Inputs.{run-At}
use markting_call_center.Core.Session.Audit.Activity.{step-IsAudited}
use markting_call_center.Core.Session.Audit.Dialog.{dialog-IsAudited, close_dialog-IsAudited}
use markting_call_center.Core.Session.Audit.{
  IsAudited, clock-IsAudited, deliver-IsAudited, emit-IsAudited,
}

module _ (d : SessionDeps) (table : Table) where
  draw-IsAudited : (kind : String) → Keeps (IsAudited table) (draw_id d kind)
  unfolding draw_id
  draw-IsAudited kind = record { at = λ s h. h }

  ordered-IsAudited :
      (o : Order)
      → Keeps (IsAudited table) (modify_log (λ l. record l { orders = l.orders ++ o ∷ [] }))
  unfolding modify_log
  ordered-IsAudited o = record { at = λ s h. h }

  order-IsAudited : (o : Order) → Keeps (IsAudited table) (order d o)
  unfolding order
  order-IsAudited o = search (keeps_rules, ordered-IsAudited)

  full-IsAudited : IsFull d (IsAudited table)
  full-IsAudited = record {
    frame = record {
      clock = clock-IsAudited d table;
      draw = draw-IsAudited;
      delivery = deliver-IsAudited d table;
      event = emit-IsAudited d table;
      ask = order-IsAudited;
      voice = λ f. unfold modify_voice in record { at = λ s h. h };
      course = λ f _. unfold modify_course in record { at = λ s h. h };
      marks = unfold mark_closed modify_course in record { at = λ s h. h };
      dialog = dialog-IsAudited d table;
      closes = close_dialog-IsAudited d table;
      activity = step-IsAudited d table;
      task = λ reason k. unfold close_task in record { at = λ s h. k.at s h };
    };
    knowledge = λ f. unfold modify_knowledge in record { at = λ s h. h };
  }

  fresh-IsAudited :
      (machine : ActivityMachine) (inputs : List Input)
      → machine.table ≡ table
      → machine.state ≡ ActivityState.opening
      → machine.transitions ≡ []
      → IsAudited table (run d (new_session d machine) inputs)
  unfolding new_session activity_value new dialog_value
  fresh-IsAudited machine inputs e s n =
      run-At full-IsAudited (new_session d machine) inputs (record {
        activity_log = (e, rw n (rw s refl));
        dialog_log = refl;
        state_known = refl;
        activity_events = sym n;
        dialog_events = refl;
      })

module _ (d : SessionDeps) where
  -- For every session that starts and whatever reaches it, in any order: its event log holds exactly
  -- the transitions of the dialog machine and of the activity machine, in their order and with their
  -- authority; each machine's log runs from its first state to its current one along its table; and
  -- the facts hold the activity machine's state.
  pub run-IsAudited :
      (s : Session) (inputs : List Input)
      → init d ≡ ok s
      → IsAudited s.machines.activity.table (run d s inputs)
  unfolding init
  run-IsAudited s inputs h =
      let (m, made, new) = init_new d (from_blueprint_ref d.table_ref d.inline_table) s h in
      let (opening, empty) = from_blueprint_ref-IsFresh d.table_ref d.inline_table m made in
      subst (λ s'. IsAudited s'.machines.activity.table (run d s' inputs)) new
        (unfold new_session in fresh-IsAudited d m.table m inputs refl opening empty)
