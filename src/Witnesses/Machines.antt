-- ===== src/Witnesses/Machines.antt =====
-- The dialog and activity machines at concrete inputs.
use markting_call_center.Base.{
  String, List, [], ◌∷◌, none, ◌≡◌, refl, Memᴰ, map, false, true, All, ok, raise,
  illegal_transition,
}
use markting_call_center.Contracts.Control.{
  DialogState, dialog_value, ActivityState, activity_value, is_terminal, parse_activity_state,
}
use markting_call_center.Core.Transitions.{Firing, Transition}
use markting_call_center.Core.Dialog
use markting_call_center.Core.Activity
use markting_call_center.Core.Dialog.Laws.{
  fire_each, IsLogged, fire_each-IsLogged, interrupted-reconciled, close_final,
}
use markting_call_center.Core.Activity.Laws.{run, run-IsLogged, fire-valid, run-terminal}
use markting_call_center.Core.Activity.Laws
use markting_call_center.Core.Activity.Default.{IsGuarded, executing_confirmed, default_valid}

abbrev firing : String → Firing
firing trigger = record { trigger = trigger; ts_ms = 5; reason = none }

abbrev greeting : List Firing
greeting = firing "session_started" ∷ firing "barge_in" ∷ firing "response_started" ∷ []

fire_each-IsLogged_example : IsLogged (fire_each Dialog.new greeting)
unfolding Dialog.new dialog_value
fire_each-IsLogged_example = fire_each-IsLogged Dialog.new greeting refl

abbrev cut_off : Dialog.DialogMachine
cut_off = record { state = DialogState.interrupted; transitions = [] }

abbrev recovery : List Firing
recovery = firing "response_started" ∷ firing "reconciled" ∷ firing "response_started" ∷ []

interrupted-reconciled_example : Memᴰ "reconciled" (map (λ (f : Firing). f.trigger) recovery)
unfolding fire_each Dialog.fire
interrupted-reconciled_example = interrupted-reconciled cut_off recovery refl refl

close_final_example :
    let m' = (Dialog.fire cut_off "close" 5 none).0 in
    (m'.state ≡ DialogState.closed) × (fire_each m' greeting ≡ m')
close_final_example = close_final cut_off 5 none greeting

abbrev call : List Firing
call =
    firing "opened"
    ∷ firing "executed"
    ∷ firing "fields_complete"
    ∷ firing "confirmed"
    ∷ firing "executed"
    ∷ firing "closed"
    ∷ []

run_executes : (run (Activity.start Activity.generic_default_v1) call).state ≡ ActivityState.ended
unfolding run Activity.start Activity.fire Activity.generic_default_v1 activity_value
    parse_activity_state
run_executes = refl

run-IsLogged_example :
    Laws.IsLogged Activity.generic_default_v1
      (run (Activity.start Activity.generic_default_v1) call)
unfolding Activity.start activity_value
run-IsLogged_example =
    run-IsLogged Activity.generic_default_v1 (Activity.start Activity.generic_default_v1) call
      (refl, refl)

fire-valid_example :
    let m = Activity.start Activity.generic_default_v1 in
    (Activity.can m "closed" ≡ true
      → (t : Transition) × ((Activity.fire m "closed" 5 none).1 ≡ ok t))
    × (Activity.can m "closed" ≡ false
        → Activity.fire m "closed" 5 none
          ≡ (m, raise (illegal_transition "activity" (activity_value m.state) "closed")))
unfolding Activity.start
fire-valid_example =
    fire-valid (Activity.start Activity.generic_default_v1) "closed" 5 none default_valid

abbrev over : Activity.ActivityMachine
over = record {
  table = Activity.generic_default_v1;
  state = ActivityState.escalated;
  transitions = [];
}

run-terminal_example : run over call ≡ over
unfolding Activity.terminal is_terminal
run-terminal_example = run-terminal over call default_valid refl

executing_confirmed_example :
    All IsGuarded (run (Activity.start Activity.generic_default_v1) call).transitions
executing_confirmed_example = executing_confirmed call

abbrev engaged : Activity.ActivityMachine
engaged = record {
  table = Activity.generic_default_v1;
  state = ActivityState.engaged;
  transitions = [];
}
