-- ===== src/Core/Dialog.antt =====
-- qevion/core/dialog_machine.py: the dialog machine. A method returns the machine as the call leaves
-- it, also where it raises.
pub mod Laws
use markting_call_center.Base.{
  ℕ, String, string_eq, Bool, Option, none, some, List, [], ◌∷◌, ◌++◌, Dict, get, has_key, Result,
  ok, raise, illegal_transition,
}
use markting_call_center.Contracts.Control.{DialogState, dialog_value}
use markting_call_center.Core.Transitions.{Transition}

-- `_DIALOG`
unfoldable pub dialog_table : DialogState → Dict String DialogState
dialog_table DialogState.idle =
    ("session_started", DialogState.listening)
    ∷ ("assistant_opens", DialogState.speaking)
    ∷ ("close", DialogState.closed)
    ∷ []
dialog_table DialogState.listening =
    ("end_of_turn", DialogState.thinking)
    ∷ ("text_received", DialogState.thinking)
    ∷ ("timeout", DialogState.thinking)
    ∷ ("response_started", DialogState.speaking)
    ∷ ("tool_requested", DialogState.waiting_tool)
    ∷ ("close", DialogState.closed)
    ∷ []
dialog_table DialogState.thinking =
    ("response_started", DialogState.speaking)
    ∷ ("tool_requested", DialogState.waiting_tool)
    ∷ ("confirmation_needed", DialogState.waiting_confirmation)
    ∷ ("nothing_to_say", DialogState.listening)
    ∷ ("close", DialogState.closed)
    ∷ []
dialog_table DialogState.speaking =
    ("barge_in", DialogState.interrupted)
    ∷ ("response_done", DialogState.listening)
    ∷ ("tool_requested", DialogState.waiting_tool)
    ∷ ("close", DialogState.closed)
    ∷ []
dialog_table DialogState.interrupted =
    ("reconciled", DialogState.listening) ∷ ("close", DialogState.closed) ∷ []
dialog_table DialogState.waiting_tool =
    ("tool_returned", DialogState.thinking)
    ∷ ("tool_failed", DialogState.thinking)
    ∷ ("confirmation_needed", DialogState.waiting_confirmation)
    ∷ ("barge_in", DialogState.interrupted)
    ∷ ("close", DialogState.closed)
    ∷ []
dialog_table DialogState.waiting_confirmation =
    ("confirmed", DialogState.thinking)
    ∷ ("denied", DialogState.thinking)
    ∷ ("end_of_turn", DialogState.thinking)
    ∷ ("barge_in", DialogState.interrupted)
    ∷ ("close", DialogState.closed)
    ∷ []
dialog_table DialogState.closed = []

pub record DialogMachine : Type 0 where
  pub state : DialogState
  pub transitions : List Transition

unfoldable pub new : DialogMachine
new = record { state = DialogState.idle; transitions = [] }

unfoldable pub can : DialogMachine → String → Bool
unfolding dialog_table
can m trigger = has_key (dialog_table m.state) trigger

-- The rest of `fire`, once the table has been read.
move :
    DialogMachine
    → String
    → ℕ
    → Option String
    → Option DialogState
    → DialogMachine × Result Transition
move m trigger ts_ms reason none =
    (m, raise (illegal_transition "dialog" (dialog_value m.state) trigger))
move m trigger ts_ms reason (some nxt) =
    let t : Transition = record {
      machine = "dialog";
      from_state = dialog_value m.state;
      to_state = dialog_value nxt;
      trigger = trigger;
      ts_ms = ts_ms;
      reason = reason;
      authority = "core";
    } in
    (record { state = nxt; transitions = m.transitions ++ t ∷ [] }, ok t)

unfoldable pub fire : DialogMachine → String → ℕ → Option String → DialogMachine × Result Transition
unfolding dialog_table move
fire m trigger ts_ms reason = move m trigger ts_ms reason (get (dialog_table m.state) trigger)
