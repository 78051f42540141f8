-- ===== src/Core/Activity.antt =====
-- qevion/core/activity_machine.py: the data-driven activity machine. A table maps the name of a
-- state to its row, and a row maps a trigger to the name of the next state.
pub mod Validation
pub mod Laws
pub mod Default
use markting_call_center.Base.{
  ℕ, String, string_eq, Bool, true, false, not, ◌&&◌, Option, none, some, or_else, List, [], ◌∷◌,
  ◌++◌, Dict, get, has_key, any, is_empty, is_some, ◌==◌, Result, ok, raise, illegal_transition,
  value_error, key_error, if◌then◌else◌, contains,
}
use markting_call_center.Contracts.Control.{
  ActivityState, activity_value, parse_activity_state, is_terminal, names_terminal,
}
use markting_call_center.Core.Transitions.{Transition}

abbrev pub Row : Type 0
Row = Dict String String

abbrev pub Table : Type 0
Table = Dict String Row

-- `ActivityTrigger`, by value.
abbrev pub triggers : List String
triggers =
    "opened" ∷ "user_engaged" ∷ "field_needed" ∷ "fields_complete" ∷ "question_asked"
    ∷ "question_resolved" ∷ "ambiguity" ∷ "clarified" ∷ "confirm_needed" ∷ "confirmed" ∷ "denied"
    ∷ "executed" ∷ "execution_failed" ∷ "success_rule_met" ∷ "failure_rule_met" ∷ "exit_rule_met"
    ∷ "handoff" ∷ "user_left" ∷ "blocked" ∷ "closed" ∷ []

abbrev common_exits : Row
common_exits =
    ("handoff", "ESCALATED")
    ∷ ("user_left", "ABANDONED")
    ∷ ("blocked", "BLOCKED")
    ∷ ("exit_rule_met", "CLOSING")
    ∷ []

-- `GENERIC_DEFAULT_V1`
unfoldable pub generic_default_v1 : Table
generic_default_v1 =
    ("OPENING", ("opened", "ENGAGED") ∷ common_exits)
    ∷ (
      "ENGAGED",
      ("field_needed", "COLLECTING")
          ∷ ("question_asked", "RESOLVING")
          ∷ ("ambiguity", "CLARIFYING")
          ∷ ("fields_complete", "CONFIRMING")
          ∷ ("success_rule_met", "CLOSING")
          ∷ ("failure_rule_met", "CLOSING")
          ∷ common_exits,
    )
    ∷ (
      "COLLECTING",
      ("fields_complete", "CONFIRMING")
          ∷ ("field_needed", "COLLECTING")
          ∷ ("question_asked", "RESOLVING")
          ∷ ("ambiguity", "CLARIFYING")
          ∷ ("user_engaged", "ENGAGED")
          ∷ ("failure_rule_met", "CLOSING")
          ∷ common_exits,
    )
    ∷ (
      "RESOLVING",
      ("question_resolved", "ENGAGED")
          ∷ ("field_needed", "COLLECTING")
          ∷ ("ambiguity", "CLARIFYING")
          ∷ common_exits,
    )
    ∷ ("CLARIFYING", ("clarified", "ENGAGED") ∷ ("field_needed", "COLLECTING") ∷ common_exits)
    ∷ (
      "CONFIRMING",
      ("confirmed", "EXECUTING")
          ∷ ("denied", "COLLECTING")
          ∷ ("ambiguity", "CLARIFYING")
          ∷ ("field_needed", "COLLECTING")
          ∷ common_exits,
    )
    ∷ (
      "EXECUTING",
      ("executed", "CLOSING")
          ∷ ("success_rule_met", "CLOSING")
          ∷ ("execution_failed", "ENGAGED")
          ∷ ("handoff", "ESCALATED")
          ∷ ("blocked", "BLOCKED")
          ∷ [],
    )
    ∷ (
      "CLOSING",
      ("closed", "ENDED")
          ∷ ("user_engaged", "ENGAGED")
          ∷ ("handoff", "ESCALATED")
          ∷ ("user_left", "ENDED")
          ∷ [],
    )
    ∷ ("ENDED", [])
    ∷ ("ESCALATED", [])
    ∷ ("ABANDONED", [])
    ∷ ("BLOCKED", [])
    ∷ []

-- `TABLES`
tables : Dict String Table
unfolding generic_default_v1
tables = ("generic_default_v1", generic_default_v1) ∷ []

-- The messages of `validate_table`.
pub data TableError : Type 0 where
  missing_opening no_terminal_target : TableError
  unknown_state terminal_has_row : String → TableError
  unknown_trigger : (state trigger : String) → TableError
  unknown_target : (state trigger target : String) → TableError

abbrev report : Bool → TableError → List TableError
report true e = e ∷ []
report false e = []

-- The inner loop, over a row's entries.
entry_errors : String → Row → List TableError
entry_errors st [] = []
entry_errors st ((trig, nxt) ∷ row) =
    report (not (contains triggers trig)) (unknown_trigger st trig)
    ++ (report (not (is_some (parse_activity_state nxt))) (unknown_target st trig nxt)
        ++ entry_errors st row)

-- One round of the outer loop.
row_errors : String → Row → Option ActivityState → List TableError
unfolding entry_errors
row_errors st row none = unknown_state st ∷ []
row_errors st row (some s) =
    entry_errors st row ++ report (is_terminal s && not (is_empty row)) (terminal_has_row st)

rows_errors : Table → List TableError
unfolding row_errors
rows_errors [] = []
rows_errors ((st, row) ∷ table) = row_errors st row (parse_activity_state st) ++ rows_errors table

unfoldable pub validate_table : Table → List TableError
unfolding rows_errors
validate_table table =
    report (not (has_key table "OPENING")) missing_opening
    ++ (rows_errors table
        ++ report (not (any (λ r. any (λ e. names_terminal e.1) r.1) table)) no_terminal_target)

pub record ActivityMachine : Type 0 where
  pub table : Table
  pub state : ActivityState
  pub transitions : List Transition

unfoldable pub start : Table → ActivityMachine
start table = record { table = table; state = ActivityState.opening; transitions = [] }

-- `table_ref or "generic_default_v1"`
table_name : Option String → String
table_name none = "generic_default_v1"
table_name (some t) = if t == "" then "generic_default_v1" else t

from_tables : String → Option Table → Result ActivityMachine
unfolding start
from_tables name none = raise (key_error name)
from_tables name (some t) = ok (start t)

-- `if inline:` takes an empty table for none.
unfoldable pub from_blueprint_ref : Option String → Option Table → Result ActivityMachine
unfolding validate_table start tables table_name from_tables
from_blueprint_ref table_ref (some (r ∷ rest)) =
    if is_empty (validate_table (r ∷ rest))
    then ok (start (r ∷ rest))
    else raise (value_error "invalid activity_machine.inline")
from_blueprint_ref table_ref _ =
    from_tables (table_name table_ref) (get tables (table_name table_ref))

unfoldable pub terminal : ActivityMachine → Bool
terminal m = is_terminal m.state

-- `self.table.get(self.state.value, {})`
unfoldable pub row_of : Table → ActivityState → Row
row_of table s = or_else (get table (activity_value s)) []

unfoldable pub can : ActivityMachine → String → Bool
unfolding row_of
can m trigger = has_key (row_of m.table m.state) trigger

-- The end of `fire`: `ActivityState(nxt)` raises before the log grows.
arrive : ActivityMachine → Transition → Option ActivityState → ActivityMachine × Result Transition
arrive m t none = (m, raise (value_error t.to_state))
arrive m t (some s) = (record m { state = s; transitions = m.transitions ++ t ∷ [] }, ok t)

-- The rest of `fire`, once the table has been read.
move :
    ActivityMachine
    → String
    → ℕ
    → Option String
    → Option String
    → ActivityMachine × Result Transition
unfolding arrive
move m trigger ts_ms reason none =
    (m, raise (illegal_transition "activity" (activity_value m.state) trigger))
move m trigger ts_ms reason (some nxt) =
    let t : Transition = record {
      machine = "activity";
      from_state = activity_value m.state;
      to_state = nxt;
      trigger = trigger;
      ts_ms = ts_ms;
      reason = reason;
      authority = "core";
    } in
    arrive m t (parse_activity_state nxt)

unfoldable pub fire :
    ActivityMachine → String → ℕ → Option String → ActivityMachine × Result Transition
unfolding move row_of
fire m trigger ts_ms reason = move m trigger ts_ms reason (get (row_of m.table m.state) trigger)

unfoldable pub fire_if_possible :
    ActivityMachine → String → ℕ → Option String → ActivityMachine × Result (Option Transition)
unfolding can fire
fire_if_possible m trigger ts_ms reason =
    if can m trigger
    then (let (m', r) = fire m trigger ts_ms reason in
        (m', elim r [ ok t ↦ ok (some t) | raise x ↦ raise x ]))
    else (m, ok none)
