-- ===== src/Core/Activity/Default.antt =====
-- What the shipped table `generic_default_v1` guarantees.
use markting_call_center.Base.{
  ℕ, String, string_eq, Bool, true, false, not, ◌&&◌, ◌||◌, Option, List, [], ◌∷◌, get, ok, none,
  all, all-get, All, and_true, subst, ◌∙◌, ◌==◌, eq_iff, ◌≡◌, refl, ap,
}
use markting_call_center.Contracts.Control.{
  ActivityState, activity_value, parse_activity_state, is_terminal, names_terminal,
}
use markting_call_center.Core.Transitions.{Transition, History, Firing}
use markting_call_center.Core.Activity.{
  ActivityMachine, start, from_blueprint_ref, from_tables, tables, table_name, validate_table,
  row_of, move, fire, terminal, generic_default_v1, from_blueprint_ref, from_tables, tables,
  table_name,
}
use markting_call_center.Core.Activity.Laws.{run, InTable, run-IsLogged}

-- The shipped table passes its own validation.
pub default_valid : validate_table generic_default_v1 ≡ []
unfolding validate_table generic_default_v1 parse_activity_state is_terminal names_terminal
default_valid = refl

abbrev guards_executing : ActivityState → String × String → Bool
guards_executing s (trig, nxt) =
    not (nxt == "EXECUTING") || (trig == "confirmed" && activity_value s == "CONFIRMING")

rows_guard : (s : ActivityState) → all (guards_executing s) (row_of generic_default_v1 s) ≡ true
unfolding row_of generic_default_v1 activity_value
rows_guard ActivityState.opening = refl
rows_guard _ = refl

History-All :
    (R : Transition → Type 0) (from end : String) (ts : List Transition)
    → History R from ts end
    → All R ts
History-All R from end [] h = tt
History-All R from end (t ∷ ts) h = (h.1, History-All R t.to_state end ts h.2)

abbrev pub IsGuarded : Transition → Type 0
IsGuarded t = t.to_state ≡ "EXECUTING" → (t.trigger ≡ "confirmed") × (t.from_state ≡ "CONFIRMING")

InTable-IsGuarded : (t : Transition) → InTable generic_default_v1 t → IsGuarded t
InTable-IsGuarded t (s, nxt, from, to, e) into =
    let (confirmed, confirming) =
      and_true (t.trigger == "confirmed") (activity_value s == "CONFIRMING") (
        subst (λ target. guards_executing s (t.trigger, target) ≡ true) into
          (all-get (guards_executing s) (row_of generic_default_v1 s) t.trigger (rows_guard s)
            e)) in
    (
      (eq_iff t.trigger "confirmed").0 confirmed,
      from ∙ (eq_iff (activity_value s) "CONFIRMING").0 confirming,
    )

guards-All : (ts : List Transition) → All (InTable generic_default_v1) ts → All IsGuarded ts
guards-All [] h = tt
guards-All (t ∷ ts) h = (InTable-IsGuarded t h.0, guards-All ts h.1)

-- In every run over the shipped table, each entry of the machine's log that enters the state EXECUTING
-- was fired by `confirmed` in the state CONFIRMING.
pub executing_confirmed :
    (fs : List Firing) → All IsGuarded (run (start generic_default_v1) fs).transitions
unfolding start activity_value
executing_confirmed fs =
    let m = start generic_default_v1 in
    guards-All (run m fs).transitions (
      History-All (InTable generic_default_v1) "OPENING" _ (run m fs).transitions
        (run-IsLogged generic_default_v1 m fs (refl, refl)).1)

escalates :
    (m : ActivityMachine) (s : ActivityState) (ts_ms : ℕ) (reason : Option String)
    → is_terminal s ≡ false
    → (move m "handoff" ts_ms reason (get (row_of generic_default_v1 s) "handoff")).0.state
      ≡ ActivityState.escalated
unfolding move row_of generic_default_v1 activity_value is_terminal parse_activity_state
escalates m ActivityState.ended ts_ms reason h = cc
escalates m ActivityState.escalated ts_ms reason h = cc
escalates m ActivityState.abandoned ts_ms reason h = cc
escalates m ActivityState.blocked ts_ms reason h = cc
escalates m _ ts_ms reason h = refl

-- Under the shipped table a handoff escalates from every state that is not terminal.
pub handoff_escalates :
    (m : ActivityMachine) (ts_ms : ℕ) (reason : Option String)
    → m.table ≡ generic_default_v1
    → terminal m ≡ false
    → (fire m "handoff" ts_ms reason).0.state ≡ ActivityState.escalated
unfolding fire terminal
handoff_escalates m ts_ms reason e h =
    rw (ap (λ table. get (row_of table m.state) "handoff") e) (escalates m m.state ts_ms reason h)

pub from_blueprint_ref_default : from_blueprint_ref none none ≡ ok (start generic_default_v1)
unfolding from_blueprint_ref from_tables tables table_name start
from_blueprint_ref_default = refl
