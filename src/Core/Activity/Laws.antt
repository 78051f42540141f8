-- ===== src/Core/Activity/Laws.antt =====
-- What the activity machine keeps over every sequence of calls of `fire`, on a table that passes
-- `validate_table`.
use markting_call_center.Base.{
  ℕ, String, string_eq, true, false, Option, none, some, List, [], ◌∷◌, get, is_some, ok, raise,
  illegal_transition, ◌≡◌, refl, ap, inr, inl, Bool-cases, is_empty, value_error, Exception, Result,
  ◌++◌, Bool, if◌then◌else◌, Bool-cases, is_empty, inl,
}
use markting_call_center.Contracts.Control.{
  ActivityState, activity_value, parse_activity_state, activity_value-parse,
}
use markting_call_center.Core.Transitions.{Transition, History, History-append, Firing}
use markting_call_center.Core.Activity.{
  Table, ActivityMachine, validate_table, row_of, can, arrive, move, fire, terminal,
  fire_if_possible, start, from_tables, from_blueprint_ref,
}
use markting_call_center.Core.Activity.Validation.{valid-IsGoodRow}

-- The calls in turn, an exception caught by the caller.
unfoldable pub run : ActivityMachine → List Firing → ActivityMachine
run m [] = m
run m (f ∷ fs) = run (fire m f.trigger f.ts_ms f.reason).0 fs

-- A transition that the table has, into a state that exists.
abbrev pub InTable : Table → Transition → Type 0
InTable table t =
    (s : ActivityState) × (nxt : ActivityState) × (t.from_state ≡ activity_value s)
    × (t.to_state ≡ activity_value nxt)
    × (get (row_of table s) t.trigger ≡ some t.to_state)

abbrev pub IsLogged : Table → ActivityMachine → Type 0
IsLogged table m =
    (m.table ≡ table) × History (InTable table) "OPENING" m.transitions (activity_value m.state)

arrive-IsLogged :
    (table : Table) (m : ActivityMachine) (t : Transition) (o : Option ActivityState)
    → parse_activity_state t.to_state ≡ o
    → t.from_state ≡ activity_value m.state
    → get (row_of m.table m.state) t.trigger ≡ some t.to_state
    → IsLogged table m
    → IsLogged table (arrive m t o).0
unfolding arrive
arrive-IsLogged table m t none p from e h = h
arrive-IsLogged table m t (some s) p from e h =
    let named = activity_value-parse t.to_state s p in
    (
      h.0,
      rw (← named) (
          History-append (InTable table) "OPENING" m.transitions t h.1 from
            (m.state, s, from, named, rw (← h.0) e)),
    )

move-IsLogged :
    (table : Table) (m : ActivityMachine) (trigger : String) (ts_ms : ℕ) (reason : Option String)
    (o : Option String)
    → get (row_of m.table m.state) trigger ≡ o
    → IsLogged table m
    → IsLogged table (move m trigger ts_ms reason o).0
unfolding move
move-IsLogged table m trigger ts_ms reason none e h = h
move-IsLogged table m trigger ts_ms reason (some nxt) e h =
    arrive-IsLogged table m _ (parse_activity_state nxt) refl refl e h

-- On any table, every sequence of calls of `fire` keeps a log that runs from OPENING to the current
-- state along entries of the table, and never changes the table.
pub run-IsLogged :
    (table : Table) (m : ActivityMachine) (fs : List Firing)
    → IsLogged table m
    → IsLogged table (run m fs)
unfolding run fire
run-IsLogged table m [] h = h
run-IsLogged table m (f ∷ fs) h =
    run-IsLogged table (fire m f.trigger f.ts_ms f.reason).0 fs
      (move-IsLogged table m f.trigger f.ts_ms f.reason _ refl h)

arrive_ok :
    (m : ActivityMachine) (t : Transition) (o : Option ActivityState)
    → is_some o ≡ true
    → (arrive m t o).1 ≡ ok t
unfolding arrive
arrive_ok m t none h = cc
arrive_ok m t (some s) h = refl

move_outcome :
    (m : ActivityMachine) (trigger : String) (ts_ms : ℕ) (reason : Option String)
    (o : Option String)
    → ((nxt : String) → o ≡ some nxt → is_some (parse_activity_state nxt) ≡ true)
    → (is_some o ≡ true → (t : Transition) × ((move m trigger ts_ms reason o).1 ≡ ok t))
      × (is_some o ≡ false
          → move m trigger ts_ms reason o
            ≡ (m, raise (illegal_transition "activity" (activity_value m.state) trigger)))
unfolding move
move_outcome m trigger ts_ms reason none h = (λ e. cc, λ e. refl)
move_outcome m trigger ts_ms reason (some nxt) h =
    (λ e. (_, arrive_ok m _ (parse_activity_state nxt) (h nxt refl)), λ e. cc)

-- On a table that passes `validate_table`, a call of `fire` succeeds if `can` allows it, and
-- otherwise raises IllegalTransitionError and leaves the machine as it was: it never raises the
-- ValueError of an unknown target state.
pub fire-valid :
    (m : ActivityMachine) (trigger : String) (ts_ms : ℕ) (reason : Option String)
    → validate_table m.table ≡ []
    → (can m trigger ≡ true → (t : Transition) × ((fire m trigger ts_ms reason).1 ≡ ok t))
      × (can m trigger ≡ false
          → fire m trigger ts_ms reason
            ≡ (m, raise (illegal_transition "activity" (activity_value m.state) trigger)))
unfolding fire can
fire-valid m trigger ts_ms reason v =
    move_outcome m trigger ts_ms reason (get (row_of m.table m.state) trigger)
      (λ nxt e. ((valid-IsGoodRow m.table m.state v).known trigger e).0)

terminal_cannot :
    (m : ActivityMachine) (trigger : String)
    → validate_table m.table ≡ []
    → terminal m ≡ true
    → can m trigger ≡ false
unfolding can terminal
terminal_cannot m trigger v t = rw ((valid-IsGoodRow m.table m.state v).final t)

-- On a table that passes `validate_table`, a machine in a terminal state is never changed again.
pub run-terminal :
    (m : ActivityMachine) (fs : List Firing)
    → validate_table m.table ≡ []
    → terminal m ≡ true
    → run m fs ≡ m
unfolding run
run-terminal m [] v t = refl
run-terminal m (f ∷ fs) v t =
    let stays =
      ap (λ r. r.0)
        ((fire-valid m f.trigger f.ts_ms f.reason v).1 (terminal_cannot m f.trigger v t)) in
    rw stays (run-terminal m fs v t)

-- What a call of `fire` that succeeds does: the transition it logs.
pub record HasFired (m : ActivityMachine) (trigger : String) (t : Transition) (s : ActivityState)
    : Type 0 where
  pub of_machine : t.machine ≡ "activity"
  pub by_trigger : t.trigger ≡ trigger
  pub leaves : t.from_state ≡ activity_value m.state
  pub arrives : parse_activity_state t.to_state ≡ some s
  pub in_table : get (row_of m.table m.state) trigger ≡ some t.to_state

-- The machine after a transition.
abbrev pub moved : ActivityMachine → Transition → ActivityState → ActivityMachine
moved m t s = record m { state = s; transitions = m.transitions ++ t ∷ [] }

-- A call of `fire_if_possible` does nothing, raises and changes nothing, or fires.
pub data FireCase (m : ActivityMachine) (trigger : String)
    : ActivityMachine × Result (Option Transition) → Type 0 where
  idle : FireCase m trigger (m, ok none)
  raised : (x : Exception) → FireCase m trigger (m, raise x)
  fired :
      (t : Transition) (s : ActivityState)
      → HasFired m trigger t s
      → FireCase m trigger (moved m t s, ok (some t))

as_option : ActivityMachine × Result Transition → ActivityMachine × Result (Option Transition)
as_option (m, ok t) = (m, ok (some t))
as_option (m, raise x) = (m, raise x)

arrive_case :
    (m : ActivityMachine) (trigger : String) (t : Transition) (o : Option ActivityState)
    → ((s : ActivityState) → o ≡ some s → HasFired m trigger t s)
    → FireCase m trigger (as_option (arrive m t o))
unfolding arrive as_option
arrive_case m trigger t none h = raised _
arrive_case m trigger t (some s) h = fired t s (h s refl)

move_case :
    (m : ActivityMachine) (trigger : String) (ts_ms : ℕ) (reason : Option String)
    (o : Option String)
    → get (row_of m.table m.state) trigger ≡ o
    → FireCase m trigger (as_option (move m trigger ts_ms reason o))
unfolding move as_option
move_case m trigger ts_ms reason none e = raised _
move_case m trigger ts_ms reason (some nxt) e =
    arrive_case m trigger _ (parse_activity_state nxt) λ s p. record {
      of_machine = refl;
      by_trigger = refl;
      leaves = refl;
      arrives = p;
      in_table = e;
    }

if_possible_case :
    (m : ActivityMachine) (trigger : String) (b : Bool) (r : ActivityMachine × Result Transition)
    → FireCase m trigger (as_option r)
    → FireCase m trigger
        (if b then (r.0, elim r.1 [ ok t ↦ ok (some t) | raise x ↦ raise x ]) else (m, ok none))
unfolding as_option
if_possible_case m trigger false r h = idle
if_possible_case m trigger true (m', ok t) h = h
if_possible_case m trigger true (m', raise x) h = h

pub fire_if_possible-FireCase :
    (m : ActivityMachine) (trigger : String) (ts_ms : ℕ) (reason : Option String)
    → FireCase m trigger (fire_if_possible m trigger ts_ms reason)
unfolding fire_if_possible fire
fire_if_possible-FireCase m trigger ts_ms reason =
    if_possible_case m trigger (can m trigger) (move m trigger ts_ms reason _)
      (move_case m trigger ts_ms reason _ refl)

-- A machine that has fired is logged, if it was before.
pub moved-IsLogged :
    (table : Table) (m : ActivityMachine) (trigger : String) (t : Transition) (s : ActivityState)
    → HasFired m trigger t s
    → IsLogged table m
    → IsLogged table (moved m t s)
moved-IsLogged table m trigger t s f h =
    let named = activity_value-parse t.to_state s f.arrives in
    (
      h.0,
      rw (← named) (
          History-append (InTable table) "OPENING" m.transitions t h.1 f.leaves
            (m.state, s, f.leaves, named, rw f.by_trigger (rw (← h.0) f.in_table))),
    )

-- A machine that `from_blueprint_ref` makes has not moved.
abbrev IsFresh : ActivityMachine → Type 0
IsFresh m = (m.state ≡ ActivityState.opening) × (m.transitions ≡ [])

start-IsFresh : (t : Table) (m : ActivityMachine) → ok (start t) ≡ ok m → IsFresh m
unfolding start
start-IsFresh t m h = (cc, cc)

from_tables-IsFresh :
    (name : String) (t : Option Table) (m : ActivityMachine) → from_tables name t ≡ ok m → IsFresh m
unfolding from_tables
from_tables-IsFresh name none m h = cc
from_tables-IsFresh name (some t) m h = start-IsFresh t m h

pub from_blueprint_ref-IsFresh :
    (table_ref : Option String) (table : Option Table) (m : ActivityMachine)
    → from_blueprint_ref table_ref table ≡ ok m
    → IsFresh m
unfolding from_blueprint_ref
from_blueprint_ref-IsFresh table_ref none m h = from_tables-IsFresh _ _ m h
from_blueprint_ref-IsFresh table_ref (some []) m h = from_tables-IsFresh _ _ m h
from_blueprint_ref-IsFresh table_ref (some (r ∷ rest)) m h =
    elim (Bool-cases (is_empty (validate_table (r ∷ rest)))) [
      | inl y ↦ start-IsFresh (r ∷ rest) m (rw y at h)
      | inr n ↦
          let bad : raise (value_error "invalid activity_machine.inline") ≡ ok m = (rw n at h) in cc
    ]
