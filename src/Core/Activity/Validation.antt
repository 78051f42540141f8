-- ===== src/Core/Activity/Validation.antt =====
-- What an empty list of errors from `validate_table` says of a table.
use markting_call_center.Base.{
  String, string_eq, Bool, true, false, not, ◌&&◌, some, [], ◌∷◌, get, is_some, is_empty, contains,
  has_key, ◌≡◌, refl, append-eq-nil, beq_cases, inl, inr, subst, Option-cases,
}
use markting_call_center.Contracts.Control.{
  ActivityState, activity_value, parse_activity_state, is_terminal, parse-activity_value,
}
use markting_call_center.Core.Activity.{
  Row, Table, TableError, report, triggers, entry_errors, row_errors, rows_errors, validate_table,
  row_of, unknown_target, unknown_trigger, missing_opening,
}

report-not : (b : Bool) (e : TableError) → report (not b) e ≡ [] → b ≡ true
report-not true e h = refl
report-not false e h = cc

report-and :
    (s : Bool) (row : Row) (e : TableError)
    → report (s && not (is_empty row)) e ≡ []
    → s ≡ true
    → row ≡ []
report-and s [] e h t = refl
report-and true (x ∷ row) e h t = cc
report-and false (x ∷ row) e h t = cc

some-inj : {a b : String} → some a ≡ some b → a ≡ b
some-inj h = cc

entry_errors-get :
    (st : String) (row : Row) (trig : String) {nxt : String}
    → entry_errors st row ≡ []
    → get row trig ≡ some nxt
    → (is_some (parse_activity_state nxt) ≡ true) × (contains triggers trig ≡ true)
unfolding entry_errors
entry_errors-get st [] trig h e = cc
entry_errors-get st ((k, n) ∷ row) trig {nxt} h e =
    let (bad_trigger, more) =
      append-eq-nil (report (not (contains triggers k)) (unknown_trigger st k)) h in
    let (bad_target, rest) =
      append-eq-nil (report (not (is_some (parse_activity_state n))) (unknown_target st k n))
        more in
    elim (beq_cases k trig) [
      | inl (t, p) ↦
          let same : some n ≡ some nxt = rw t at e in
          (
            subst (λ o. is_some (parse_activity_state o) ≡ true) (some-inj same)
                (report-not (is_some (parse_activity_state n)) _ bad_target),
            rw (← p) (report-not (contains triggers k) _ bad_trigger),
          )
      | inr (f, n) ↦ entry_errors-get st row trig rest (rw f at e)
    ]

rows_errors-get :
    (table : Table) (st : String) {row : Row}
    → rows_errors table ≡ []
    → get table st ≡ some row
    → row_errors st row (parse_activity_state st) ≡ []
unfolding rows_errors
rows_errors-get [] st h e = cc
rows_errors-get ((k, r) ∷ table) st {row} h e =
    let (here, rest) = append-eq-nil (row_errors k r (parse_activity_state k)) h in
    elim (beq_cases k st) [
      | inl (t, p) ↦ let same : some r ≡ some row = rw t at e in cc here
      | inr (f, n) ↦ rows_errors-get table st rest (rw f at e)
    ]

-- A state's row in a table that passes: every trigger and target is known, and the row of a
-- terminal state is empty.
pub record IsGoodRow (s : ActivityState) (row : Row) : Type 0 where
  pub known :
      (trig : String) {nxt : String}
      → get row trig ≡ some nxt
      → (is_some (parse_activity_state nxt) ≡ true) × (contains triggers trig ≡ true)
  pub final : is_terminal s ≡ true → row ≡ []

row_errors-IsGoodRow :
    (s : ActivityState) (row : Row)
    → row_errors (activity_value s) row (parse_activity_state (activity_value s)) ≡ []
    → IsGoodRow s row
unfolding row_errors
row_errors-IsGoodRow s row h =
    let (entries, last) =
      append-eq-nil (entry_errors (activity_value s) row) (rw (parse-activity_value s) at h) in
    record {
      known = λ trig e. entry_errors-get (activity_value s) row trig entries e;
      final = λ t. report-and (is_terminal s) row _ last t;
    }

pub valid-IsGoodRow :
    (table : Table) (s : ActivityState) → validate_table table ≡ [] → IsGoodRow s (row_of table s)
unfolding validate_table row_of
valid-IsGoodRow table s h = elim (Option-cases (get table (activity_value s))) [
  | inl e ↦ rw e (record { known = λ trig q. cc; final = λ t. refl })
  | inr (row, e) ↦
      let (first, rest) =
        append-eq-nil (report (not (has_key table "OPENING")) missing_opening) h in
      rw e (
        row_errors-IsGoodRow s row
          (rows_errors-get table _ (append-eq-nil (rows_errors table) rest).0 e))
]
