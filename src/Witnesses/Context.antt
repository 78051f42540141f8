-- ===== src/Witnesses/Context.antt =====
-- The focus stack and the pending objectives at concrete inputs.
use markting_call_center.Base.{ℕ, String, List, [], ◌∷◌, none, ◌≡◌, refl, take}
use markting_call_center.Core.Focus.{FocusEntry, EntityFocusStack, push}
use markting_call_center.Core.Focus.Recency.{push_all, mentions, push_all-mentions}
use markting_call_center.Core.Objectives.{ObjectiveKind, PendingObjectives}
use markting_call_center.Core.Objectives.Order.{IsOrdered, Call, run, run-IsOrdered}

abbrev entity : String → ℕ → FocusEntry
entity id ts = record {
  entity_id = id;
  entity_type = "car";
  ts_ms = ts;
  source = "user";
  label = none;
}

abbrev spoken : List FocusEntry
spoken = entity "a" 1 ∷ entity "b" 2 ∷ entity "a" 3 ∷ entity "c" 4 ∷ []

push_all-mentions_example :
    (push_all (record { max_depth = 2; stack = [] }) spoken).stack ≡ take 2 (mentions [] spoken)
push_all-mentions_example = push_all-mentions 2 spoken

focus : EntityFocusStack
unfolding push_all
focus = push_all (record { max_depth = 2; stack = [] }) spoken

focus_order : focus.stack ≡ entity "c" 4 ∷ entity "a" 3 ∷ []
unfolding focus push
focus_order = refl

abbrev no_objectives : PendingObjectives
no_objectives = record { items = []; max_attempts = 2 }

abbrev raised : List Call
raised =
    Call.adding ObjectiveKind.close "end" 9 10 none
    ∷ Call.adding ObjectiveKind.collect_field "phone" 5 11 none
    ∷ Call.adding ObjectiveKind.close "end" 1 12 none
    ∷ Call.attempting
    ∷ []

run-IsOrdered_example : IsOrdered (run no_objectives raised)
run-IsOrdered_example = run-IsOrdered no_objectives raised (tt, tt)
