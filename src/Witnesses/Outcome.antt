-- ===== src/Witnesses/Outcome.antt =====
-- The outcome engine at concrete rules: a rule holds if it is a flag, and one is not evaluable.
use markting_call_center.Base.{
  String, string_eq, true, false, ◌==◌, if◌then◌else◌, Option, none, some, List, [], ◌∷◌, contains,
  ◌≡◌, refl,
}
use markting_call_center.Contracts.Control.{ActivityState}
use markting_call_center.Core.Fields.{FieldStore}
use markting_call_center.Core.Outcome.{
  OutcomeSchema, Completion, Ruling, SessionFacts, CompletionVerdict, completion, primary_for,
  RuleInputs,
}
use markting_call_center.Core.Outcome.Choice.{primary_for-contains}

abbrev ruling : List String → RuleInputs String → Ruling
ruling [] inputs = record { is_unknown = true; value = none }
ruling (r ∷ rs) inputs =
    if r == "mystery"
    then record { is_unknown = true; value = none }
    else record { is_unknown = false; value = some (contains inputs.flags r) }

abbrev arrow : String → Option (String × String)
arrow rule = if rule == "left => abandoned" then some ("left ", " abandoned") else none

abbrev trim : String → String
trim text = if text == "left " then "left" else if text == " abandoned" then "abandoned" else text

abbrev no_fields : FieldStore String
no_fields = record { specs = []; required_names = []; current = []; history = [] }

abbrev rules : Completion
rules = record {
  success_rules = "sold" ∷ [];
  failure_rules = [];
  exit_rules = "mystery" ∷ "left => abandoned" ∷ [];
}

abbrev schema : OutcomeSchema
schema = record {
  primary = "abandoned" ∷ "completed" ∷ [];
  secondary = [];
  next_actions = "close" ∷ [];
}

abbrev facts : SessionFacts
facts = record {
  activity_state = ActivityState.ended;
  first_user_turn_ms = some 10;
  handoff_ref = none;
}

sold : CompletionVerdict
unfolding completion
sold = completion ruling arrow trim rules no_fields ("sold" ∷ [])

primary_for-contains_example :
    (p : String) × ((primary_for schema sold facts []).0 ≡ some p)
    × (contains schema.primary p ≡ true)
primary_for-contains_example = primary_for-contains schema sold facts [] refl
