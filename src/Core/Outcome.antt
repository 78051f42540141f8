-- ===== src/Core/Outcome.antt =====
-- qevion/core/outcome_engine.py: the outcome of a session from its facts. `decide` stands for the
-- decision port, `split_once` for `rule.split("=>", 1)` where the rule has an arrow, and `strip` for
-- `str.strip`.
pub mod Evidence
pub mod Choice
use Prim.Native.String.{◌++◌ as str_append}
use markting_call_center.Base.{
  ℕ, String, string_eq, Bool, true, false, not, ◌||◌, ◌==◌, if◌then◌else◌, Option, none, some, List,
  [], ◌∷◌, ◌++◌, get_elem?, take, select, map, sorted, contains, is_empty, Dict, get,
}
use markting_call_center.Core.Fields.{FieldStore, recorded_names}
use markting_call_center.Contracts.Control.{ActivityState}
use markting_call_center.Contracts.Values.{Value, bool}
use markting_call_center.Contracts.Tools.{ToolOutcome, is_completed}

pub record OutcomeSchema : Type 0 where
  pub primary : List String
  pub secondary : List String
  pub next_actions : List String

pub record Completion : Type 0 where
  pub success_rules : List String
  pub failure_rules : List String
  pub exit_rules : List String

-- The part of a DecisionResult that the engine reads: whether its source is UNKNOWN, and `bool(value)`
-- unless the value is None.
pub record Ruling : Type 0 where
  pub is_unknown : Bool
  pub value : Option Bool

-- The facts of a session that the primary outcome and the next actions depend on.
pub record SessionFacts : Type 0 where
  pub activity_state : ActivityState
  pub first_user_turn_ms : Option ℕ
  pub handoff_ref : Option String

pub record CompletionVerdict : Type 0 where
  pub success : Option Bool
  pub failure : Option Bool
  pub exit_rule : Option String
  pub exit_value : Option String
  pub unknown_rules : List String

-- `output.get("accepted") is True`
abbrev pub is_true_value : Option Value → Bool
is_true_value (some (bool true)) = true
is_true_value _ = false

abbrev tool_flags : ToolOutcome → List String
unfolding is_completed
tool_flags o =
    if is_completed o.status
    then str_append o.tool_id "_completed"
      ∷ (if is_true_value (get o.output "accepted")
          then str_append o.tool_id "_accepted" ∷ []
          else [])
    else []

-- A set, as a list in which a flag may stand more than once.
unfoldable pub flags_from_tools : List ToolOutcome → List String
unfolding is_completed
flags_from_tools [] = []
flags_from_tools (o ∷ os) = tool_flags o ++ flags_from_tools os

-- The result of `_eval` on a ruling over some rules.
abbrev ruled : List String → Ruling → Option Bool × List String
ruled rules r =
    if r.is_unknown
    then (none, rules)
    else elim r.value [ none ↦ (none, rules) | some b ↦ (some b, []) ]

abbrev pub is_yes : Option Bool → Bool
is_yes none = false
is_yes (some b) = b

-- The inputs of the DecisionRequest of `_eval`.
pub record RuleInputs (V : Type 0) : Type 0 where
  pub fields : Dict String V
  pub recorded : List String
  pub flags : List String

unfoldable pub inputs_of : {V : Type 0} → FieldStore V → List String → RuleInputs V
unfolding recorded_names sorted
inputs_of store flags = record {
  fields = map (λ p. (p.0, p.1.value)) store.current;
  recorded = sorted (recorded_names store);
  flags = sorted flags;
}

module _ {V : Type 0} (decide : List String → RuleInputs V → Ruling)
    (split_once : String → Option (String × String)) (strip : String → String) where
  -- `_eval`
  unfoldable pub evaluate : List String → RuleInputs V → Option Bool × List String
  evaluate [] inputs = (none, [])
  evaluate (r ∷ rs) inputs = ruled (r ∷ rs) (decide (r ∷ rs) inputs)

  -- `_split_exit`
  unfoldable pub split_exit : String → String × String
  split_exit rule = elim (split_once rule) [
    | some (lhs, rhs) ↦ (strip lhs, strip rhs)
    | none ↦ (strip rule, strip rule)
  ]

  -- The loop over the exit rules: the rule and the value, and the rules that are unknown.
  unfoldable pub exits :
      List String → RuleInputs V → List String → Option (String × String) × List String
  unfolding evaluate split_exit
  exits [] inputs unknown = (none, unknown)
  exits (raw ∷ raws) inputs unknown =
      let (expr, value) = split_exit raw in
      let (hit, unk) = evaluate (expr ∷ []) inputs in
      let unknown_here = exits raws inputs (unknown ++ unk) in
      let rest = exits raws inputs unknown in
      if is_empty unk
      then if is_yes hit then (some (raw, value), unknown) else rest
      else unknown_here

  abbrev pub rule_of : Option (String × String) → Option String
  rule_of none = none
  rule_of (some (raw, value)) = some raw

  abbrev pub value_of : Option (String × String) → Option String
  value_of none = none
  value_of (some (raw, value)) = some value

  unfoldable pub completion : Completion → FieldStore V → List String → CompletionVerdict
  unfolding evaluate exits inputs_of
  completion comp store flags =
      let inputs = inputs_of store flags in
      let (success, unk_s) = evaluate comp.success_rules inputs in
      let (failure, unk_f) = evaluate comp.failure_rules inputs in
      let (exit, unknown) = exits comp.exit_rules inputs (unk_s ++ unk_f) in
      record {
        success = success;
        failure = failure;
        exit_rule = rule_of exit;
        exit_value = value_of exit;
        unknown_rules = unknown;
      }

-- `_pick`; nothing stands for the IndexError of `allowed[0]` on an empty list.
unfoldable pub pick : List String → List String → Option String
pick allowed [] = get_elem? allowed 0
pick allowed (c ∷ cs) = let rest = pick allowed cs in if contains allowed c then some c else rest

pub data Observation : Type 0 where
  activity_blocked handoff_requested failure_matched success_matched : Observation
  exit_matched : String → Observation
  not_evaluable : List String → Observation
  user_left no_user_turn rules_unmet nothing_collected : Observation

is_blocked : ActivityState → Bool
is_blocked ActivityState.blocked = true
is_blocked _ = false

is_escalated : ActivityState → Bool
is_escalated ActivityState.escalated = true
is_escalated _ = false

is_abandoned : ActivityState → Bool
is_abandoned ActivityState.abandoned = true
is_abandoned _ = false

-- `if facts.handoff_ref`
abbrev has_text : Option String → Bool
has_text none = false
has_text (some t) = not (t == "")

abbrev unknown_note : List String → List Observation
unknown_note [] = []
unknown_note (r ∷ rs) = not_evaluable (r ∷ rs) ∷ []

abbrev Primary : Type 0
Primary = Option String × List Observation

-- The end of `primary_for`: nothing but the facts is left.
by_facts : List String → CompletionVerdict → SessionFacts → List String → Option ℕ → Primary
unfolding is_abandoned pick
by_facts allowed v f recorded first =
    let obs = unknown_note v.unknown_rules in
    if is_abandoned f.activity_state
    then (pick allowed ("abandoned" ∷ []), obs ++ user_left ∷ [])
    else elim first [
      | none ↦ (pick allowed ("no_answer" ∷ "abandoned" ∷ []), obs ++ no_user_turn ∷ [])
      | some ms ↦
          if is_empty recorded
          then (
            pick allowed ("abandoned" ∷ "partially_completed" ∷ []),
            obs ++ nothing_collected ∷ [],
          )
          else (pick allowed ("partially_completed" ∷ "abandoned" ∷ []), obs ++ rules_unmet ∷ [])
    ]

by_rules : List String → CompletionVerdict → SessionFacts → List String → Primary
unfolding by_facts pick
by_rules allowed v f recorded =
    if is_yes v.failure
    then (pick allowed ("rejected" ∷ "not_eligible" ∷ []), failure_matched ∷ [])
    else if is_yes v.success
    then (pick allowed ("completed" ∷ "accepted" ∷ []), success_matched ∷ [])
    else by_facts allowed v f recorded f.first_user_turn_ms

by_exit :
    List String
    → CompletionVerdict
    → SessionFacts
    → List String
    → Option String
    → Option String
    → Primary
unfolding by_rules pick
by_exit allowed v f recorded (some rule) (some value) =
    (pick allowed (value ∷ "rejected" ∷ "abandoned" ∷ []), exit_matched rule ∷ [])
by_exit allowed v f recorded _ _ = by_rules allowed v f recorded

unfoldable pub primary_for :
    OutcomeSchema → CompletionVerdict → SessionFacts → (recorded : List String) → Primary
unfolding by_exit is_blocked is_escalated pick
primary_for schema v f recorded =
    if is_blocked f.activity_state
    then (pick schema.primary ("technical_failure" ∷ []), activity_blocked ∷ [])
    else if is_escalated f.activity_state || has_text f.handoff_ref
    then (pick schema.primary ("human_required" ∷ []), handoff_requested ∷ [])
    else by_exit schema.primary v f recorded v.exit_rule v.exit_value

-- `_next_actions`
abbrev wanted : String → SessionFacts → List String
wanted primary f =
    (if primary == "human_required" || has_text f.handoff_ref then "handoff" ∷ [] else [])
    ++ (if primary == "callback_requested" then "schedule_callback" ∷ [] else [])
    ++ "close" ∷ []

abbrev or_first : List String → List String → List String
or_first [] allowed = take 1 allowed
or_first (a ∷ picked) allowed = a ∷ picked

unfoldable pub next_actions : OutcomeSchema → String → SessionFacts → List String
next_actions schema primary f =
    or_first (select (contains schema.next_actions) (wanted primary f)) schema.next_actions
