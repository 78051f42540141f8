-- ===== src/Control/Preflight/Checks.antt =====
-- qevion/control/preflight.py: the findings, and the checks of the fields, the outcomes and the
-- completion rules. A finding is its reason and its severity; its path, message and hint are left out.
use markting_call_center.Base.{
  String, string_eq, Bool, true, false, not, ◌&&◌, ◌==◌, if◌then◌else◌, is_empty, any, contains,
  Option, none, some, List, [], ◌∷◌, ◌++◌, map, has_key,
}
use markting_call_center.Contracts.Readiness.{PreflightReason, PreflightFinding}
use markting_call_center.Control.Preflight.Data.{
  FieldEntry, OutcomeField, ActivityBlueprint, RuleAtom, not_evaluable, recorded, accepted,
  compared, flag, range_recorded, TextTools,
}

abbrev pub Findings : Type 0
Findings = List PreflightFinding

-- `_block` and `_warn`, where a test holds.
abbrev pub block_if : Bool → PreflightReason → Findings
block_if b reason = if b then record { reason = reason; is_blocking = true } ∷ [] else []

abbrev pub warn_if : Bool → PreflightReason → Findings
warn_if b reason = if b then record { reason = reason; is_blocking = false } ∷ [] else []

-- The findings of a loop.
abbrev pub each {ℓ} : {A : Type ℓ} → (A → Findings) → List A → Findings
each f [] = []
each f (x ∷ xs) = f x ++ each f xs

-- The loop of `_fields`, after the names it has seen.
unfoldable pub fields_from : List String → List FieldEntry → Findings
fields_from seen [] = []
fields_from seen (s ∷ ss) =
    block_if (contains seen s.name) PreflightReason.incomplete_field_definition
    ++ block_if (s.is_enum && not s.has_enum_values) PreflightReason.incomplete_field_definition
    ++ warn_if (not s.has_clarification_hint) PreflightReason.incomplete_field_definition
    ++ fields_from (s.name ∷ seen) ss

-- `{s.name for s in [*bp.data.required, *bp.data.optional]}`
unfoldable pub names : ActivityBlueprint → List String
names bp = map (λ s. s.name) (bp.required ++ bp.optional)

unfoldable pub check_fields : ActivityBlueprint → Findings
unfolding fields_from names
check_fields bp =
    fields_from [] (bp.required ++ bp.optional)
    ++ each (λ step. block_if (not (contains (names bp) step)) PreflightReason.invalid_config)
        bp.flow_steps

-- `of.source_field or of.name`
abbrev source_of : OutcomeField → String
source_of f = elim f.source_field [ none ↦ f.name | some s ↦ if s == "" then f.name else s ]

-- Of a source with a dot, the tool before it.
abbrev check_source : ActivityBlueprint → String → Option String → Findings
check_source bp src (some tool) =
    block_if (not (has_key bp.permissions tool)) PreflightReason.missing_outcome_schema
check_source bp src none =
    block_if (not (contains (names bp) src)) PreflightReason.missing_outcome_schema

unfoldable pub check_outcome_schema : TextTools → ActivityBlueprint → Findings
check_outcome_schema tx bp =
    block_if (is_empty bp.primary) PreflightReason.missing_outcome_schema
    ++ each (λ f. check_source bp (source_of f) (tx.before_dot (source_of f))) bp.outcome_fields

abbrev check_atom : TextTools → ActivityBlueprint → RuleAtom → Findings
check_atom tx bp not_evaluable = block_if true PreflightReason.impossible_completion_criteria
check_atom tx bp (recorded n) =
    block_if (not (contains (names bp) n)) PreflightReason.impossible_completion_criteria
check_atom tx bp (range_recorded low) =
    block_if (not (any (tx.in_range low) (names bp))) PreflightReason.impossible_completion_criteria
check_atom tx bp (accepted tool) =
    block_if (not (has_key bp.permissions tool)) PreflightReason.impossible_completion_criteria
check_atom tx bp (compared n) =
    block_if (not (contains (names bp) n)) PreflightReason.impossible_completion_criteria
check_atom tx bp (flag f) = []

abbrev is_foreign : List String → Option String → Bool
is_foreign primary none = false
is_foreign primary (some target) = not (contains primary target)

abbrev check_rule : TextTools → ActivityBlueprint → String → Findings
check_rule tx bp raw =
    let (expr, target) = tx.rule_parts raw in
    block_if (is_foreign bp.primary target) PreflightReason.impossible_completion_criteria
    ++ each (check_atom tx bp) (tx.atoms expr)

unfoldable pub check_completion : TextTools → ActivityBlueprint → Findings
check_completion tx bp =
    block_if (is_empty bp.success_rules && is_empty bp.exit_rules)
      PreflightReason.impossible_completion_criteria
    ++ each (check_rule tx bp) (bp.success_rules ++ bp.failure_rules ++ bp.exit_rules)
    ++ block_if (any (contains bp.failure_rules) bp.success_rules)
        PreflightReason.contradictory_policies
