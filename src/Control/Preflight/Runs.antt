-- ===== src/Control/Preflight/Runs.antt =====
-- qevion/control/preflight.py: Preflight.run, the checks in the order of the source.
use markting_call_center.Base.{not, any, List, [], ◌∷◌}
use markting_call_center.Contracts.Readiness.{PreflightResult}
use markting_call_center.Control.Preflight.Data.{ActivityBlueprint, PreflightContext, TextTools}
use markting_call_center.Control.Preflight.Checks.{
  Findings, each, check_fields, check_outcome_schema, check_completion,
}
use markting_call_center.Control.Preflight.Policies.{
  check_tools, check_policies, check_escalation, check_knowledge, check_decisions, check_coverage,
  check_outbound,
}
use markting_call_center.Control.Preflight.Bindings.{
  check_composition, check_locale_and_voice, check_licenses,
}

unfoldable pub checks : TextTools → PreflightContext → ActivityBlueprint → List Findings
checks tx ctx bp =
    check_fields bp
    ∷ check_outcome_schema tx bp
    ∷ check_completion tx bp
    ∷ check_tools ctx bp
    ∷ check_policies tx bp
    ∷ check_escalation tx bp
    ∷ check_knowledge ctx bp
    ∷ check_decisions bp
    ∷ check_coverage bp
    ∷ check_outbound tx bp
    ∷ check_composition ctx bp ctx.composition
    ∷ check_locale_and_voice ctx bp
    ∷ check_licenses ctx bp
    ∷ []

-- The status is READY where no finding blocks.
unfoldable pub run : TextTools → PreflightContext → ActivityBlueprint → PreflightResult
unfolding checks
run tx ctx bp =
    let f = each (λ found. found) (checks tx ctx bp) in
    record { is_ready = not (any (λ x. x.is_blocking) f); findings = f }
