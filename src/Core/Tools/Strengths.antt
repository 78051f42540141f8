-- ===== src/Core/Tools/Strengths.antt =====
-- The provenance that a tool's result may claim.
use markting_call_center.Base.{true, some, get, string_eq, ◌≡◌, ◌≤◌, arith, Bool-cases, inl, inr}
use markting_call_center.Contracts.Provenance.{Provenance, strength}
use markting_call_center.Contracts.Tools.{
  ToolInvocation, ToolDeclaration, ToolOutcome, is_completed,
}
use markting_call_center.Core.Tools.{Wiring, Pipeline, capped, run, outcome_from}
use markting_call_center.Core.Tools.Cases.{run-Ends, concluded}

capped-le : (a d : Provenance) → strength (capped a d) ≤ strength d
unfolding capped
capped-le a d = ground arith

concluded-le :
    (decl : ToolDeclaration) (out : ToolOutcome)
    → is_completed (concluded decl out).status ≡ true
    → strength (concluded decl out).provenance ≤ strength decl.result_provenance
concluded-le decl out h = elim (Bool-cases (is_completed out.status)) [
  | inl t ↦ rw t (capped-le out.provenance decl.result_provenance)
  | inr f ↦ absurd (cc (rw f at h))
]

-- A success never claims a stronger provenance than the tool's declaration allows, whatever its
-- backend claims.
pub run-strength :
    (w : Wiring) (p : Pipeline) (inv : ToolInvocation)
    → is_completed (run w p inv).1.status ≡ true
    → (decl : ToolDeclaration) × (get w.declarations inv.tool_id ≡ some decl)
      × (strength (run w p inv).1.provenance ≤ strength decl.result_provenance)
run-strength w p inv h = elim (run-Ends w inv p) [
  | inl quiet ↦ absurd (cc quiet.no_success)
  | inr done ↦
      let out = outcome_from inv (done.backend inv) in
      (
        done.decl,
        done.authorized.declared,
        rw done.result (concluded-le done.decl out (rw done.result at h)),
      )
]
