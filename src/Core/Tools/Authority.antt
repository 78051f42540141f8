-- ===== src/Core/Tools/Authority.antt =====
-- What has to hold for a tool to be executed.
use markting_call_center.Base.{◌+◌, true, [], ◌∷◌, ◌++◌, ◌⊎◌, ◌≡◌, ◌≢◌, ap, inl, inr, some}
use markting_call_center.Contracts.Tools.{
  ToolInvocation, ToolDeclaration, ToolPermission, text, is_completed,
}
use markting_call_center.Core.Tools.{BudgetGuard, count, Wiring, Pipeline, Reply, run}
use markting_call_center.Core.Tools.Cases.{run-Ends, IsAuthorized}

-- If a run uses budget or reports a success, then the tool is declared, its arguments pass, the
-- Activity and the tenant permit it with the declared impact, the budget allows it, no earlier result
-- answers it, the user confirmed it where that is asked, and a backend is bound.
pub run-IsAuthorized :
    (w : Wiring) (p : Pipeline) (inv : ToolInvocation)
    → ((run w p inv).0.budget ≢ p.budget) ⊎ (is_completed (run w p inv).1.status ≡ true)
    → (decl : ToolDeclaration) × (perm : ToolPermission) × (backend : (ToolInvocation → Reply))
      × IsAuthorized w p.budget p.seen inv decl perm backend
run-IsAuthorized w p inv h = elim (run-Ends w inv p) [
  | inl quiet ↦ absurd (elim h [ inl n ↦ n quiet.budget_kept | inr t ↦ cc quiet.no_success ])
  | inr done ↦ (done.decl, done.perm, done.backend, done.authorized)
]

-- Every outcome but one that waits for the user's confirmation is logged, last in the history, and
-- a run uses one call of the budget or none.
pub run_logged :
    (w : Wiring) (p : Pipeline) (inv : ToolInvocation)
    → let r = run w p inv in
      ((r.0.history ≡ p.history ++ r.1 ∷ [])
        ⊎ (r.0.history ≡ p.history) × (r.1.error ≡ some (text "confirmation pending")))
      × ((r.0.budget.calls ≡ p.budget.calls) ⊎ (r.0.budget.calls ≡ p.budget.calls + 1))
unfolding count
run_logged w p inv = elim (run-Ends w inv p) [
  | inl quiet ↦ (quiet.logged, inl (ap (λ (b : BudgetGuard). b.calls) quiet.budget_kept))
  | inr done ↦ (inl done.logged, inr (ap (λ (b : BudgetGuard). b.calls) done.counted))
]
