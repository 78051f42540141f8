-- ===== src/Core/Tools/Budget.antt =====
-- The tool budget over every sequence of runs.
use markting_call_center.Core.Tools.Executions.{executions, IsTallied, run-IsTallied}
use markting_call_center.Base.{
  ap, refl, Bool, false, Option, none, some, get, ◌+◌, ◌-◌, if◌then◌else◌, string_eq, ℕ, ◌≤◌, true,
  List, [], ◌∷◌, ◌≡◌, arith, inl, inr,
}
use markting_call_center.Contracts.Tools.{ToolImpact, ToolInvocation, ToolPermission}
use markting_call_center.Core.Tools.{
  BudgetGuard, allow, count, is_write, Wiring, Pipeline, run, run_all,
}
use markting_call_center.Core.Tools.Cases.{run-Ends}

-- Within both limits, and no more writes than calls.
pub record IsWithin (max_calls max_write_calls : ℕ) (b : BudgetGuard) : Type 0 where
  pub same_calls : b.max_calls ≡ max_calls
  pub same_writes : b.max_write_calls ≡ max_write_calls
  pub calls_capped : b.calls ≤ max_calls
  pub writes_capped : b.write_calls ≤ max_write_calls
  pub writes_are_calls : b.write_calls ≤ b.calls

count-IsWithin :
    (n m : ℕ) (b : BudgetGuard) (impact : ToolImpact)
    → allow b impact ≡ true
    → IsWithin n m b
    → IsWithin n m (count b impact)
unfolding allow count
count-IsWithin n m b impact a h = ground arith

-- A permission to write.
abbrev pub may_write : Option ToolPermission → Bool
unfolding is_write
may_write none = false
may_write (some perm) = is_write perm.impact

module _ (w : Wiring) (max_calls max_write_calls : ℕ) where
  run-IsWithin :
      (p : Pipeline) (inv : ToolInvocation)
      → IsWithin max_calls max_write_calls p.budget
      → IsWithin max_calls max_write_calls (run w p inv).0.budget
  run-IsWithin p inv h = elim (run-Ends w inv p) [
    | inl quiet ↦ rw quiet.budget_kept h
    | inr done ↦ rw done.counted (
        count-IsWithin max_calls max_write_calls p.budget done.perm.impact
          done.authorized.within_budget h)
  ]

  budget_kept :
      (p : Pipeline) (invs : List ToolInvocation)
      → IsWithin max_calls max_write_calls p.budget
      → IsWithin max_calls max_write_calls (run_all w p invs).budget
  unfolding run_all
  budget_kept p [] h = h
  budget_kept p (inv ∷ invs) h = budget_kept (run w p inv).0 invs (run-IsWithin p inv h)

  -- One more than before where the run has started an execution, by its events.
  abbrev pub added : (p p' : Pipeline) → ℕ
  added p p' = executions p'.emitted - executions p.emitted

  -- The executions that the runs start whose permission is one to write.
  pub write_executions : Pipeline → List ToolInvocation → ℕ
  write_executions p [] = 0
  write_executions p (inv ∷ invs) =
      let p' = (run w p inv).0 in
      (if may_write (get w.permissions inv.tool_id) then added p p' else 0)
      + write_executions p' invs

  run_all-IsTallied :
      (n c : ℕ) (p : Pipeline) (invs : List ToolInvocation)
      → IsTallied n c p
      → IsTallied n c (run_all w p invs)
  unfolding run_all
  run_all-IsTallied n c p [] h = h
  run_all-IsTallied n c p (inv ∷ invs) h =
      run_all-IsTallied n c (run w p inv).0 invs (run-IsTallied n c w p inv h)

  -- What a run adds to the writes, the budget counts.
  run_write :
      (p : Pipeline) (inv : ToolInvocation)
      → (if may_write (get w.permissions inv.tool_id) then added p (run w p inv).0 else 0)
          + p.budget.write_calls
        ≡ (run w p inv).0.budget.write_calls
  run_write p inv =
      let t = run-IsTallied (executions p.emitted) p.budget.calls w p inv refl in
      elim (run-Ends w inv p) [
        | inl quiet ↦
            let none_added : added p (run w p inv).0 ≡ 0 =
              (let same = ap (λ b. b.calls) quiet.budget_kept in omega (arith, t, same)) in
            rw quiet.budget_kept (ground (arith, none_added))
        | inr done ↦
            let one_added : added p (run w p inv).0 ≡ 1 =
              (unfold count in
                let counted = ap (λ b. b.calls) done.counted in omega (arith, t, counted)) in
            rw (done.authorized.has_permission, one_added, done.counted)
              (unfold count in ground arith)
      ]

  writes_capped :
      (p : Pipeline) (invs : List ToolInvocation)
      → write_executions p invs + p.budget.write_calls ≡ (run_all w p invs).budget.write_calls
  unfolding run_all write_executions
  writes_capped p [] = omega arith
  writes_capped p (inv ∷ invs) =
      let here = run_write p inv in
      let rest = writes_capped (run w p inv).0 invs in omega (arith, here, rest)

  -- Over every sequence of runs from a budget within its limits, the executions that start, by the
  -- events, are no more than `max_calls` less the calls counted before, those among them whose tool
  -- may write no more than `max_write_calls` less the writes counted before, and the budget stays
  -- within its limits.
  pub run_all-IsWithin :
      (p : Pipeline) (invs : List ToolInvocation)
      → IsWithin max_calls max_write_calls p.budget
      → (added p (run_all w p invs) + p.budget.calls ≤ max_calls)
        × (write_executions p invs + p.budget.write_calls ≤ max_write_calls)
        × IsWithin max_calls max_write_calls (run_all w p invs).budget
  run_all-IsWithin p invs h =
      let within = budget_kept p invs h in
      let t = run_all-IsTallied (executions p.emitted) p.budget.calls p invs refl in
      let q = writes_capped p invs in
      (omega (arith, t, within.calls_capped), omega (arith, q, within.writes_capped), within)
