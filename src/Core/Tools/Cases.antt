-- ===== src/Core/Tools/Cases.antt =====
-- The two ways a run of the pipeline ends: without an execution, or with one that all the checks
-- allowed.
use markting_call_center.Base.{
  String, string_eq, Bool, true, false, if◌then◌else◌, Option, none, some, List, [], ◌∷◌, ◌++◌,
  Dict, get, is_empty, ◌≡◌, ◌⊎◌, refl, ap, Bool-cases, inl, inr, is_empty-nil,
}
use markting_call_center.Contracts.Tools.{
  Confirmation, ToolDeclaration, ToolPermission, ToolPipelineStep, ToolOutcomeStatus,
  ToolInvocation, ToolOutcome, ErrorText, text, is_completed,
}
use markting_call_center.Core.Arguments.{validate_args}
use markting_call_center.Core.Tools.{
  BudgetGuard, allow, count, same_impact, idempotency_key, Reply, ToolEvent, Wiring, Pipeline, emit,
  reject, remember, capped, finish, outcome_from, execute, answered, ask, confirm_step, earlier,
  dedup_step, permitted, tenant_forbids, permission_step, schema_step, run, execution_started,
  tool_requested,
}

abbrev pub Result : Type 0
Result = Pipeline × ToolOutcome

-- Nothing was executed: the budget and the results by key are as they were, no success is
-- reported, and the outcome is logged unless it waits for the user.
pub record IsQuiet (b : BudgetGuard) (seen : Dict String ToolOutcome) (log : List ToolOutcome)
    (r : Result) : Type 0 where
  pub budget_kept : r.0.budget ≡ b
  pub seen_kept : r.0.seen ≡ seen
  pub no_success : is_completed r.1.status ≡ false
  pub logged :
      (r.0.history ≡ log ++ r.1 ∷ [])
      ⊎ (r.0.history ≡ log) × (r.1.error ≡ some (text "confirmation pending"))

-- The checks that stand before an execution.
pub record IsAuthorized (w : Wiring) (b : BudgetGuard) (seen : Dict String ToolOutcome)
    (inv : ToolInvocation) (decl : ToolDeclaration) (perm : ToolPermission)
    (backend : ToolInvocation → Reply) : Type 0 where
  pub declared : get w.declarations inv.tool_id ≡ some decl
  pub well_formed : validate_args decl.parameters inv.arguments ≡ []
  pub has_permission : get w.permissions inv.tool_id ≡ some perm
  pub tenant_agrees : tenant_forbids w.tenant_allowed_tools inv.tool_id ≡ false
  pub impact_agrees : same_impact perm.impact decl.impact ≡ true
  pub within_budget : allow b perm.impact ≡ true
  pub is_fresh : earlier seen (idempotency_key w.digest decl inv) ≡ none
  pub confirmed :
      perm.confirmation ≡ Confirmation.confirm_before_execute → ask w.confirm inv ≡ some true
  pub bound : get w.backends inv.tool_id ≡ some backend

-- Steps 9 and 10 on a result.
abbrev pub concluded : ToolDeclaration → ToolOutcome → ToolOutcome
concluded decl out =
    if is_completed out.status
    then (record out {
      provenance = capped out.provenance decl.result_provenance;
      step_reached = ToolPipelineStep.returned;
    })
    else out

-- The backend was called once, and its result was concluded, counted and logged.
pub record IsExecuted (w : Wiring) (b : BudgetGuard) (seen : Dict String ToolOutcome)
    (log : List ToolOutcome) (inv : ToolInvocation) (r : Result) : Type 0 where
  pub decl : ToolDeclaration
  pub perm : ToolPermission
  pub backend : ToolInvocation → Reply
  pub authorized : IsAuthorized w b seen inv decl perm backend
  pub counted : r.0.budget ≡ count b perm.impact
  pub result : r.1 ≡ concluded decl (outcome_from inv (backend inv))
  pub remembered : r.0.seen ≡ (
      if is_completed (outcome_from inv (backend inv)).status
      then remember seen (idempotency_key w.digest decl inv) r.1
      else seen)
  pub logged : r.0.history ≡ log ++ r.1 ∷ []

reject-IsQuiet :
    (p : Pipeline) (inv : ToolInvocation) (status : ToolOutcomeStatus) (reason : ErrorText)
    (event : Option ToolEvent) (step : ToolPipelineStep)
    → is_completed status ≡ false
    → IsQuiet p.budget p.seen p.history (reject p inv status reason event step)
unfolding reject
reject-IsQuiet p inv status reason none step h = record {
  budget_kept = refl;
  seen_kept = refl;
  no_success = h;
  logged = inl refl;
}
reject-IsQuiet p inv status reason (some event) step h = record {
  budget_kept = refl;
  seen_kept = refl;
  no_success = h;
  logged = inl refl;
}

-- What `finish` makes of a result, on its status.
finish_result :
    (p : Pipeline) (inv : ToolInvocation) (decl : ToolDeclaration) (key : Option String)
    (out : ToolOutcome) (status : ToolOutcomeStatus)
    → out.status ≡ status
    → let r = finish p inv decl key out status in
      (r.0.budget ≡ p.budget)
      × (r.1 ≡ concluded decl out)
      × (r.0.seen ≡ (if is_completed out.status then remember p.seen key r.1 else p.seen))
      × (r.0.history ≡ p.history ++ r.1 ∷ [])
unfolding finish
finish_result p inv decl key out ToolOutcomeStatus.completed e =
    let done : is_completed out.status ≡ true = unfold is_completed in ap is_completed e in
    rw done (refl, refl, refl, refl)
finish_result p inv decl key out _ e =
    let not_done : is_completed out.status ≡ false = unfold is_completed in ap is_completed e in
    rw not_done (refl, refl, refl, refl)

module _ (w : Wiring) (inv : ToolInvocation) where
  abbrev pub Ends : Pipeline → Result → Type 0
  Ends p r = IsQuiet p.budget p.seen p.history r ⊎ IsExecuted w p.budget p.seen p.history inv r

  -- The checks of a run that come before its confirmation.
  abbrev Checked : Pipeline → ToolDeclaration → ToolPermission → Type 0
  Checked p decl perm =
      (backend : ToolInvocation → Reply)
      → (perm.confirmation ≡ Confirmation.confirm_before_execute → ask w.confirm inv ≡ some true)
      → get w.backends inv.tool_id ≡ some backend
      → IsAuthorized w p.budget p.seen inv decl perm backend

  execute-Ends :
      (p : Pipeline) (decl : ToolDeclaration) (perm : ToolPermission)
      (o : Option (ToolInvocation → Reply))
      → ((backend : ToolInvocation → Reply)
          → o ≡ some backend
          → IsAuthorized w p.budget p.seen inv decl perm backend)
      → Ends p (execute p inv decl perm (idempotency_key w.digest decl inv) o)
  unfolding execute
  execute-Ends p decl perm none auth = inl (
      reject-IsQuiet p inv ToolOutcomeStatus.failed _ (some ToolEvent.execution_failed) _
        (unfold is_completed in refl))
  execute-Ends p decl perm (some backend) auth =
      let out = outcome_from inv (backend inv) in
      let p' =
        emit (record p { budget = count p.budget perm.impact }) execution_started inv.call_id in
      let (b', r', s', h') =
        finish_result p' inv decl (idempotency_key w.digest decl inv) out out.status refl in
      inr (record {
        decl = decl;
        perm = perm;
        backend = backend;
        authorized = auth backend refl;
        counted = b';
        result = r';
        remembered = s';
        logged = h';
      })

  answered-Ends :
      (p : Pipeline) (decl : ToolDeclaration) (perm : ToolPermission) (o : Option Bool)
      → ask w.confirm inv ≡ o
      → Checked p decl perm
      → Ends p (answered w p inv decl perm (idempotency_key w.digest decl inv) o)
  unfolding answered is_completed
  answered-Ends p decl perm none e c = inl (record {
    budget_kept = refl;
    seen_kept = refl;
    no_success = refl;
    logged = inr (refl, refl);
  })
  answered-Ends p decl perm (some true) e c =
      execute-Ends (emit p ToolEvent.confirmation_granted inv.call_id) decl perm
        (get w.backends inv.tool_id) (λ backend bound. c backend (λ _. e) bound)
  answered-Ends p decl perm (some false) e c =
      inl (reject-IsQuiet (emit p ToolEvent.confirmation_denied inv.call_id) inv _ _ none _ refl)

  confirm_step-Ends :
      (p : Pipeline) (decl : ToolDeclaration) (perm : ToolPermission) (o : Confirmation)
      → perm.confirmation ≡ o
      → Checked p decl perm
      → Ends p (confirm_step w p inv decl perm (idempotency_key w.digest decl inv) o)
  unfolding confirm_step
  confirm_step-Ends p decl perm Confirmation.not_needed e c =
      execute-Ends p decl perm (get w.backends inv.tool_id)
        (λ backend bound. c backend (λ f. absurd (not_both e f)) bound)
    where
      not_both :
          perm.confirmation ≡ Confirmation.not_needed
          → perm.confirmation ≡ Confirmation.confirm_before_execute
          → ⊥
      not_both e f = cc
  confirm_step-Ends p decl perm Confirmation.confirm_before_execute e c =
      answered-Ends (emit p ToolEvent.confirmation_requested inv.call_id) decl perm
        (ask w.confirm inv) refl c

  dedup_step-Ends :
      (p : Pipeline) (decl : ToolDeclaration) (perm : ToolPermission) (o : Option ToolOutcome)
      → (o ≡ none → Checked p decl perm)
      → Ends p (dedup_step w p inv decl perm (idempotency_key w.digest decl inv) o)
  unfolding dedup_step is_completed
  dedup_step-Ends p decl perm none c = confirm_step-Ends p decl perm perm.confirmation refl (c refl)
  dedup_step-Ends p decl perm (some prev) c =
      inl (record { budget_kept = refl; seen_kept = refl; no_success = refl; logged = inl refl })

  permitted-Ends :
      (p : Pipeline) (decl : ToolDeclaration) (perm : ToolPermission)
      → get w.declarations inv.tool_id ≡ some decl
      → validate_args decl.parameters inv.arguments ≡ []
      → get w.permissions inv.tool_id ≡ some perm
      → tenant_forbids w.tenant_allowed_tools inv.tool_id ≡ false
      → Ends p (permitted w p inv decl perm)
  unfolding permitted
  permitted-Ends p decl perm d a q t = elim (Bool-cases (same_impact perm.impact decl.impact)) [
    | inr f ↦ rw f (
        inl (
          reject-IsQuiet p inv ToolOutcomeStatus.rejected_policy _ (some ToolEvent.policy_rejected)
            _ (unfold is_completed in refl)))
    | inl i ↦ elim (Bool-cases (allow p.budget perm.impact)) [
      | inr f ↦
          rw (i, f)
            (inl (
              reject-IsQuiet p inv ToolOutcomeStatus.rejected_budget _
                (some ToolEvent.budget_exceeded) _ (unfold is_completed in refl)))
      | inl b ↦
          rw (i, b)
            (dedup_step-Ends p decl perm (earlier p.seen (idempotency_key w.digest decl inv))
              (λ fresh backend confirmed bound. record {
                declared = d;
                well_formed = a;
                has_permission = q;
                tenant_agrees = t;
                impact_agrees = i;
                within_budget = b;
                is_fresh = fresh;
                confirmed = confirmed;
                bound = bound;
              }))
    ]
  ]

  permission_step-Ends :
      (p : Pipeline) (decl : ToolDeclaration) (o : Option ToolPermission)
      → get w.declarations inv.tool_id ≡ some decl
      → validate_args decl.parameters inv.arguments ≡ []
      → get w.permissions inv.tool_id ≡ o
      → Ends p (permission_step w p inv decl o)
  unfolding permission_step
  permission_step-Ends p decl none d a q = inl (
      reject-IsQuiet p inv ToolOutcomeStatus.rejected_policy _ (some ToolEvent.policy_rejected) _
        (unfold is_completed in refl))
  permission_step-Ends p decl (some perm) d a q =
      elim (Bool-cases (tenant_forbids w.tenant_allowed_tools inv.tool_id)) [
        | inl f ↦ rw f (
            inl (
              reject-IsQuiet p inv ToolOutcomeStatus.rejected_policy _
                (some ToolEvent.policy_rejected) _ (unfold is_completed in refl)))
        | inr t ↦ rw t (permitted-Ends p decl perm d a q t)
      ]

  schema_step-Ends :
      (p : Pipeline) (o : Option ToolDeclaration)
      → get w.declarations inv.tool_id ≡ o
      → Ends p (schema_step w p inv o)
  unfolding schema_step
  schema_step-Ends p none d = inl (
      reject-IsQuiet p inv ToolOutcomeStatus.rejected_args _ (some ToolEvent.args_invalid) _
        (unfold is_completed in refl))
  schema_step-Ends p (some decl) d =
      elim (Bool-cases (is_empty (validate_args decl.parameters inv.arguments))) [
        | inl t ↦ rw t (
            permission_step-Ends p decl (get w.permissions inv.tool_id) d
              (is_empty-nil (validate_args decl.parameters inv.arguments) t) refl)
        | inr f ↦ rw f (
            inl (
              reject-IsQuiet p inv ToolOutcomeStatus.rejected_args _ (some ToolEvent.args_invalid) _
                (unfold is_completed in refl)))
      ]

  pub run-Ends : (p : Pipeline) → Ends p (run w p inv)
  unfolding run
  run-Ends p =
      schema_step-Ends (emit p tool_requested inv.call_id) (get w.declarations inv.tool_id) refl
