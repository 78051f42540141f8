-- ===== src/Core/Tools/Executions.antt =====
-- The executions that a pipeline has started, by its events, and how its budget counts them.
use markting_call_center.Base.{
  ℕ, ◌+◌, String, string_eq, Bool, true, false, Option, none, some, List, [], ◌∷◌, ◌++◌, get,
  is_empty, if◌then◌else◌, ◌≡◌, refl, arith, Bool-cases, inl, inr,
}
use markting_call_center.Contracts.Tools.{
  Confirmation, ToolDeclaration, ToolPermission, ToolOutcomeStatus, ToolInvocation, ToolOutcome,
}
use markting_call_center.Core.Arguments.{validate_args}
use markting_call_center.Core.Tools.{
  allow, count, same_impact, idempotency_key, Reply, ToolEvent, Wiring, Pipeline, emit, finish,
  reject, outcome_from, execute, answered, ask, confirm_step, earlier, dedup_step, permitted,
  tenant_forbids, permission_step, schema_step, run,
}

abbrev pub is_start : ToolEvent → Bool
is_start ToolEvent.execution_started = true
is_start _ = false

-- How many executions the events tell of.
abbrev pub executions : List (ToolEvent × String) → ℕ
executions [] = 0
executions ((e, call_id) ∷ es) = (if is_start e then 1 else 0) + executions es

executions-append :
    (xs ys : List (ToolEvent × String)) → executions (xs ++ ys) ≡ executions xs + executions ys
executions-append [] ys = omega arith
executions-append ((e, call_id) ∷ xs) ys = omega (arith, executions-append xs ys)

-- The budget has counted as many calls as executions have started, since there were `n` executions
-- and `c` calls.
module _ (n c : ℕ) where
  abbrev pub IsTallied : Pipeline → Type 0
  IsTallied p = executions p.emitted + c ≡ n + p.budget.calls

  emit-IsTallied :
      (p : Pipeline) (e : ToolEvent) (call_id : String)
      → is_start e ≡ false
      → IsTallied p
      → IsTallied (emit p e call_id)
  emit-IsTallied p e call_id q h =
      rw (executions-append p.emitted ((e, call_id) ∷ []), q) (omega (arith, h))

  finish-IsTallied :
      (p : Pipeline) (inv : ToolInvocation) (decl : ToolDeclaration) (key : Option String)
      (out : ToolOutcome) (status : ToolOutcomeStatus)
      → IsTallied p
      → IsTallied (finish p inv decl key out status).0
  unfolding finish
  finish-IsTallied p inv decl key out ToolOutcomeStatus.unknown h =
      emit-IsTallied p ToolEvent.execution_unknown inv.call_id refl h
  finish-IsTallied p inv decl key out ToolOutcomeStatus.completed h =
      emit-IsTallied p ToolEvent.execution_completed inv.call_id refl h
  finish-IsTallied p inv decl key out _ h =
      emit-IsTallied p ToolEvent.execution_failed inv.call_id refl h

  execute-IsTallied :
      (p : Pipeline) (inv : ToolInvocation) (decl : ToolDeclaration) (perm : ToolPermission)
      (key : Option String) (o : Option (ToolInvocation → Reply))
      → IsTallied p
      → IsTallied (execute p inv decl perm key o).0
  unfolding execute reject
  execute-IsTallied p inv decl perm key none h =
      emit-IsTallied p ToolEvent.execution_failed inv.call_id refl h
  execute-IsTallied p inv decl perm key (some backend) h =
      let q =
        emit (record p { budget = count p.budget perm.impact }) ToolEvent.execution_started
          inv.call_id in
      let out = outcome_from inv (backend inv) in
      finish-IsTallied q inv decl key out out.status (
        unfold count in
        rw (executions-append p.emitted ((ToolEvent.execution_started, inv.call_id) ∷ []))
          (omega (arith, h)))

  answered-IsTallied :
      (w : Wiring) (p : Pipeline) (inv : ToolInvocation) (decl : ToolDeclaration)
      (perm : ToolPermission) (key : Option String) (o : Option Bool)
      → IsTallied p
      → IsTallied (answered w p inv decl perm key o).0
  unfolding answered reject
  answered-IsTallied w p inv decl perm key none h = h
  answered-IsTallied w p inv decl perm key (some true) h =
      execute-IsTallied (emit p ToolEvent.confirmation_granted inv.call_id) inv decl perm key
        (get w.backends inv.tool_id)
        (emit-IsTallied p ToolEvent.confirmation_granted inv.call_id refl h)
  answered-IsTallied w p inv decl perm key (some false) h =
      emit-IsTallied p ToolEvent.confirmation_denied inv.call_id refl h

  confirm_step-IsTallied :
      (w : Wiring) (p : Pipeline) (inv : ToolInvocation) (decl : ToolDeclaration)
      (perm : ToolPermission) (key : Option String) (c : Confirmation)
      → IsTallied p
      → IsTallied (confirm_step w p inv decl perm key c).0
  unfolding confirm_step
  confirm_step-IsTallied w p inv decl perm key Confirmation.not_needed h =
      execute-IsTallied p inv decl perm key (get w.backends inv.tool_id) h
  confirm_step-IsTallied w p inv decl perm key Confirmation.confirm_before_execute h =
      answered-IsTallied w (emit p ToolEvent.confirmation_requested inv.call_id) inv decl perm key
        (ask w.confirm inv) (emit-IsTallied p ToolEvent.confirmation_requested inv.call_id refl h)

  dedup_step-IsTallied :
      (w : Wiring) (p : Pipeline) (inv : ToolInvocation) (decl : ToolDeclaration)
      (perm : ToolPermission) (key : Option String) (o : Option ToolOutcome)
      → IsTallied p
      → IsTallied (dedup_step w p inv decl perm key o).0
  unfolding dedup_step
  dedup_step-IsTallied w p inv decl perm key none h =
      confirm_step-IsTallied w p inv decl perm key perm.confirmation h
  dedup_step-IsTallied w p inv decl perm key (some prev) h =
      emit-IsTallied p ToolEvent.duplicate_ignored inv.call_id refl h

  permitted-IsTallied :
      (w : Wiring) (p : Pipeline) (inv : ToolInvocation) (decl : ToolDeclaration)
      (perm : ToolPermission)
      → IsTallied p
      → IsTallied (permitted w p inv decl perm).0
  unfolding permitted reject
  permitted-IsTallied w p inv decl perm h =
      elim (Bool-cases (same_impact perm.impact decl.impact)) [
        | inr f ↦ rw f (emit-IsTallied p ToolEvent.policy_rejected inv.call_id refl h)
        | inl i ↦ elim (Bool-cases (allow p.budget perm.impact)) [
          | inr f ↦ rw (i, f) (emit-IsTallied p ToolEvent.budget_exceeded inv.call_id refl h)
          | inl b ↦
              rw (i, b)
                (dedup_step-IsTallied w p inv decl perm (idempotency_key w.digest decl inv)
                  (earlier p.seen (idempotency_key w.digest decl inv)) h)
        ]
      ]

  permission_step-IsTallied :
      (w : Wiring) (p : Pipeline) (inv : ToolInvocation) (decl : ToolDeclaration)
      (o : Option ToolPermission)
      → IsTallied p
      → IsTallied (permission_step w p inv decl o).0
  unfolding permission_step reject
  permission_step-IsTallied w p inv decl none h =
      emit-IsTallied p ToolEvent.policy_rejected inv.call_id refl h
  permission_step-IsTallied w p inv decl (some perm) h =
      elim (Bool-cases (tenant_forbids w.tenant_allowed_tools inv.tool_id)) [
        | inl f ↦ rw f (emit-IsTallied p ToolEvent.policy_rejected inv.call_id refl h)
        | inr t ↦ rw t (permitted-IsTallied w p inv decl perm h)
      ]

  schema_step-IsTallied :
      (w : Wiring) (p : Pipeline) (inv : ToolInvocation) (o : Option ToolDeclaration)
      → IsTallied p
      → IsTallied (schema_step w p inv o).0
  unfolding schema_step reject
  schema_step-IsTallied w p inv none h = emit-IsTallied p ToolEvent.args_invalid inv.call_id refl h
  schema_step-IsTallied w p inv (some decl) h =
      elim (Bool-cases (is_empty (validate_args decl.parameters inv.arguments))) [
        | inl t ↦ rw t (permission_step-IsTallied w p inv decl (get w.permissions inv.tool_id) h)
        | inr f ↦ rw f (emit-IsTallied p ToolEvent.args_invalid inv.call_id refl h)
      ]

  pub run-IsTallied :
      (w : Wiring) (p : Pipeline) (inv : ToolInvocation) → IsTallied p → IsTallied (run w p inv).0
  unfolding run
  run-IsTallied w p inv h =
      schema_step-IsTallied w (emit p ToolEvent.tool_requested inv.call_id) inv
        (get w.declarations inv.tool_id)
        (emit-IsTallied p ToolEvent.tool_requested inv.call_id refl h)
