-- ===== src/Core/Tools.antt =====
-- qevion/core/tool_pipeline.py: the tool pipeline. `digest` stands for the hash of the JSON text of a
-- session, a tool and the arguments that identify a call; a backend is what it replies to an
-- invocation, and `confirm` what the user's answer to one is.
pub mod Cases
pub mod Executions
pub mod Budget
pub mod Authority
pub mod Strengths
pub mod Duplicates
use markting_call_center.Base.{
  ℕ, ◌+◌, String, string_eq, Bool, true, false, not, ◌&&◌, ◌||◌, leb, ◌==◌, if◌then◌else◌, Option,
  none, some, List, [], ◌∷◌, ◌++◌, map, sorted, Dict, get, put, has_key, contains, is_empty,
}
use markting_call_center.Contracts.Provenance.{Provenance, strength}
use markting_call_center.Contracts.Values.{Value}
use markting_call_center.Contracts.Tools.{
  ToolImpact, Confirmation, ToolDeclaration, ToolPermission, ToolPipelineStep, ToolOutcomeStatus,
  ToolInvocation, ToolOutcome, ErrorText, text, invalid_args, impact_mismatch,
}
use markting_call_center.Core.Arguments.{validate_args}

pub record BudgetGuard : Type 0 where
  pub max_calls : ℕ
  pub max_write_calls : ℕ
  pub calls : ℕ
  pub write_calls : ℕ

unfoldable pub is_write : ToolImpact → Bool
is_write ToolImpact.write = true
is_write _ = false

unfoldable pub allow : BudgetGuard → ToolImpact → Bool
unfolding is_write
allow b impact =
    if leb b.max_calls b.calls
    then false
    else not (is_write impact && leb b.max_write_calls b.write_calls)

unfoldable pub count : BudgetGuard → ToolImpact → BudgetGuard
unfolding is_write
count b impact = record b {
  calls = b.calls + 1;
  write_calls = if is_write impact then b.write_calls + 1 else b.write_calls;
}

unfoldable pub same_impact : ToolImpact → ToolImpact → Bool
same_impact ToolImpact.read ToolImpact.read = true
same_impact ToolImpact.write ToolImpact.write = true
same_impact ToolImpact.escalation ToolImpact.escalation = true
same_impact _ _ = false

unfoldable pub is_read : ToolImpact → Bool
is_read ToolImpact.read = true
is_read _ = false

-- The arguments that `digest` hashes, as `inv.arguments.get(k)` gives them.
abbrev pub Payload : Type 0
Payload = List (String × Option Value)

abbrev pub Digest : Type 0
Digest = (session_id tool_id : String) → Payload → String

-- `decl.idempotency_key_fields or sorted(inv.arguments)`
key_fields : List String → Dict String Value → List String
unfolding sorted
key_fields [] args = sorted (map (λ a. a.0) args)
key_fields (k ∷ ks) args = k ∷ ks

-- `payload`: what identifies a call beside its session and tool.
unfoldable pub payload : ToolDeclaration → ToolInvocation → Payload
unfolding key_fields
payload decl inv =
    map (λ k. (k, get inv.arguments k)) (key_fields decl.idempotency_key_fields inv.arguments)

unfoldable pub idempotency_key : Digest → ToolDeclaration → ToolInvocation → Option String
unfolding is_read payload
idempotency_key digest decl inv =
    if is_read decl.impact
    then none
    else some (digest inv.session_id inv.tool_id (payload decl inv))

-- What `asyncio.wait_for(backend.execute(inv), ...)` does.
pub data Reply : Type 0 where
  replied : ToolOutcome → Reply
  timed_out : Reply
  failed_with : String → Reply

pub data ToolEvent : Type 0 where
  tool_requested args_invalid policy_rejected budget_exceeded duplicate_ignored : ToolEvent
  confirmation_requested confirmation_denied confirmation_granted : ToolEvent
  execution_started execution_unknown execution_failed execution_completed : ToolEvent

-- What a pipeline is made with.
pub record Wiring : Type 0 where
  pub digest : Digest
  pub declarations : Dict String ToolDeclaration
  pub permissions : Dict String ToolPermission
  pub backends : Dict String (ToolInvocation → Reply)
  pub confirm : Option (ToolInvocation → Option Bool)
  pub tenant_allowed_tools : Option (List String)

-- What a run changes: the budget, the results by key, the history and the events, oldest first.
pub record Pipeline : Type 0 where
  pub budget : BudgetGuard
  pub seen : Dict String ToolOutcome
  pub history : List ToolOutcome
  pub emitted : List (ToolEvent × String)

abbrev emit : Pipeline → ToolEvent → String → Pipeline
emit p event call_id = record p { emitted = p.emitted ++ (event, call_id) ∷ [] }

abbrev outcome_of :
    ToolInvocation → ToolOutcomeStatus → ErrorText → Provenance → ToolPipelineStep → ToolOutcome
outcome_of inv status reason provenance step = record {
  call_id = inv.call_id;
  tool_id = inv.tool_id;
  status = status;
  output = [];
  provenance = provenance;
  error = some reason;
  latency_ms = none;
  step_reached = step;
}

abbrev emit_some : Pipeline → Option ToolEvent → String → Pipeline
emit_some p none call_id = p
emit_some p (some event) call_id = emit p event call_id

-- `_reject`
reject :
    Pipeline
    → ToolInvocation
    → ToolOutcomeStatus
    → ErrorText
    → Option ToolEvent
    → ToolPipelineStep
    → Pipeline × ToolOutcome
reject p inv status reason event step =
    let out = outcome_of inv status reason Provenance.unknown step in
    let p' = emit_some p event inv.call_id in (record p' { history = p'.history ++ out ∷ [] }, out)

-- `self._seen[key] = out`, `if key`.
unfoldable pub remember :
    Dict String ToolOutcome → Option String → ToolOutcome → Dict String ToolOutcome
remember seen none out = seen
remember seen (some key) out = if key == "" then seen else put seen key out

-- Step 10: never stronger than the declaration allows.
unfoldable pub capped : Provenance → Provenance → Provenance
capped actual declared = if leb (strength actual) (strength declared) then actual else declared

-- Steps 9 to 11, on the result's status.
finish :
    Pipeline
    → ToolInvocation
    → ToolDeclaration
    → Option String
    → ToolOutcome
    → ToolOutcomeStatus
    → Pipeline × ToolOutcome
unfolding remember capped
finish p inv decl key out ToolOutcomeStatus.unknown =
    let p' = emit p execution_unknown inv.call_id in
    (record p' { history = p'.history ++ out ∷ [] }, out)
finish p inv decl key out ToolOutcomeStatus.completed =
    let tagged : ToolOutcome = record out {
      provenance = capped out.provenance decl.result_provenance;
      step_reached = ToolPipelineStep.returned;
    } in
    let p' = emit p execution_completed inv.call_id in
    (record p' { seen = remember p'.seen key tagged; history = p'.history ++ tagged ∷ [] }, tagged)
finish p inv decl key out _ =
    let p' = emit p execution_failed inv.call_id in
    (record p' { history = p'.history ++ out ∷ [] }, out)

-- The result of step 8, and what its handlers make of an exception.
unfoldable pub outcome_from : ToolInvocation → Reply → ToolOutcome
outcome_from inv (replied out) = out
outcome_from inv timed_out =
    outcome_of inv ToolOutcomeStatus.timeout (text "timeout") Provenance.tool_verified
      ToolPipelineStep.executing
outcome_from inv (failed_with e) =
    outcome_of inv ToolOutcomeStatus.failed (text e) Provenance.tool_verified
      ToolPipelineStep.executing

-- Step 8.
execute :
    Pipeline
    → ToolInvocation
    → ToolDeclaration
    → ToolPermission
    → Option String
    → Option (ToolInvocation → Reply)
    → Pipeline × ToolOutcome
unfolding reject finish outcome_from count
execute p inv decl perm key none =
    reject p inv ToolOutcomeStatus.failed (text "no backend bound") (some execution_failed)
      ToolPipelineStep.executing
execute p inv decl perm key (some backend) =
    let out = outcome_from inv (backend inv) in
    finish (emit (record p { budget = count p.budget perm.impact }) execution_started inv.call_id)
      inv decl key out out.status

-- Step 7, on the user's answer; nothing stands for None.
answered :
    Wiring
    → Pipeline
    → ToolInvocation
    → ToolDeclaration
    → ToolPermission
    → Option String
    → Option Bool
    → Pipeline × ToolOutcome
unfolding execute reject
answered w p inv decl perm key none = (
  p,
  outcome_of inv ToolOutcomeStatus.confirmation_denied (text "confirmation pending")
      Provenance.tool_verified ToolPipelineStep.confirmation,
)
answered w p inv decl perm key (some true) =
    execute (emit p confirmation_granted inv.call_id) inv decl perm key (get w.backends inv.tool_id)
answered w p inv decl perm key (some false) =
    reject (emit p confirmation_denied inv.call_id) inv ToolOutcomeStatus.confirmation_denied
      (text "user denied") none ToolPipelineStep.confirmation

unfoldable pub ask : Option (ToolInvocation → Option Bool) → ToolInvocation → Option Bool
ask none inv = none
ask (some confirm) inv = confirm inv

confirm_step :
    Wiring
    → Pipeline
    → ToolInvocation
    → ToolDeclaration
    → ToolPermission
    → Option String
    → Confirmation
    → Pipeline × ToolOutcome
unfolding answered ask
confirm_step w p inv decl perm key Confirmation.not_needed =
    execute p inv decl perm key (get w.backends inv.tool_id)
confirm_step w p inv decl perm key Confirmation.confirm_before_execute =
    answered w (emit p confirmation_requested inv.call_id) inv decl perm key (ask w.confirm inv)

-- Step 6: the earlier result under a call's key, if the call has one.
unfoldable pub earlier : Dict String ToolOutcome → Option String → Option ToolOutcome
earlier seen none = none
earlier seen (some key) = if key == "" then none else get seen key

dedup_step :
    Wiring
    → Pipeline
    → ToolInvocation
    → ToolDeclaration
    → ToolPermission
    → Option String
    → Option ToolOutcome
    → Pipeline × ToolOutcome
unfolding confirm_step
dedup_step w p inv decl perm key none = confirm_step w p inv decl perm key perm.confirmation
dedup_step w p inv decl perm key (some prev) =
    let dup : ToolOutcome = record prev {
      call_id = inv.call_id;
      status = ToolOutcomeStatus.duplicate;
      step_reached = ToolPipelineStep.deduplicated;
    } in
    let p' = emit p duplicate_ignored inv.call_id in
    (record p' { history = p'.history ++ dup ∷ [] }, dup)

-- Steps 4 to 6, for a tool that the Activity and the tenant may use.
permitted :
    Wiring → Pipeline → ToolInvocation → ToolDeclaration → ToolPermission → Pipeline × ToolOutcome
unfolding reject dedup_step same_impact allow idempotency_key earlier
permitted w p inv decl perm =
    if not (same_impact perm.impact decl.impact)
    then reject p inv ToolOutcomeStatus.rejected_policy (impact_mismatch perm.impact decl.impact)
        (some policy_rejected) ToolPipelineStep.policy_checked
    else if not (allow p.budget perm.impact)
    then reject p inv ToolOutcomeStatus.rejected_budget (text "tool budget exhausted")
        (some budget_exceeded) ToolPipelineStep.budget_checked
    else let key = idempotency_key w.digest decl inv in
      dedup_step w p inv decl perm key (earlier p.seen key)

-- `self.tenant_allowed_tools is not None and inv.tool_id not in self.tenant_allowed_tools`
unfoldable pub tenant_forbids : Option (List String) → String → Bool
tenant_forbids none tool_id = false
tenant_forbids (some allowed) tool_id = not (contains allowed tool_id)

-- Step 3.
permission_step :
    Wiring
    → Pipeline
    → ToolInvocation
    → ToolDeclaration
    → Option ToolPermission
    → Pipeline × ToolOutcome
unfolding permitted reject tenant_forbids
permission_step w p inv decl none =
    reject p inv ToolOutcomeStatus.rejected_policy (text "tool not permitted for activity/tenant")
      (some policy_rejected) ToolPipelineStep.permission_checked
permission_step w p inv decl (some perm) =
    if tenant_forbids w.tenant_allowed_tools inv.tool_id
    then reject p inv ToolOutcomeStatus.rejected_policy
        (text "tool not permitted for activity/tenant") (some policy_rejected)
        ToolPipelineStep.permission_checked
    else permitted w p inv decl perm

-- Step 2.
schema_step : Wiring → Pipeline → ToolInvocation → Option ToolDeclaration → Pipeline × ToolOutcome
unfolding permission_step reject validate_args
schema_step w p inv none =
    reject p inv ToolOutcomeStatus.rejected_args (text "unknown tool") (some args_invalid)
      ToolPipelineStep.schema_validated
schema_step w p inv (some decl) =
    if is_empty (validate_args decl.parameters inv.arguments)
    then permission_step w p inv decl (get w.permissions inv.tool_id)
    else reject p inv ToolOutcomeStatus.rejected_args
        (invalid_args (validate_args decl.parameters inv.arguments)) (some args_invalid)
        ToolPipelineStep.schema_validated

-- `ToolPipeline.run`, on the invocation that it builds from the call.
unfoldable pub run : Wiring → Pipeline → ToolInvocation → Pipeline × ToolOutcome
unfolding schema_step
run w p inv = schema_step w (emit p tool_requested inv.call_id) inv (get w.declarations inv.tool_id)

unfoldable pub run_all : Wiring → Pipeline → List ToolInvocation → Pipeline
unfolding run
run_all w p [] = p
run_all w p (inv ∷ invs) = run_all w (run w p inv).0 invs
