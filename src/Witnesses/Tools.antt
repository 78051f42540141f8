-- ===== src/Witnesses/Tools.antt =====
-- The tool pipeline at concrete inputs: one declared write tool with its backend.
use markting_call_center.Base.{
  ℕ, ◌≤◌, String, [], ◌∷◌, none, some, ◌≡◌, ◌≢◌, ◌↔◌, refl, true, false, All, string_eq, ◌==◌,
  if◌then◌else◌, Bool-cases, inl, inr, arith, get, has_key, Dict, ◌+◌,
}
use markting_call_center.Contracts.Provenance.{Provenance, strength}
use markting_call_center.Contracts.Values.{Value, ℤ}
use markting_call_center.Contracts.Tools.{
  ToolImpact, Confirmation, Schema, ToolDeclaration, ToolPermission, ToolInvocation,
  ToolOutcomeStatus, ToolPipelineStep, is_completed,
}
use markting_call_center.Core.Arguments.{validate_args}
use markting_call_center.Core.Arguments.Laws.{IsAccepted, validate_args-nil}
use markting_call_center.Core.Tools.{
  Wiring, Pipeline, Payload, Reply, run, run_all, payload, is_read, allow, is_write, same_impact,
  ask, outcome_from, earlier, tenant_forbids, idempotency_key,
}
use markting_call_center.Core.Tools.Cases.{IsAuthorized}
use markting_call_center.Core.Tools.Budget.{IsWithin, added, write_executions, run_all-IsWithin}
use markting_call_center.Core.Tools.Authority.{run-IsAuthorized}
use markting_call_center.Core.Tools.Strengths.{run-strength}
use markting_call_center.Core.Tools.Duplicates.{run_once}

abbrev booking_schema : Schema
booking_schema = record {
  required = "day" ∷ [];
  properties = ("day", some "integer") ∷ ("note", none) ∷ [];
  closed = true;
}

abbrev day : ℕ → Dict String Value
day n = ("day", Value.int (ℤ.pos n)) ∷ []

validate_args-nil_example : (validate_args booking_schema (day 3) ≡ []) ↔ (
    All (λ r. has_key (day 3) r ≡ true) booking_schema.required
    × All (λ a. IsAccepted booking_schema a.0 a.1) (day 3))
validate_args-nil_example = validate_args-nil booking_schema (day 3)

abbrev booking : ToolDeclaration
booking = record {
  tool_id = "book";
  parameters = booking_schema;
  impact = ToolImpact.write;
  confirmation = Confirmation.confirm_before_execute;
  idempotency_key_fields = [];
  timeout_ms = 8000;
  result_provenance = Provenance.system_derived;
}

abbrev booked : ToolInvocation → Reply
booked inv = Reply.replied (record {
  call_id = inv.call_id;
  tool_id = inv.tool_id;
  status = ToolOutcomeStatus.completed;
  output = [];
  provenance = Provenance.tool_verified;
  error = none;
  latency_ms = none;
  step_reached = ToolPipelineStep.executing;
})

abbrev digest : String → String → Payload → String
digest session_id tool_id q = if tool_id == "book" then "book-key" else "other-key"

abbrev wiring : Wiring
wiring = record {
  digest = digest;
  declarations = ("book", booking) ∷ [];
  permissions =
      (
        "book",
        record { impact = ToolImpact.write; confirmation = Confirmation.confirm_before_execute },
      )
      ∷ [];
  backends = ("book", booked) ∷ [];
  confirm = some (λ inv. some true);
  tenant_allowed_tools = none;
}

abbrev fresh : Pipeline
fresh = record {
  budget = record { max_calls = 5; max_write_calls = 2; calls = 0; write_calls = 0 };
  seen = [];
  history = [];
  emitted = [];
}

abbrev book : String → ToolInvocation
book call_id = record {
  call_id = call_id;
  tool_id = "book";
  arguments = day 3;
  session_id = "s1";
  tenant_id = "t1";
  activity_id = "a1";
  turn_id = none;
  requested_at_ms = 7;
}

books : is_completed (run wiring fresh (book "c1")).1.status ≡ true
unfolding run allow is_write is_read same_impact ask outcome_from earlier tenant_forbids
    idempotency_key validate_args is_completed
books = refl

fresh-IsWithin : IsWithin 5 2 fresh.budget
fresh-IsWithin = record {
  same_calls = refl;
  same_writes = refl;
  calls_capped = omega arith;
  writes_capped = omega arith;
  writes_are_calls = omega arith;
}

run_all-IsWithin_example :
    let invs = book "c1" ∷ book "c2" ∷ [] in
    (added wiring 5 2 fresh (run_all wiring fresh invs) + fresh.budget.calls ≤ 5)
    × (write_executions wiring 5 2 fresh invs + fresh.budget.write_calls ≤ 2)
    × IsWithin 5 2 (run_all wiring fresh invs).budget
run_all-IsWithin_example =
    run_all-IsWithin wiring 5 2 fresh (book "c1" ∷ book "c2" ∷ []) fresh-IsWithin

run-IsAuthorized_example :
    (decl : ToolDeclaration) × (perm : ToolPermission) × (backend : (ToolInvocation → Reply))
    × IsAuthorized wiring fresh.budget fresh.seen (book "c1") decl perm backend
run-IsAuthorized_example = run-IsAuthorized wiring fresh (book "c1") (inr books)

run-strength_example :
    (decl : ToolDeclaration) × (get wiring.declarations "book" ≡ some decl)
    × (strength (run wiring fresh (book "c1")).1.provenance ≤ strength decl.result_provenance)
run-strength_example = run-strength wiring fresh (book "c1") books

digest_text : (session_id tool_id : String) (q : Payload) → digest session_id tool_id q ≢ ""
digest_text session_id tool_id q = elim (Bool-cases (tool_id == "book")) [
  | inl t ↦ rw t (λ e. cc e)
  | inr f ↦ rw f (λ e. cc e)
]

run_once_example :
    let p' = run_all wiring (run wiring fresh (book "c1")).0 (book "c2" ∷ []) in
    ((run wiring p' (book "c3")).0.budget ≡ p'.budget)
    × (is_completed (run wiring p' (book "c3")).1.status ≡ false)
unfolding is_read payload
run_once_example =
    run_once wiring fresh (book "c1") (book "c3") (book "c2" ∷ []) booking digest_text refl refl
      books refl refl refl
