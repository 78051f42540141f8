-- ===== src/Control/Preflight/Policies.antt =====
-- qevion/control/preflight.py: the checks of the tools, the policies, the knowledge, the decisions, the
-- coverage and an outbound contact.
use Prim.Native.String.{◌++◌ as str_append}
use markting_call_center.Base.{
  String, string_eq, Bool, true, false, not, ◌&&◌, ◌||◌, ◌==◌, if◌then◌else◌, is_some, is_empty,
  any, contains, Option, none, some, List, [], ◌∷◌, ◌++◌, get, has_key,
}
use markting_call_center.Contracts.Provenance.{Provenance}
use markting_call_center.Contracts.Readiness.{PreflightReason}
use markting_call_center.Contracts.Tools.{ToolDeclaration, ToolPermission, ToolImpact, Confirmation}
use markting_call_center.Core.Governance.{Behavior, offer_human_handoff}
use markting_call_center.Core.Tools.{same_impact}
use markting_call_center.Control.Preflight.Data.{
  HandoffRule, CoverageQuestion, ActivityBlueprint, PreflightContext, TextTools,
}
use markting_call_center.Control.Preflight.Checks.{Findings, block_if, warn_if, each, names}

-- `allowed is not None and ref.tool_id not in allowed`
abbrev pub is_barred : PreflightContext → String → Bool
is_barred ctx tool_id = elim ctx.tenant_allowed_tools [
  | none ↦ false
  | some allowed ↦ not (contains allowed tool_id)
]

-- `decls and ref.tool_id not in decls`
abbrev pub is_undeclared : PreflightContext → String → Bool
is_undeclared ctx tool_id =
    not (is_empty ctx.tool_declarations) && not (has_key ctx.tool_declarations tool_id)

abbrev pub check_required : PreflightContext → String → Findings
check_required ctx tool_id =
    block_if (is_undeclared ctx tool_id) PreflightReason.missing_required_tool
    ++ block_if (is_barred ctx tool_id) PreflightReason.tool_not_authorized_for_tenant

-- `d.approved_by`
abbrev is_approved : Option String → Bool
is_approved none = false
is_approved (some by) = not (by == "")

abbrev is_waived : ActivityBlueprint → String → Bool
is_waived bp tool_id =
    any
      (λ d.
        d.item_path == str_append "tools.permissions." (str_append tool_id ".confirmation")
        && is_approved d.approved_by)
      bp.decisions

abbrev confirms : Confirmation → Bool
confirms Confirmation.not_needed = false
confirms Confirmation.confirm_before_execute = true

abbrev check_permission :
    ActivityBlueprint → String → ToolPermission → Option ToolDeclaration → Findings
check_permission bp tool_id perm none =
    warn_if (confirms perm.confirmation && same_impact perm.impact ToolImpact.read)
      PreflightReason.incompatible_confirmation_rule
check_permission bp tool_id perm (some decl) =
    block_if (not (same_impact decl.impact perm.impact)) PreflightReason.invalid_config
    ++ block_if
        (same_impact perm.impact ToolImpact.write
          && not (confirms perm.confirmation)
          && confirms decl.confirmation
          && not (is_waived bp tool_id))
        PreflightReason.incompatible_confirmation_rule
    ++ warn_if (confirms perm.confirmation && same_impact perm.impact ToolImpact.read)
        PreflightReason.incompatible_confirmation_rule

abbrev needs_tool : Provenance → Bool
needs_tool Provenance.tool_verified = true
needs_tool _ = false

unfoldable pub check_tools : PreflightContext → ActivityBlueprint → Findings
check_tools ctx bp =
    each (check_required ctx) bp.required_tools
    ++ each (λ t. warn_if (is_barred ctx t) PreflightReason.tool_not_authorized_for_tenant)
        bp.optional_tools
    ++ each (λ p. check_permission bp p.0 p.1 (get ctx.tool_declarations p.0)) bp.permissions
    ++ block_if
        (any (λ s. needs_tool s.provenance_required) bp.required
          && not (has_key bp.permissions "verify_field"))
        PreflightReason.missing_required_tool

abbrev is_handoff : Behavior → Bool
is_handoff offer_human_handoff = true
is_handoff _ = false

abbrev has_no_handoff : ActivityBlueprint → Bool
has_no_handoff bp = not (has_key bp.permissions "request_handoff") && is_empty bp.handoff_rules

-- The claim types that are allowed and prohibited, each once; `sorted` does not change the findings.
unfoldable pub contradictions : List String → List String → Findings
contradictions prohibited [] = []
contradictions prohibited (ct ∷ cts) =
    block_if (contains prohibited ct && not (contains cts ct))
      PreflightReason.contradictory_policies
    ++ contradictions prohibited cts

-- A policy for unknown questions, with its default, is there by the contract.
unfoldable pub check_policies : TextTools → ActivityBlueprint → Findings
check_policies tx bp =
    let uq = bp.unknown_question_policy in
    contradictions bp.prohibited_claims bp.allowed_claims
    ++ each (λ o. block_if (tx.strip o.topic_pattern == "") PreflightReason.invalid_config)
        uq.overrides
    ++ block_if
        ((is_handoff uq.default || any (λ o. is_handoff o.behavior) uq.overrides)
          && has_no_handoff bp)
        PreflightReason.undefined_escalation
    ++ warn_if (bp.respect_opt_out && not bp.has_opt_out) PreflightReason.invalid_config

abbrev check_handoff : TextTools → ActivityBlueprint → HandoffRule → Findings
check_handoff tx bp hr =
    block_if (tx.strip hr.destination_ref == "") PreflightReason.undefined_escalation
    ++ each (λ f. block_if (not (contains (names bp) f)) PreflightReason.undefined_escalation)
        hr.context_projection

unfoldable pub check_escalation : TextTools → ActivityBlueprint → Findings
check_escalation tx bp =
    each
      (λ action.
        block_if (action == "request_handoff" && is_empty bp.handoff_rules)
          PreflightReason.undefined_escalation)
      bp.escalation
    ++ each (check_handoff tx bp) bp.handoff_rules

abbrev needs_knowledge : Provenance → Bool
needs_knowledge Provenance.knowledge_approved = true
needs_knowledge _ = false

unfoldable pub check_knowledge : PreflightContext → ActivityBlueprint → Findings
check_knowledge ctx bp =
    each
      (λ status.
        block_if (status == "MISSING") PreflightReason.missing_required_knowledge
        ++ warn_if (status == "PARTIAL") PreflightReason.missing_required_knowledge)
      bp.requirements
    ++ block_if
        (any (λ s. needs_knowledge s.provenance_required) bp.required && is_empty bp.sources)
        PreflightReason.missing_required_knowledge
    ++ each (λ c. block_if true PreflightReason.unresolved_knowledge_conflict)
        ctx.knowledge_conflicts
    ++ each (λ src. warn_if (not (contains bp.sources src)) PreflightReason.invalid_config)
        bp.pinned_knowledge

unfoldable pub check_decisions : ActivityBlueprint → Findings
check_decisions bp =
    each (λ d. block_if (not (is_some d.approved_by)) PreflightReason.unapproved_business_decision)
      bp.decisions

abbrev goes_to_undeclared : ActivityBlueprint → Option String → Bool
goes_to_undeclared bp none = false
goes_to_undeclared bp (some ref) = not (ref == "") && not (has_key bp.permissions ref)

abbrev check_question : ActivityBlueprint → CoverageQuestion → Findings
check_question bp q =
    let gates = q.handling == "TOOL" || q.handling == "HANDOFF" in
    block_if (q.status == "ASK_OWNER" && gates) PreflightReason.unapproved_business_decision
    ++ warn_if (q.status == "ASK_OWNER" && not gates) PreflightReason.unapproved_business_decision
    ++ block_if (q.handling == "TOOL" && goes_to_undeclared bp q.answer_ref)
        PreflightReason.missing_required_tool
    ++ block_if (q.handling == "HANDOFF" && has_no_handoff bp) PreflightReason.undefined_escalation

unfoldable pub check_coverage : ActivityBlueprint → Findings
check_coverage bp =
    each (check_question bp) bp.questions
    ++ each (λ status. warn_if (status == "ASK_OWNER") PreflightReason.unapproved_business_decision)
        bp.objections

-- `not hooks.contact_window`
abbrev has_window : Option String → Bool
has_window none = false
has_window (some w) = not (w == "")

unfoldable pub check_outbound : TextTools → ActivityBlueprint → Findings
check_outbound tx bp = if not bp.is_outbound then [] else elim bp.contact_policy_hooks [
  | none ↦ block_if true PreflightReason.contact_policy_missing_for_outbound
  | some hooks ↦
      block_if
        (hooks.consent_required && not (any (λ due. tx.upper due == "OPENING") bp.disclosures))
        PreflightReason.contact_policy_missing_for_outbound
      ++ warn_if (not (has_window hooks.contact_window))
          PreflightReason.contact_policy_missing_for_outbound
]
