-- ===== src/Core/Governance.antt =====
-- qevion/core/governance.py, ClaimGovernor, with the policies of qevion/contracts/policy.py and the
-- ruling of qevion/adapters/decision/rules.py, RulesDecisionAdapter._check_claim. `occurs` stands for
-- `pattern.lower() in topic.lower()`.
pub mod Claims
use markting_call_center.Base.{
  ℕ, String, string_eq, Bool, true, false, not, ◌&&◌, ◌||◌, ◌==◌, if◌then◌else◌, Option, none, some,
  List, [], ◌∷◌, ◌++◌, map, contains, Dict, get, put,
}
use markting_call_center.Contracts.Provenance.{Provenance, provenance_value}
use markting_call_center.Core.Fields.{is_unusable}

pub data Behavior : Type 0 where
  answer_from_approved_knowledge ask_clarifying_question state_limitation : Behavior
  use_authorized_tool ask_operator_source offer_human_handoff collect_question : Behavior
  request_additional_information close_gracefully decline_unsupported_request : Behavior

-- `source_requirement`, where it is not None.
pub data SourceRequirement : Type 0 where
  knowledge_approved tool_verified any_approved : SourceRequirement

unfoldable pub requirement_value : SourceRequirement → String
requirement_value SourceRequirement.knowledge_approved = "KNOWLEDGE_APPROVED"
requirement_value SourceRequirement.tool_verified = "TOOL_VERIFIED"
requirement_value SourceRequirement.any_approved = "ANY_APPROVED"

pub record ClaimRule : Type 0 where
  pub claim_type : String
  pub source_requirement : Option SourceRequirement

pub record BehaviorOverride : Type 0 where
  pub topic_pattern : String
  pub behavior : Behavior

pub record UnknownQuestionPolicy : Type 0 where
  pub default : Behavior
  pub overrides : List BehaviorOverride

pub record UncertaintyPolicy : Type 0 where
  pub missing : Behavior
  pub conflicting : Behavior
  pub stale : Behavior
  pub ambiguous : Behavior

pub record PolicyBlock : Type 0 where
  pub allowed_claims : List ClaimRule
  pub prohibited_claims : List ClaimRule
  pub unknown_question_policy : UnknownQuestionPolicy
  pub uncertainty_policy : UncertaintyPolicy

pub data ClaimState : Type 0 where
  allowed blocked unknown : ClaimState

pub data ClaimAction : Type 0 where
  speak : ClaimAction
  apply : Behavior → ClaimAction

pub record ClaimCheck : Type 0 where
  pub claim_type : String
  pub state : ClaimState
  pub action : ClaimAction

pub record ClaimDecisionEntry : Type 0 where
  pub ts_ms : ℕ
  pub claim_type : String
  pub state : ClaimState
  pub action : ClaimAction

pub record ClaimGovernor : Type 0 where
  pub policies : PolicyBlock
  pub log : List ClaimDecisionEntry

-- What a decision port says of a claim: its source is UNKNOWN, its value is "allowed", or another.
pub data ClaimRuling : Type 0 where
  undecided ruled_allowed ruled_blocked : ClaimRuling

-- `_allowed_map`: of two rules for one type the later one counts.
unfoldable pub allowed_from :
    Dict String (Option SourceRequirement) → List ClaimRule → Dict String (Option SourceRequirement)
allowed_from d [] = d
allowed_from d (c ∷ cs) = allowed_from (put d c.claim_type c.source_requirement) cs

unfoldable pub allowed_map : PolicyBlock → Dict String (Option SourceRequirement)
unfolding allowed_from
allowed_map p = allowed_from [] p.allowed_claims

unfoldable pub prohibited : PolicyBlock → List String
prohibited p = map (λ (c : ClaimRule). c.claim_type) p.prohibited_claims

-- The `ok` of `_check_claim`.
abbrev pub is_sourced : Option SourceRequirement → String → Bool
unfolding requirement_value
is_sourced none provenance = true
is_sourced (some need) provenance =
    requirement_value need == "ANY_APPROVED"
      && contains ("KNOWLEDGE_APPROVED" ∷ "TOOL_VERIFIED" ∷ []) provenance
    || requirement_value need == provenance

abbrev pub by_source : Option (Option SourceRequirement) → String → ClaimRuling
unfolding requirement_value
by_source none provenance = ruled_blocked
by_source (some need) provenance =
    if is_sourced need provenance then ruled_allowed else ruled_blocked

-- What a port is asked: the claim, its provenance, and the claims that are allowed and prohibited.
abbrev pub ClaimPort : Type 0
ClaimPort = String → String → Dict String (Option SourceRequirement) → List String → ClaimRuling

-- `RulesDecisionAdapter._check_claim`
unfoldable pub check_claim : ClaimPort
unfolding requirement_value
check_claim claim_type provenance rules barred =
    if contains barred claim_type
    then ruled_blocked
    else by_source (get rules claim_type) provenance

module _ (occurs : String → String → Bool) where
  unfoldable pub overriding : List BehaviorOverride → String → Behavior → Behavior
  overriding [] topic default = default
  overriding (o ∷ os) topic default =
      let rest = overriding os topic default in
      if occurs o.topic_pattern topic then o.behavior else rest

  unfoldable pub behavior_for_unknown_topic : PolicyBlock → String → Behavior
  unfolding overriding
  behavior_for_unknown_topic p topic =
      overriding p.unknown_question_policy.overrides topic p.unknown_question_policy.default

  unfoldable pub miss_behavior : PolicyBlock → String → Provenance → Behavior
  unfolding overriding is_unusable
  miss_behavior p claim_type provenance =
      if is_unusable provenance
      then p.uncertainty_policy.missing
      else overriding p.unknown_question_policy.overrides claim_type
          p.unknown_question_policy.default

  -- The ClaimCheck of `check` on a ruling.
  judged : PolicyBlock → String → Provenance → ClaimRuling → ClaimCheck
  unfolding miss_behavior
  judged p claim_type provenance undecided = record {
    claim_type = claim_type;
    state = ClaimState.unknown;
    action = apply p.uncertainty_policy.ambiguous;
  }
  judged p claim_type provenance ruled_allowed = record {
    claim_type = claim_type;
    state = ClaimState.allowed;
    action = speak;
  }
  judged p claim_type provenance ruled_blocked = record {
    claim_type = claim_type;
    state = ClaimState.blocked;
    action = apply (miss_behavior p claim_type provenance);
  }

  unfoldable pub check :
      ClaimPort → ClaimGovernor → String → Provenance → ℕ → ClaimGovernor × ClaimCheck
  unfolding judged allowed_map prohibited
  check decide g claim_type provenance ts_ms =
      let c = judged g.policies claim_type provenance (
        decide claim_type (provenance_value provenance) (allowed_map g.policies)
          (prohibited g.policies)) in
      let entry : ClaimDecisionEntry = record {
        ts_ms = ts_ms;
        claim_type = claim_type;
        state = c.state;
        action = c.action;
      } in
      (record g { log = g.log ++ entry ∷ [] }, c)
