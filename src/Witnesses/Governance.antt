-- ===== src/Witnesses/Governance.antt =====
-- The claim governor at concrete policies.
use markting_call_center.Base.{String, string_eq, Bool, ◌==◌, none, some, [], ◌∷◌, ◌≡◌, refl}
use markting_call_center.Contracts.Provenance.{Provenance, provenance_value}
use markting_call_center.Core.Governance.{
  SourceRequirement, Behavior, ClaimGovernor, speak, check, check_claim, allowed_map, prohibited,
  requirement_value,
}
use markting_call_center.Core.Governance.Claims.{IsBacked, check-IsBacked}

abbrev same_text : String → String → Bool
same_text a b = a == b

abbrev governor : ClaimGovernor
governor = record {
  policies = record {
    allowed_claims =
        record { claim_type = "price"; source_requirement = some SourceRequirement.any_approved }
        ∷ [];
    prohibited_claims = record { claim_type = "guarantee"; source_requirement = none } ∷ [];
    unknown_question_policy = record { default = Behavior.state_limitation; overrides = [] };
    uncertainty_policy = record {
      missing = Behavior.collect_question;
      conflicting = Behavior.offer_human_handoff;
      stale = Behavior.offer_human_handoff;
      ambiguous = Behavior.ask_clarifying_question;
    };
  };
  log = [];
}

price_spoken :
    (check same_text check_claim governor "price" Provenance.tool_verified 4).1.action ≡ speak
unfolding check check_claim allowed_map prohibited requirement_value provenance_value
price_spoken = refl

check-IsBacked_example : IsBacked governor.policies "price" Provenance.tool_verified
check-IsBacked_example =
    check-IsBacked same_text governor "price" Provenance.tool_verified 4 price_spoken
