-- ===== src/Witnesses/Preflight.antt =====
-- The preflight of a concrete outbound blueprint.
use markting_call_center.Base.{[], ◌∷◌, none, some, true, false, ◌==◌, string_eq}
use markting_call_center.Contracts.Provenance.{Provenance}
use markting_call_center.Contracts.Tools.{ToolImpact, Confirmation}
use markting_call_center.Core.Governance.{state_limitation}
use markting_call_center.Contracts.Readiness.{ReadinessState, readiness_eq}
use markting_call_center.Control.Readiness.{ReadinessMachine, ActivationGates}
use markting_call_center.Control.Preflight.Data.{
  ActivityBlueprint, PreflightContext, TextTools, recorded, s2s_mode, ProviderRole, CapabilityState,
}
use markting_call_center.Control.Preflight.Runs.{run}

abbrev text_tools : TextTools
text_tools = record {
  rule_parts = λ raw. (raw, none);
  atoms = λ expr. recorded expr ∷ [];
  before_dot = λ src. none;
  strip = λ t. t;
  upper = λ t. t;
  in_range = λ low name. low == name;
}

abbrev booking : ActivityBlueprint
booking = record {
  required =
      record {
        name = "date";
        is_enum = false;
        has_enum_values = false;
        has_clarification_hint = true;
        provenance_required = Provenance.user_stated;
      }
      ∷ [];
  optional = [];
  flow_steps = "date" ∷ [];
  primary = "BOOKED" ∷ [];
  outcome_fields = record { name = "date"; source_field = none } ∷ [];
  success_rules = "date" ∷ [];
  failure_rules = [];
  exit_rules = [];
  required_tools = "book" ∷ [];
  optional_tools = [];
  permissions =
      (
        "book",
        record { impact = ToolImpact.write; confirmation = Confirmation.confirm_before_execute },
      )
      ∷ [];
  allowed_claims = "hours" ∷ [];
  prohibited_claims = "guarantee" ∷ [];
  unknown_question_policy = record { default = state_limitation; overrides = [] };
  respect_opt_out = true;
  has_opt_out = true;
  escalation = [];
  disclosures = "OPENING" ∷ [];
  contact_policy_hooks = some (record {
    consent_required = true;
    attempt_limit = 3;
    contact_window = some "daytime";
    suppression_ref = none;
  });
  handoff_rules = [];
  requirements = "PARTIAL" ∷ [];
  sources = [];
  pinned_knowledge = [];
  decisions = record { item_path = "greeting"; approved_by = some "operator" } ∷ [];
  questions = [];
  objections = [];
  is_outbound = true;
  channels = "text" ∷ [];
  locale = "ar-EG";
  locale_pack_ref = none;
  pinned_locale_pack = none;
  voice_profile_ref = none;
  pinned_voice_profile = none;
}

abbrev context : PreflightContext
context = record {
  registry = some (
      record {
        adapter = "mock";
        role = ProviderRole.s2s;
        capabilities =
            ("language:any", CapabilityState.supported)
            ∷ ("feature:tool_calls", CapabilityState.partial)
            ∷ [];
      }
      ∷ []);
  composition = some (record {
    mode = s2s_mode;
    bindings = record { role = ProviderRole.s2s; adapter = "mock" } ∷ [];
  });
  enabled_providers = some ("mock" ∷ []);
  tool_declarations =
      (
        "book",
        record {
          tool_id = "book";
          parameters = record { required = []; properties = []; closed = false };
          impact = ToolImpact.write;
          confirmation = Confirmation.confirm_before_execute;
          idempotency_key_fields = [];
          timeout_ms = 1000;
          result_provenance = Provenance.tool_verified;
        },
      )
      ∷ [];
  tenant_allowed_tools = some ("book" ∷ []);
  locale_packs = [];
  voice_profiles = [];
  knowledge_conflicts = [];
  blocked_licenses = [];
  strict_capabilities = true;
}

abbrev waiting : ReadinessMachine
waiting = record {
  activity_id = "a1";
  version = "1.0.0";
  state = ReadinessState.ready_for_activation;
  history = [];
}

abbrev passed : ActivationGates
passed = record {
  schema_valid = true;
  preflight = some (run text_tools context booking);
  simulation_passed = some true;
  all_decisions_approved = true;
  version_frozen = true;
}
