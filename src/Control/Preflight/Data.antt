-- ===== src/Control/Preflight/Data.antt =====
-- What qevion/control/preflight.py reads of a blueprint and of its context. A text that a check only
-- tests for being there is an option, or a Boolean.
use markting_call_center.Base.{String, Bool, Option, List, Dict}
use markting_call_center.Contracts.Provenance.{Provenance}
use markting_call_center.Contracts.Tools.{ToolDeclaration, ToolPermission}
use markting_call_center.Control.Contact.{ContactPolicyHooks}
use markting_call_center.Core.Governance.{UnknownQuestionPolicy}

pub record FieldEntry : Type 0 where
  pub name : String
  pub is_enum : Bool
  pub has_enum_values : Bool
  pub has_clarification_hint : Bool
  pub provenance_required : Provenance

pub record OutcomeField : Type 0 where
  pub name : String
  pub source_field : Option String

pub record Decision : Type 0 where
  pub item_path : String
  pub approved_by : Option String

pub record HandoffRule : Type 0 where
  pub destination_ref : String
  pub context_projection : List String

pub record CoverageQuestion : Type 0 where
  pub status : String
  pub handling : String
  pub answer_ref : Option String

pub record ActivityBlueprint : Type 0 where
  pub required : List FieldEntry
  pub optional : List FieldEntry
  pub flow_steps : List String  -- none where the flow is not enabled
  pub primary : List String
  pub outcome_fields : List OutcomeField
  pub success_rules : List String
  pub failure_rules : List String
  pub exit_rules : List String
  pub required_tools : List String
  pub optional_tools : List String
  pub permissions : Dict String ToolPermission
  pub allowed_claims : List String
  pub prohibited_claims : List String
  pub unknown_question_policy : UnknownQuestionPolicy
  pub respect_opt_out : Bool
  pub has_opt_out : Bool
  pub escalation : List String  -- the actions
  pub disclosures : List String  -- when each is due
  pub contact_policy_hooks : Option ContactPolicyHooks
  pub handoff_rules : List HandoffRule
  pub requirements : List String  -- the status of each
  pub sources : List String
  pub pinned_knowledge : List String
  pub decisions : List Decision
  pub questions : List CoverageQuestion
  pub objections : List String  -- the status of each
  pub is_outbound : Bool
  pub channels : List String
  pub locale : String
  pub locale_pack_ref : Option String
  pub pinned_locale_pack : Option String
  pub voice_profile_ref : Option String
  pub pinned_voice_profile : Option String

pub data ProviderRole : Type 0 where
  s2s llm asr tts turn decision : ProviderRole

pub data CapabilityState : Type 0 where
  supported partial unsupported unverified : CapabilityState

pub data CompositionMode : Type 0 where
  s2s_mode cascade_mode : CompositionMode

pub record AdapterBinding : Type 0 where
  pub role : ProviderRole
  pub adapter : String

pub record Composition : Type 0 where
  pub mode : CompositionMode
  pub bindings : List AdapterBinding

pub record AdapterCapabilities : Type 0 where
  pub adapter : String
  pub role : ProviderRole
  pub capabilities : Dict String CapabilityState

pub record PreflightContext : Type 0 where
  pub registry : Option (List AdapterCapabilities)
  pub composition : Option Composition
  pub enabled_providers : Option (List String)  -- of the tenant
  pub tool_declarations : Dict String ToolDeclaration
  pub tenant_allowed_tools : Option (List String)
  pub locale_packs : Dict String String  -- the locale of each
  pub voice_profiles : Dict String (List String)  -- the adapters of each
  pub knowledge_conflicts : List String
  pub blocked_licenses : List String
  pub strict_capabilities : Bool

-- A rule atom, as the expression of `_RULE_ATOM` reads it.
pub data RuleAtom : Type 0 where
  not_evaluable : RuleAtom
  recorded accepted compared flag : String → RuleAtom
  range_recorded : (low : String) → RuleAtom

-- The text library: `partition("=>")` with the part behind the arrow stripped, where there is one;
-- the atoms of an expression; the part before the first dot; `strip` and `upper`; and whether a name
-- starts with another without its digits at the end.
pub record TextTools : Type 0 where
  pub rule_parts : String → String × Option String
  pub atoms : String → List RuleAtom
  pub before_dot : String → Option String
  pub strip : String → String
  pub upper : String → String
  pub in_range : (low name : String) → Bool
