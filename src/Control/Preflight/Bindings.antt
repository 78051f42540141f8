-- ===== src/Control/Preflight/Bindings.antt =====
-- qevion/control/preflight.py: the checks of the composition, the locale, the voice and the licenses.
use Prim.Native.String.{◌++◌ as str_append}
use markting_call_center.Base.{
  String, string_eq, Bool, true, false, not, ◌&&◌, ◌==◌, if◌then◌else◌, is_empty, any, contains,
  or_else, Option, none, some, List, [], ◌∷◌, ◌++◌, get, holds,
}
use markting_call_center.Contracts.Readiness.{PreflightReason}
use markting_call_center.Control.Preflight.Data.{
  ActivityBlueprint, PreflightContext, Composition, CompositionMode, s2s_mode, cascade_mode,
  AdapterBinding, AdapterCapabilities, ProviderRole, CapabilityState,
}
use markting_call_center.Control.Preflight.Checks.{Findings, block_if, warn_if, each}

ProviderRole-discrete : Discrete ProviderRole
ProviderRole-discrete = hlevel

role_beq : ProviderRole → ProviderRole → Bool
unfolding ProviderRole-discrete
role_beq a b = holds (ProviderRole-discrete a b)

-- `_VOICE_CHANNELS`
abbrev is_voice : ActivityBlueprint → Bool
is_voice bp = any (contains ("browser_voice" ∷ "telephony" ∷ [])) bp.channels

-- `next((x for x in comp.bindings if x.role == role), None)`
unfoldable pub bound : List AdapterBinding → ProviderRole → Option String
unfolding role_beq
bound [] role = none
bound (b ∷ bs) role =
    let rest = bound bs role in if role_beq b.role role then some b.adapter else rest

-- `CapabilityRegistry.find`
unfoldable pub find : List AdapterCapabilities → ProviderRole → String → Option AdapterCapabilities
unfolding role_beq
find [] role adapter = none
find (a ∷ others) role adapter =
    let rest = find others role adapter in
    if role_beq a.role role && a.adapter == adapter then some a else rest

-- `AdapterCapabilities.state_of`
unfoldable pub state_of : AdapterCapabilities → String → CapabilityState
state_of a name = or_else (get a.capabilities name) CapabilityState.unverified

abbrev is_unverified : CapabilityState → Bool
is_unverified CapabilityState.unverified = true
is_unverified _ = false

-- A capability that a composition must have; `is_language` says that its name starts so.
pub record Wanted : Type 0 where
  pub role : ProviderRole
  pub name : String
  pub is_language : Bool
  pub reason : PreflightReason

-- The state of a capability: a language falls back to `language:any`.
abbrev pub known_state : Wanted → Option AdapterCapabilities → CapabilityState
known_state w none = CapabilityState.unverified
known_state w (some a) =
    if w.is_language && is_unverified (state_of a w.name)
    then state_of a "language:any"
    else state_of a w.name

abbrev pub judge : Bool → Wanted → CapabilityState → Findings
judge strict w CapabilityState.supported = []
judge strict w CapabilityState.partial = warn_if true w.reason
judge strict w CapabilityState.unsupported = block_if true w.reason
judge strict w CapabilityState.unverified =
    block_if strict PreflightReason.provider_capability_unavailable
    ++ warn_if (not strict) PreflightReason.provider_capability_unavailable

unfoldable pub check_wanted :
    Bool → List AdapterBinding → List AdapterCapabilities → Wanted → Findings
check_wanted strict bindings registry w = elim (bound bindings w.role) [
  | none ↦ block_if true PreflightReason.invalid_config
  | some adapter ↦ judge strict w (known_state w (find registry w.role adapter))
]

abbrev language : ActivityBlueprint → ProviderRole → Wanted
language bp role = record {
  role = role;
  name = str_append "language:" bp.locale;
  is_language = true;
  reason = PreflightReason.unsupported_locale_combination;
}

abbrev feature : ProviderRole → String → Wanted
feature role name = record {
  role = role;
  name = name;
  is_language = false;
  reason = PreflightReason.unsupported_capability;
}

abbrev when_wanted : Bool → List Wanted → List Wanted
when_wanted true ws = ws
when_wanted false ws = []

unfoldable pub wanted : ActivityBlueprint → CompositionMode → List Wanted
wanted bp s2s_mode =
    language bp ProviderRole.s2s
      ∷ when_wanted (not (is_empty bp.required_tools && is_empty bp.optional_tools))
          (feature ProviderRole.s2s "feature:tool_calls" ∷ [])
    ++ when_wanted (is_voice bp) (
        feature ProviderRole.s2s "audio:pcm16_24k"
        ∷ feature ProviderRole.s2s "feature:barge_in"
        ∷ feature ProviderRole.turn "feature:barge_in"
        ∷ [])
wanted bp cascade_mode =
    language bp ProviderRole.asr
      ∷ language bp ProviderRole.tts
      ∷ when_wanted (not (is_empty bp.required_tools && is_empty bp.optional_tools))
          (feature ProviderRole.llm "feature:tool_calls" ∷ [])
    ++ when_wanted (is_voice bp) (feature ProviderRole.turn "feature:barge_in" ∷ [])

abbrev is_provider : ProviderRole → Bool
is_provider ProviderRole.turn = false
is_provider ProviderRole.decision = false
is_provider _ = true

abbrev pub check_enabled : Option (List String) → List AdapterBinding → Findings
check_enabled none bindings = []
check_enabled (some enabled) bindings =
    each
      (λ b.
        block_if (not (contains enabled b.adapter) && is_provider b.role)
          PreflightReason.provider_capability_unavailable)
      bindings

unfoldable pub check_registry :
    PreflightContext
    → ActivityBlueprint
    → Composition
    → Option (List AdapterCapabilities)
    → Findings
unfolding check_wanted wanted
check_registry ctx bp comp none = block_if true PreflightReason.unsupported_capability
check_registry ctx bp comp (some registry) =
    each (check_wanted ctx.strict_capabilities comp.bindings registry) (wanted bp comp.mode)

-- `_channels_and_composition`; that a channel is one of Channel is given by the contract.
unfoldable pub check_composition :
    PreflightContext → ActivityBlueprint → Option Composition → Findings
unfolding check_registry
check_composition ctx bp none = block_if true PreflightReason.invalid_config
check_composition ctx bp (some comp) =
    check_enabled ctx.enabled_providers comp.bindings ++ check_registry ctx bp comp ctx.registry

-- `a or b` on optional references, where the empty text counts as none.
abbrev first_ref : Option String → Option String → Option String
first_ref none b = elim b [ none ↦ none | some t ↦ if t == "" then none else some t ]
first_ref (some a) b =
    if a == "" then elim b [ none ↦ none | some t ↦ if t == "" then none else some t ] else some a

abbrev check_pack : PreflightContext → ActivityBlueprint → Option String → Findings
check_pack ctx bp none =
    warn_if (not (is_empty ctx.locale_packs)) PreflightReason.unsupported_locale_combination
check_pack ctx bp (some ref) = elim (get ctx.locale_packs ref) [
  | none ↦ block_if true PreflightReason.unsupported_locale_combination
  | some locale ↦
      block_if (not (locale == bp.locale)) PreflightReason.unsupported_locale_combination
]

abbrev speaking_role : CompositionMode → ProviderRole
speaking_role s2s_mode = ProviderRole.s2s
speaking_role cascade_mode = ProviderRole.tts

-- The adapter that speaks must have a voice; that the role is bound is given by the contract.
abbrev check_adapter : List String → Option Composition → Findings
check_adapter voices none = []
check_adapter voices (some comp) = elim (bound comp.bindings (speaking_role comp.mode)) [
  | none ↦ []
  | some adapter ↦ block_if (not (contains voices adapter)) PreflightReason.voice_unavailable
]

abbrev check_profile : PreflightContext → Option String → Findings
check_profile ctx none = block_if true PreflightReason.voice_unavailable
check_profile ctx (some ref) = elim (get ctx.voice_profiles ref) [
  | none ↦ block_if true PreflightReason.voice_unavailable
  | some voices ↦ check_adapter voices ctx.composition
]

unfoldable pub check_locale_and_voice : PreflightContext → ActivityBlueprint → Findings
check_locale_and_voice ctx bp =
    check_pack ctx bp (first_ref bp.locale_pack_ref bp.pinned_locale_pack)
    ++ (if is_voice bp
        then check_profile ctx (first_ref bp.voice_profile_ref bp.pinned_voice_profile)
        else [])

abbrev check_adapters : List String → Option Composition → Findings
check_adapters blocked none = []
check_adapters blocked (some comp) =
    each (λ b. block_if (contains blocked b.adapter) PreflightReason.license_blocked_component)
      comp.bindings

unfoldable pub check_licenses : PreflightContext → ActivityBlueprint → Findings
check_licenses ctx bp = check_adapters ctx.blocked_licenses ctx.composition
