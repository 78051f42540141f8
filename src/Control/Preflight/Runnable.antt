-- ===== src/Control/Preflight/Runnable.antt =====
-- What the preflight asks of the composition.
use markting_call_center.Base.{
  String, string_eq, Bool, true, false, contains, Option, none, some, List, All, All-map, ◌≡◌, ◌≢◌,
  Option-cases, inl, inr,
}
use markting_call_center.Control.Preflight.Data.{
  ActivityBlueprint, PreflightContext, Composition, AdapterBinding, AdapterCapabilities,
  CapabilityState,
}
use markting_call_center.Control.Preflight.Bindings.{
  Wanted, bound, find, known_state, judge, wanted, check_wanted, check_enabled, check_registry,
  check_composition, check_licenses,
}
use markting_call_center.Control.Preflight.Clear.{
  IsClear, IsClear-append, IsClear-each, IsClear-each_block,
}

-- What the registry says of a capability of the adapter that is bound to its role.
pub record IsCapable (is_strict : Bool) (bindings : List AdapterBinding)
    (registry : List AdapterCapabilities) (w : Wanted) : Type 0 where
  pub adapter : String
  pub is_bound : bound bindings w.role ≡ some adapter
  pub not_unsupported : known_state w (find registry w.role adapter) ≢ CapabilityState.unsupported
  pub is_verified :
      is_strict ≡ true → known_state w (find registry w.role adapter) ≢ CapabilityState.unverified

judged_clear :
    (is_strict : Bool) (w : Wanted) (s : CapabilityState)
    → IsClear (judge is_strict w s)
    → (s ≢ CapabilityState.unsupported) × (is_strict ≡ true → s ≢ CapabilityState.unverified)
unfolding IsClear
judged_clear is_strict w CapabilityState.supported h = (λ e. cc e, λ t e. cc e)
judged_clear is_strict w CapabilityState.partial h = (λ e. cc e, λ t e. cc e)
judged_clear is_strict w CapabilityState.unsupported h = absurd (cc h)
judged_clear true w CapabilityState.unverified h = absurd (cc h)
judged_clear false w CapabilityState.unverified h = (λ e. cc e, λ t. absurd (cc t))

check_wanted-IsCapable :
    (is_strict : Bool) (bindings : List AdapterBinding) (registry : List AdapterCapabilities)
    → (w : Wanted) → IsClear (check_wanted is_strict bindings registry w)
    → IsCapable is_strict bindings registry w
unfolding IsClear check_wanted
check_wanted-IsCapable is_strict bindings registry w h =
    elim (Option-cases (bound bindings w.role)) [
      | inl e ↦ absurd (cc (rw (check_wanted, e) at h))
      | inr (adapter, e) ↦
          let (s, v) = judged_clear is_strict w _ (rw (check_wanted, e) at h) in
          record { adapter = adapter; is_bound = e; not_unsupported = s; is_verified = v }
    ]

-- What the composition that a READY blueprint runs on has.
pub record IsRunnable (ctx : PreflightContext) (bp : ActivityBlueprint) (comp : Composition)
    : Type 0 where
  pub registry : List AdapterCapabilities
  pub has_registry : ctx.registry ≡ some registry
  pub capable : All (IsCapable ctx.strict_capabilities comp.bindings registry) (wanted bp comp.mode)
  pub licensed : All (λ b. contains ctx.blocked_licenses b.adapter ≡ false) comp.bindings

pub check_composition-IsRunnable :
    (ctx : PreflightContext) (bp : ActivityBlueprint) (o : Option Composition)
    → ctx.composition ≡ o
    → IsClear (check_composition ctx bp o)
    → IsClear (check_licenses ctx bp)
    → (comp : Composition) × (ctx.composition ≡ some comp) × IsRunnable ctx bp comp
unfolding IsClear check_composition check_licenses check_registry
check_composition-IsRunnable ctx bp none q h l = absurd (cc h)
check_composition-IsRunnable ctx bp (some comp) q h l =
    let second = (IsClear-append (check_enabled ctx.enabled_providers comp.bindings) _ h).1 in
    elim (Option-cases ctx.registry) [
      | inl e ↦ absurd (cc (rw e at second))
      | inr (registry, e) ↦ (
        comp,
        q,
        record {
          registry = registry;
          has_registry = e;
          capable =
              All-map (check_wanted-IsCapable ctx.strict_capabilities comp.bindings registry)
                (wanted bp comp.mode) (IsClear-each _ _ (rw e at second));
          licensed = IsClear-each_block _ _ comp.bindings (rw q at l);
        },
      )
    ]
