-- ===== src/Control/Preflight/Ready.antt =====
-- What a blueprint has that the preflight reports as READY.
use markting_call_center.Base.{
  String, string_eq, true, false, is_some, contains, some, List, [], ◌∷◌, ◌++◌, All, ◌≡◌,
}
use markting_call_center.Control.Preflight.Data.{
  FieldEntry, ActivityBlueprint, PreflightContext, Composition,
}
use markting_call_center.Control.Preflight.Checks.{names}
use markting_call_center.Control.Preflight.Policies.{is_barred, is_undeclared}
use markting_call_center.Control.Preflight.Runnable.{IsRunnable}

-- Every field has another name than those before it.
pub IsDistinct : List String → List FieldEntry → Type 0
IsDistinct seen [] = Unit
IsDistinct seen (s ∷ ss) = (contains seen s.name ≡ false) × IsDistinct (s.name ∷ seen) ss

-- Some of what the checks of a blueprint guard.
pub record IsCleared (ctx : PreflightContext) (bp : ActivityBlueprint) : Type 0 where
  pub distinct : IsDistinct [] (bp.required ++ bp.optional)
  pub steps_known : All (λ step. contains (names bp) step ≡ true) bp.flow_steps
  pub decided : All (λ d. is_some d.approved_by ≡ true) bp.decisions
  pub consistent : All (λ c. contains bp.prohibited_claims c ≡ false) bp.allowed_claims
  pub equipped :
      All (λ t. (is_undeclared ctx t ≡ false) × (is_barred ctx t ≡ false)) bp.required_tools
  pub hooked : bp.is_outbound ≡ true → is_some bp.contact_policy_hooks ≡ true
  pub composition : Composition
  pub composed : ctx.composition ≡ some composition
  pub runnable : IsRunnable ctx bp composition
