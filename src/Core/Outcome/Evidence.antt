-- ===== src/Core/Outcome/Evidence.antt =====
-- When an outcome says that the interaction was completed.
use markting_call_center.Base.{
  String, string_eq, ◌≢◌, true, Option, some, List, get_elem?, ◌≡◌, ◌⊎◌,
}
use markting_call_center.Core.Outcome.{CompletionVerdict}

-- The reasons for an outcome that says the interaction was completed.
abbrev pub Earned : List String → CompletionVerdict → Type 0
Earned allowed v =
    (get_elem? allowed 0 ≡ some "completed")
    ⊎ (v.success ≡ some true) × (v.failure ≢ some true)
    ⊎ (v.exit_value ≡ some "completed")
