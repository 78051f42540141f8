-- ===== src/Witnesses/Control.antt =====
-- The readiness lifecycle at a concrete version, and a concrete outbound contact.
use markting_call_center.Base.{
  ◌*◌, String, List, [], ◌∷◌, some, Option, ◌≡◌, ◌≢◌, ◌⊎◌, refl, true, false,
}
use markting_call_center.Contracts.Readiness.{
  ReadinessState, PreflightResult, readiness_transitions, can_transition, readiness_eq,
}
use markting_call_center.Control.Contact.{
  ContactPolicyHooks, ContactState, Window, evaluate_contact, refusals_of, in_window,
  in_read_window,
}
use markting_call_center.Control.Contact.Refusals.{IsAllowed, evaluate_contact-IsAllowed}
use markting_call_center.Control.Readiness.{
  ReadinessMachine, ActivationGates, activate, edited, apply_preflight, apply_simulation,
  transition, can, path_to, preflight_target, unmet, done, ReadinessChange,
}
use markting_call_center.Control.Readiness.Chains.{Grows, Anything, Call, run, step, run-Grows}
use markting_call_center.Control.Readiness.Gates.{
  IsGated, IsReadiedSince, step-IsGated, run-IsReadied, edited-IsReadied, Edits, edited_outcome,
}

abbrev version_at : ReadinessState → ReadinessMachine
version_at s = record { activity_id = "a1"; version = "1.0.0"; state = s; history = [] }

abbrev passed : PreflightResult
passed = record { is_ready = true; findings = [] }

abbrev gates : ActivationGates
gates = record {
  schema_valid = true;
  preflight = some passed;
  simulation_passed = some true;
  all_decisions_approved = true;
  version_frozen = true;
}

abbrev release : List Call
release =
    Call.preflight passed "p1" "control"
    ∷ Call.simulation true "s1" "control"
    ∷ Call.activating gates "operator" "p1" "s1"
    ∷ []

released :
    (run readiness_transitions (version_at ReadinessState.draft) release).state
    ≡ ReadinessState.active
unfolding run step apply_preflight apply_simulation activate transition can can_transition path_to
    preflight_target unmet
released = refl

run-Grows_example :
    Grows Anything
      (version_at ReadinessState.draft)
      (run readiness_transitions (version_at ReadinessState.draft) release)
run-Grows_example = run-Grows readiness_transitions (version_at ReadinessState.draft) release

run-IsReadied_example :
    IsReadiedSince [] (run readiness_transitions (version_at ReadinessState.draft) release).history
run-IsReadied_example =
    run-IsReadied readiness_transitions (version_at ReadinessState.draft) release refl released

ready_version : ReadinessMachine
ready_version = version_at ReadinessState.ready_for_activation

edit_done :
    (ch : Option ReadinessChange) × ((edited ready_version "operator" "greeting").1 ≡ done ch)
unfolding edited transition can can_transition ready_version
edit_done = (_, refl)

edited_released :
    (run readiness_transitions (edited ready_version "operator" "greeting").0 release).state
    ≡ ReadinessState.active
unfolding run step apply_preflight apply_simulation activate transition can can_transition path_to
    preflight_target unmet edited ready_version
edited_released = refl

edited-IsReadied_example :
    IsReadiedSince
      (edited ready_version "operator" "greeting").0.history
      (run readiness_transitions (edited ready_version "operator" "greeting").0 release).history
edited-IsReadied_example =
    edited-IsReadied readiness_transitions ready_version "operator" "greeting" release
      {ch = edit_done.0} edit_done.1 edited_released

edited_outcome_example : Edits ready_version "operator" "greeting"
edited_outcome_example = edited_outcome ready_version "operator" "greeting"

activates :
    (step readiness_transitions ready_version (Call.activating gates "operator" "" "")).state
    ≡ ReadinessState.active
unfolding step activate can_transition unmet ready_version
activates = refl

not_yet : ready_version.state ≢ ReadinessState.active
unfolding ready_version
not_yet e = cc e

step-IsGated_example :
    (g : ActivationGates) × (actor : String) × (p : String) × (s : String) × (Call.activating gates
        "operator" "" ""
      ≡ Call.activating g actor p s)
    × ((ready_version.state ≡ ReadinessState.suspended)
        ⊎ (ready_version.state ≡ ReadinessState.ready_for_activation) × IsGated g)
step-IsGated_example =
    step-IsGated readiness_transitions ready_version (Call.activating gates "operator" "" "")
      not_yet activates

abbrev office_hours : String → Option Window
office_hours text = some (record {
  start_hour = 22;
  start_minute = 0;
  end_hour = 6;
  end_minute = 30;
  local = 3 * 3600000000;
})

abbrev hooks : ContactPolicyHooks
hooks = record {
  consent_required = true;
  attempt_limit = 2;
  contact_window = some "22:00-06:30 Africa/Cairo";
  suppression_ref = some "dnc";
}

abbrev contact : ContactState
contact = record {
  contact_ref = "c1";
  consent = some true;
  has_opted_out = false;
  is_suppressed = false;
  attempts = 1;
  tags = "vip" ∷ [];
}

contact_allowed : (evaluate_contact office_hours (some hooks) contact).allowed ≡ true
unfolding evaluate_contact refusals_of in_window in_read_window
contact_allowed = refl

evaluate_contact-IsAllowed_example :
    (h : ContactPolicyHooks) × (some hooks ≡ some h) × IsAllowed office_hours h contact
evaluate_contact-IsAllowed_example =
    evaluate_contact-IsAllowed office_hours (some hooks) contact contact_allowed
