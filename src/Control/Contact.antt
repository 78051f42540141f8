-- ===== src/Control/Contact.antt =====
-- qevion/control/contact_policy.py: whether an outbound contact may be made. `read_window` stands for
-- what Python's libraries make of a window's text: the hours and minutes of its ends, and the local
-- time in its zone, in microseconds of the day; nothing where they raise ValueError or KeyError.
pub mod Refusals
use markting_call_center.Base.{
  ℕ, ◌+◌, ◌*◌, String, string_eq, Bool, true, false, not, ◌&&◌, ◌||◌, leb, ltb, ◌==◌, if◌then◌else◌,
  Option, none, some, List, [], ◌∷◌, ◌++◌, contains, is_empty,
}

pub data ContactRefusal : Type 0 where
  no_consent opted_out suppressed attempt_limit outside_window hooks_missing : ContactRefusal

pub record ContactPolicyHooks : Type 0 where
  pub consent_required : Bool
  pub attempt_limit : ℕ
  pub contact_window : Option String
  pub suppression_ref : Option String

pub record ContactState : Type 0 where
  pub contact_ref : String
  pub consent : Option Bool
  pub has_opted_out : Bool
  pub is_suppressed : Bool
  pub attempts : ℕ
  pub tags : List String

pub record ContactDecision : Type 0 where
  pub allowed : Bool
  pub refusals : List ContactRefusal

-- A window's text, read.
pub record Window : Type 0 where
  pub start_hour : ℕ
  pub start_minute : ℕ
  pub end_hour : ℕ
  pub end_minute : ℕ
  pub local : ℕ

-- `local.replace(hour=h, minute=m, second=0, microsecond=0)`
abbrev pub moment : (h m : ℕ) → ℕ
moment h m = (h * 60 + m) * 60000000

abbrev pub inside : (start end local : ℕ) → Bool
inside start end local =
    if leb end start then leb start local || leb local end else leb start local && leb local end

-- `replace` raises ValueError on an hour or a minute that there is not.
unfoldable pub in_read_window : Option Window → Bool
in_read_window none = false
in_read_window (some w) =
    if ltb w.start_hour 24 && ltb w.start_minute 60 && ltb w.end_hour 24 && ltb w.end_minute 60
    then inside (moment w.start_hour w.start_minute) (moment w.end_hour w.end_minute) w.local
    else false

-- `consent is not True`
abbrev pub no_consent_given : Option Bool → Bool
no_consent_given none = true
no_consent_given (some b) = not b

-- `hooks.suppression_ref and hooks.suppression_ref in state.tags`
abbrev pub ref_suppressed : Option String → List String → Bool
ref_suppressed none tags = false
ref_suppressed (some ref) tags = if ref == "" then false else contains tags ref

abbrev pub refuse : Bool → ContactRefusal → List ContactRefusal
refuse b r = if b then r ∷ [] else []

module _ (read_window : String → Option Window) where
  unfoldable pub in_window : Option String → Bool
  unfolding in_read_window
  in_window none = true
  in_window (some text) = if text == "" then true else in_read_window (read_window text)

  unfoldable pub refusals_of : ContactPolicyHooks → ContactState → List ContactRefusal
  unfolding in_window
  refusals_of hooks state =
      refuse (hooks.consent_required && no_consent_given state.consent) no_consent
      ++ refuse state.has_opted_out opted_out
      ++ refuse (state.is_suppressed || ref_suppressed hooks.suppression_ref state.tags) suppressed
      ++ refuse (leb hooks.attempt_limit state.attempts) ContactRefusal.attempt_limit
      ++ refuse (not (in_window hooks.contact_window)) outside_window

  unfoldable pub evaluate_contact : Option ContactPolicyHooks → ContactState → ContactDecision
  unfolding refusals_of
  evaluate_contact none state = record { allowed = false; refusals = hooks_missing ∷ [] }
  evaluate_contact (some hooks) state =
      let r = refusals_of hooks state in record { allowed = is_empty r; refusals = r }
