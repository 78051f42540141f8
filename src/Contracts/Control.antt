-- ===== src/Contracts/Control.antt =====
-- qevion/contracts/control.py: the states of the dialog and activity machines.
use markting_call_center.Base.{
  String, string_eq, Bool, true, false, Option, some, Dict, [], ◌∷◌, get, ◌==◌, eq_iff, all-get,
  ◌≡◌, refl, contains, holds,
}

pub data DialogState : Type 0 where
  idle listening thinking speaking interrupted waiting_tool waiting_confirmation closed :
      DialogState

unfoldable pub dialog_value : DialogState → String
dialog_value DialogState.idle = "IDLE"
dialog_value DialogState.listening = "LISTENING"
dialog_value DialogState.thinking = "THINKING"
dialog_value DialogState.speaking = "SPEAKING"
dialog_value DialogState.interrupted = "INTERRUPTED"
dialog_value DialogState.waiting_tool = "WAITING_TOOL"
dialog_value DialogState.waiting_confirmation = "WAITING_CONFIRMATION"
dialog_value DialogState.closed = "CLOSED"

pub data ActivityState : Type 0 where
  opening engaged collecting resolving clarifying confirming executing closing : ActivityState
  ended escalated abandoned blocked : ActivityState

unfoldable pub activity_value : ActivityState → String
activity_value ActivityState.opening = "OPENING"
activity_value ActivityState.engaged = "ENGAGED"
activity_value ActivityState.collecting = "COLLECTING"
activity_value ActivityState.resolving = "RESOLVING"
activity_value ActivityState.clarifying = "CLARIFYING"
activity_value ActivityState.confirming = "CONFIRMING"
activity_value ActivityState.executing = "EXECUTING"
activity_value ActivityState.closing = "CLOSING"
activity_value ActivityState.ended = "ENDED"
activity_value ActivityState.escalated = "ESCALATED"
activity_value ActivityState.abandoned = "ABANDONED"
activity_value ActivityState.blocked = "BLOCKED"

abbrev activity_states : Dict String ActivityState
activity_states =
    ("OPENING", ActivityState.opening)
    ∷ ("ENGAGED", ActivityState.engaged)
    ∷ ("COLLECTING", ActivityState.collecting)
    ∷ ("RESOLVING", ActivityState.resolving)
    ∷ ("CLARIFYING", ActivityState.clarifying)
    ∷ ("CONFIRMING", ActivityState.confirming)
    ∷ ("EXECUTING", ActivityState.executing)
    ∷ ("CLOSING", ActivityState.closing)
    ∷ ("ENDED", ActivityState.ended)
    ∷ ("ESCALATED", ActivityState.escalated)
    ∷ ("ABANDONED", ActivityState.abandoned)
    ∷ ("BLOCKED", ActivityState.blocked)
    ∷ []

-- `ActivityState(text)`: nothing where Python raises ValueError.
unfoldable pub parse_activity_state : String → Option ActivityState
parse_activity_state text = get activity_states text

unfoldable pub is_terminal : ActivityState → Bool
is_terminal ActivityState.ended = true
is_terminal ActivityState.escalated = true
is_terminal ActivityState.abandoned = true
is_terminal ActivityState.blocked = true
is_terminal _ = false

-- `text in TERMINAL_ACTIVITY_STATES`
unfoldable pub names_terminal : String → Bool
names_terminal text = contains ("ENDED" ∷ "ESCALATED" ∷ "ABANDONED" ∷ "BLOCKED" ∷ []) text

pub parse-activity_value : (s : ActivityState) → parse_activity_state (activity_value s) ≡ some s
unfolding parse_activity_state activity_value
parse-activity_value ActivityState.opening = refl
parse-activity_value _ = refl

named : String × ActivityState → Bool
named (text, s) = text == activity_value s

-- A text that parses is the state's value.
pub activity_value-parse :
    (text : String) (s : ActivityState)
    → parse_activity_state text ≡ some s
    → text ≡ activity_value s
unfolding parse_activity_state named activity_value
activity_value-parse text s h =
    (eq_iff text (activity_value s)).0 (all-get named activity_states text refl h)

pub DialogState-discrete : Discrete DialogState
DialogState-discrete = hlevel

pub ActivityState-discrete : Discrete ActivityState
ActivityState-discrete = hlevel

unfoldable pub dialog_beq : DialogState → DialogState → Bool
dialog_beq a b = holds (DialogState-discrete a b)

unfoldable pub activity_beq : ActivityState → ActivityState → Bool
activity_beq a b = holds (ActivityState-discrete a b)
