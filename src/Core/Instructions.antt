-- ===== src/Core/Instructions.antt =====
-- qevion/core/instruction_composer.py: the part of a session's instructions that changes, and the
-- text that holds it. The static part, which a blueprint gives once, is a parameter.
use Prim.Native.String.{◌++◌}
use markting_call_center.Base.{
  String, string_eq, ◌==◌, if◌then◌else◌, Bool, true, false, Option, none, some, List, [], ◌∷◌, map,
}
use mathlib.Core.List.{◌++◌ as append}
use markting_call_center.Contracts.Control.{ActivityState, activity_value}
use markting_call_center.Contracts.Provenance.{Provenance, provenance_value}

-- `RuntimeSnapshot`; a session leaves `extra_notes` empty.
pub record RuntimeSnapshot : Type 0 where
  pub activity_state : ActivityState
  pub missing_required : List String
  pub unsatisfied : List (String × Provenance)
  pub focus_ambiguous : Bool
  pub pending_confirmation : Option String

-- `sep.join(texts)`
unfoldable pub join : String → List String → String
join sep [] = ""
join sep (t ∷ []) = t
join sep (t ∷ (u ∷ us)) = t ++ sep ++ join sep (u ∷ us)

needed : List String → List String
unfolding join
needed [] = []
needed (n ∷ ns) = ("Still needed: " ++ join ", " (n ∷ ns) ++ ".") ∷ []

not_yet : String × Provenance → String
not_yet (name, need) =
    "'"
    ++ name
    ++ "' is recorded but not yet "
    ++ provenance_value need
    ++ "; do not treat it as confirmed."

ambiguous : Bool → List String
ambiguous false = []
ambiguous true =
    "The user may be referring to more than one item; ask which one before proceeding." ∷ []

-- `if snap.pending_confirmation`
pending : Option String → List String
pending none = []
pending (some id) =
    if id == ""
    then []
    else ("Waiting for the user to confirm '" ++ id ++ "'. Ask a yes/no question.") ∷ []

-- `_runtime`
unfoldable pub runtime_text : RuntimeSnapshot → String
unfolding needed not_yet ambiguous pending join
runtime_text snap = join "\n" (
    ("Current stage: " ++ activity_value snap.activity_state ++ ".")
    ∷ append (needed snap.missing_required) (
        append (map not_yet snap.unsatisfied)
          (append (ambiguous snap.focus_ambiguous) (pending snap.pending_confirmation))))

-- `compose`: the text, of which the fingerprint is a hash.
unfoldable pub compose : String → RuntimeSnapshot → String
unfolding runtime_text
compose static_text snap = static_text ++ "\n\n## runtime\n" ++ runtime_text snap
