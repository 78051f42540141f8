-- ===== src/Core/Transitions.antt =====
-- qevion/core/dialog_machine.py, Transition: the record that both state machines keep of a step.
use markting_call_center.Base.{ℕ, String, Option, List, [], ◌∷◌, ◌++◌, ◌≡◌, refl, sym, ◌∙◌}

pub record Transition : Type 0 where
  pub machine : String
  pub from_state : String
  pub to_state : String
  pub trigger : String
  pub ts_ms : ℕ
  pub reason : Option String
  pub authority : String

-- A history from one state to another, each entry a step that `R` allows.
abbrev pub History : (Transition → Type 0) → String → List Transition → String → Type 0
History R start [] end = start ≡ end
History R start (t ∷ ts) end = (t.from_state ≡ start) × R t × History R t.to_state ts end

pub History-append :
    (R : Transition → Type 0) (start : String) (ts : List Transition) {end : String}
    (t : Transition)
    → History R start ts end
    → t.from_state ≡ end
    → R t
    → History R start (ts ++ t ∷ []) t.to_state
History-append R start [] t h e r = (e ∙ sym h, r, refl)
History-append R start (u ∷ ts) t h e r = (h.0, h.1, History-append R u.to_state ts t h.2 e r)

-- A call of a machine's `fire` after `trigger`, at a time, for a reason.
pub record Firing : Type 0 where
  pub trigger : String
  pub ts_ms : ℕ
  pub reason : Option String
