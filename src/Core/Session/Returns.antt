-- ===== src/Core/Session/Returns.antt =====
-- Actions that never raise.
use markting_call_center.Base.{Bool, true, false, Result, ok, raise, if◌then◌else◌, ◌≡◌, refl}
use markting_call_center.Core.Session.Data.{Session, Log, Voice, Course}
use markting_call_center.Core.Session.Actions.{
  Action, pure, gets, from, proceed, ◌>>=◌, when, modify_log, modify_voice, modify_course,
}

pub record Returns {A : Type 0} (act : Action A) : Type 0 where
  pub at : (s : Session) → (a : A) × ((act s).0 ≡ ok a)

module _ {A B : Type 0} where
  pub proceed-Returns :
      (next : A → Action B)
      → ((a : A) → Returns (next a))
      → (r : Result A) (s : Session) (a : A) → r ≡ ok a
      → (b : B) × ((proceed r next s).0 ≡ ok b)
  unfolding proceed
  proceed-Returns next returns (ok x) s a e = (returns x).at s
  proceed-Returns next returns (raise x) s a e = absurd (cc e)

  pub Returns-bind :
      (act : Action A) (next : A → Action B)
      → Returns act
      → ((a : A) → Returns (next a))
      → Returns (act >>= next)
  unfolding ◌>>=◌
  Returns-bind act next first returns = record {
    at = λ s. let (a, e) = first.at s in proceed-Returns next returns (act s).0 (act s).1 a e;
  }

module _ {A : Type 0} where
  pub Returns-if :
      (test : Bool) (left right : Action A)
      → Returns left
      → Returns right
      → Returns (if test then left else right)
  Returns-if true left right a b = a
  Returns-if false left right a b = b

  pub Returns-pure : (value : A) → Returns (pure value)
  unfolding pure
  Returns-pure value = record { at = λ s. (value, refl) }

  pub Returns-gets : (read : Session → A) → Returns (gets read)
  unfolding gets
  Returns-gets read = record { at = λ s. (read s, refl) }

-- A read that gives a value, at one session.
pub read-Returns :
    {A B : Type 0} (read : Session → Result A) (value : A) (next : A → Action B) (s : Session)
    → read s ≡ ok value
    → Returns (next value)
    → (b : B) × (((gets read >>= λ r. from r >>= next) s).0 ≡ ok b)
unfolding ◌>>=◌ gets from proceed
read-Returns read value next s e returns = rw e (returns.at s)

pub Returns-when : (test : Bool) (act : Action Unit) → Returns act → Returns (when test act)
unfolding when pure
Returns-when true act a = a
Returns-when false act a = record { at = λ s. (tt, refl) }

pub log-Returns : (f : Log → Log) → Returns (modify_log f)
unfolding modify_log
log-Returns f = record { at = λ s. (tt, refl) }

pub voice-Returns : (f : Voice → Voice) → Returns (modify_voice f)
unfolding modify_voice
voice-Returns f = record { at = λ s. (tt, refl) }

pub course-Returns : (f : Course → Course) → Returns (modify_course f)
unfolding modify_course
course-Returns f = record { at = λ s. (tt, refl) }

pub ruleset returns_rules = (
  Returns-bind, Returns-if, Returns-pure, Returns-gets, Returns-when, log-Returns, voice-Returns,
  course-Returns,
)
