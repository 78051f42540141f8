-- ===== src/Core/Session/Actions.antt =====
-- The methods of a session: they change it and may raise, and what was written before a raise stays
-- written. The rules say what an action keeps, one for each way to build an action.
use markting_call_center.Base.{
  Bool, true, false, Exception, Result, ok, raise, if◌then◌else◌, ◌≡◌, refl, subst,
}
use markting_call_center.Core.Session.Data.{Session, Log, Machines, Knowledge, Voice, Course}

abbrev pub Action : Type 0 → Type 0
Action A = Session → Result A × Session

module _ {A : Type 0} where
  unfoldable pub pure : A → Action A
  pure a s = (ok a, s)

  unfoldable pub fail : Exception → Action A
  fail x s = (raise x, s)

  unfoldable pub gets : (Session → A) → Action A
  gets f s = (ok (f s), s)

  -- The value of a call that cannot change the session.
  unfoldable pub from : Result A → Action A
  from r s = (r, s)

unfoldable pub modify : (Session → Session) → Action Unit
modify f s = (ok tt, f s)

unfoldable pub modify_log : (Log → Log) → Action Unit
modify_log f s = (ok tt, record s { log = f s.log })

unfoldable pub modify_machines : (Machines → Machines) → Action Unit
modify_machines f s = (ok tt, record s { machines = f s.machines })

unfoldable pub modify_knowledge : (Knowledge → Knowledge) → Action Unit
modify_knowledge f s = (ok tt, record s { knowledge = f s.knowledge })

unfoldable pub modify_voice : (Voice → Voice) → Action Unit
modify_voice f s = (ok tt, record s { voice = f s.voice })

unfoldable pub modify_course : (Course → Course) → Action Unit
modify_course f s = (ok tt, record s { course = f s.course })

module _ {A B : Type 0} where
  unfoldable pub proceed : Result A → (A → Action B) → Action B
  proceed (ok a) f s = f a s
  proceed (raise x) f s = (raise x, s)

  infixl 10 ◌>>=◌ ◌>>◌
  unfoldable pub ◌>>=◌ : Action A → (A → Action B) → Action B
  unfolding proceed
  ◌>>=◌ m f s = let (r, s') = m s in proceed r f s'

  abbrev pub ◌>>◌ : Action A → Action B → Action B
  m >> n = m >>= λ _. n

unfoldable pub when : Bool → Action Unit → Action Unit
unfolding pure
when true m = m
when false m = pure tt

-- A value at the end changes no state.
proceed-pure :
    {A B : Type 0} (r : Result A) (b : B) (s : Session) → (proceed r (λ _. pure b) s).1 ≡ s
unfolding proceed pure
proceed-pure (ok a) b s = refl
proceed-pure (raise x) b s = refl

pub bind-pure :
    {A B : Type 0} (m : Action A) (b : B) (s : Session) → ((m >>= λ _. pure b) s).1 ≡ (m s).1
unfolding ◌>>=◌
bind-pure m b s = let (r, s') = m s in proceed-pure r b s'

-- The action keeps `P`, also where it raises.
pub record Keeps {A : Type 0} (P : Session → Type 0) (act : Action A) : Type 0 where
  pub at : (s : Session) → P s → P (act s).1

module _ {P : Session → Type 0} where
  -- A condition may use that its test came out so.
  pub Keeps-when :
      (test : Bool) (act : Action Unit) → (test ≡ true → Keeps P act) → Keeps P (when test act)
  unfolding when pure
  Keeps-when false act so = record { at = λ s p. p }
  Keeps-when true act so = so refl

module _ {P : Session → Type 0} {A : Type 0} where
  pub Keeps-if :
      (test : Bool) (left right : Action A)
      → (test ≡ true → Keeps P left)
      → (test ≡ false → Keeps P right)
      → Keeps P (if test then left else right)
  Keeps-if false left right so not_so = not_so refl
  Keeps-if true left right so not_so = so refl

  pub Keeps-from : (r : Result A) → Keeps P (from r)
  unfolding from
  Keeps-from r = record { at = λ s p. p }

  pub Keeps-fail : (x : Exception) → Keeps P (fail {A = A} x)
  unfolding fail
  Keeps-fail x = record { at = λ s p. p }

  pub Keeps-gets : (read : Session → A) → Keeps P (gets read)
  unfolding gets
  Keeps-gets read = record { at = λ s p. p }

  pub Keeps-pure : (value : A) → Keeps P (pure value)
  unfolding pure
  Keeps-pure value = record { at = λ s p. p }

module _ {P : Session → Type 0} {A B : Type 0} where
  -- What is done with a result keeps `P`; a raise does nothing.
  pub proceed-At :
      (next : A → Action B)
      → ((a : A) → Keeps P (next a))
      → (r : Result A) (s : Session) → P s
      → P (proceed r next s).1
  unfolding proceed
  proceed-At next keeps (raise x) s p = p
  proceed-At next keeps (ok a) s p = (keeps a).at s p

  pub Keeps-bind :
      (act : Action A) (next : A → Action B)
      → Keeps P act
      → ((a : A) → Keeps P (next a))
      → Keeps P (act >>= next)
  unfolding ◌>>=◌
  Keeps-bind act next first keeps = record {
    at = λ s p. proceed-At next keeps (act s).0 (act s).1 (first.at s p);
  }

pub ruleset keeps_rules =
    (Keeps-when, Keeps-bind, Keeps-if, Keeps-from, Keeps-fail, Keeps-gets, Keeps-pure)

-- From `P`, a result of the action comes with `Q`.
pub record Leads {A : Type 0} (P : Session → Type 0) (act : Action A) (Q : A → Session → Type 0)
    : Type 0 where
  pub at : (s : Session) → P s → (a : A) → (act s).0 ≡ ok a → Q a (act s).1

module _ {P : Session → Type 0} {A : Type 0} {Q : A → Session → Type 0} where
  pub Leads-pure : (value : A) → ((s : Session) → P s → Q value s) → Leads P (pure value) Q
  unfolding pure
  Leads-pure value holds = record {
    at = λ s p a e. let same : value ≡ a = cc in subst (λ x. Q x s) same (holds s p);
  }

module _ {R : Session → Type 0} {A B : Type 0} {Q : B → Session → Type 0} where
  pub proceed-Leads :
      (next : A → Action B)
      → ((a : A) → Leads R (next a) Q)
      → (r : Result A) (s : Session) → R s
      → (b : B) → (proceed r next s).0 ≡ ok b
      → Q b (proceed r next s).1
  unfolding proceed
  proceed-Leads next leads (raise x) s p b e = absurd (cc e)
  proceed-Leads next leads (ok a) s p b e = (leads a).at s p b e

module _ {P R : Session → Type 0} {A B : Type 0} {Q : B → Session → Type 0} where
  -- The first action takes `P` to `R`.
  pub Leads-bind :
      (act : Action A) (next : A → Action B)
      → ((s : Session) → P s → R (act s).1)
      → ((a : A) → Leads R (next a) Q)
      → Leads P (act >>= next) Q
  unfolding ◌>>=◌
  Leads-bind act next first leads = record {
    at = λ s p. proceed-Leads next leads (act s).0 (act s).1 (first s p);
  }

module _ {P : Session → Type 0} {A B : Type 0} {Q : B → Session → Type 0} where
  pub Leads-after :
      (act : Action A) (next : A → Action B)
      → Keeps P act
      → ((a : A) → Leads P (next a) Q)
      → Leads P (act >>= next) Q
  Leads-after act next keeps leads = Leads-bind act next keeps.at leads

  pub Leads-value :
      (value : A) (next : A → Action B) → Leads P (next value) Q → Leads P (pure value >>= next) Q
  unfolding ◌>>=◌ proceed pure
  Leads-value value next leads = record { at = λ s p b e. leads.at s p b e }

-- A read that is known to give a value.
pub Leads-read :
    {P : Session → Type 0} {A B : Type 0} {Q : B → Session → Type 0} (read : Session → Result A)
    (value : A) (next : A → Action B)
    → ((s : Session) → P s → read s ≡ ok value)
    → Leads P (next value) Q
    → Leads P (gets read >>= λ r. from r >>= next) Q
unfolding ◌>>=◌ gets from proceed
Leads-read read value next known leads = record {
  at = λ s p b e. rw (known s p) (leads.at s p b (rw (known s p) at e));
}
