-- ===== src/Base/Results.antt =====
-- Results of calls that may raise. An exception carries what its message is made of.
use Prim.Native.String.{String}

pub data Exception : Type 0 where
  -- IllegalTransitionError: the machine, its state and the trigger.
  illegal_transition : (machine state trigger : String) → Exception
  value_error key_error : String → Exception
  index_error : Exception

pub data Result {ℓ} (A : Type ℓ) : Type ℓ where
  ok : A → Result A
  raise : Exception → Result A

infixl 5 ◌>>=◌
abbrev pub ◌>>=◌ {ℓ κ} : {A : Type ℓ} {B : Type κ} → Result A → (A → Result B) → Result B
ok a >>= f = f a
raise x >>= f = raise x
