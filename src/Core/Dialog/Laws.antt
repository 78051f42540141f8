-- ===== src/Core/Dialog/Laws.antt =====
-- What the dialog machine keeps over every sequence of calls of `fire`.
use markting_call_center.Base.{
  ℕ, String, string_eq, is_some, Bool, true, false, ◌||◌, Option, none, some, List, [], ◌∷◌, map,
  Memᴰ, inl, inr, sym, get, all-get, ok, ◌≡◌, ◌↔◌, refl, ap, Exception, Result, raise, ◌++◌, ◌==◌,
  beq_cases,
}
use markting_call_center.Contracts.Control.{DialogState, dialog_value}
use markting_call_center.Core.Transitions.{Transition, History, History-append, Firing}
use markting_call_center.Core.Dialog.{DialogMachine, dialog_table, can, move, fire}

-- The calls in turn, an exception caught by the caller.
unfoldable pub fire_each : DialogMachine → List Firing → DialogMachine
fire_each m [] = m
fire_each m (f ∷ fs) = fire_each (fire m f.trigger f.ts_ms f.reason).0 fs

-- A transition that the table has.
abbrev pub InDialogTable : Transition → Type 0
InDialogTable t =
    (s : DialogState) × (nxt : DialogState) × (t.from_state ≡ dialog_value s)
    × (t.to_state ≡ dialog_value nxt)
    × (get (dialog_table s) t.trigger ≡ some nxt)

abbrev pub IsLogged : DialogMachine → Type 0
IsLogged m = History InDialogTable "IDLE" m.transitions (dialog_value m.state)

move-IsLogged :
    (m : DialogMachine) (trigger : String) (ts_ms : ℕ) (reason : Option String)
    (o : Option DialogState)
    → get (dialog_table m.state) trigger ≡ o
    → IsLogged m
    → IsLogged (move m trigger ts_ms reason o).0
unfolding move
move-IsLogged m trigger ts_ms reason none e h = h
move-IsLogged m trigger ts_ms reason (some nxt) e h =
    History-append InDialogTable "IDLE" m.transitions _ h refl (m.state, nxt, refl, refl, e)

fire-IsLogged :
    (m : DialogMachine) (trigger : String) (ts_ms : ℕ) (reason : Option String)
    → IsLogged m
    → IsLogged (fire m trigger ts_ms reason).0
unfolding fire
fire-IsLogged m trigger ts_ms reason h = move-IsLogged m trigger ts_ms reason _ refl h

-- From a machine whose log runs from IDLE to its state along table entries, every sequence of calls
-- of `fire`, refused ones included, leaves such a machine.
pub fire_each-IsLogged :
    (m : DialogMachine) (fs : List Firing) → IsLogged m → IsLogged (fire_each m fs)
unfolding fire_each
fire_each-IsLogged m [] h = h
fire_each-IsLogged m (f ∷ fs) h =
    fire_each-IsLogged (fire m f.trigger f.ts_ms f.reason).0 fs
      (fire-IsLogged m f.trigger f.ts_ms f.reason h)

move-is_some :
    (m : DialogMachine) (trigger : String) (ts_ms : ℕ) (reason : Option String)
    (o : Option DialogState)
    → ((is_some o ≡ true) ↔ ((t : Transition) × ((move m trigger ts_ms reason o).1 ≡ ok t)))
      × (is_some o ≡ false → (move m trigger ts_ms reason o).0 ≡ m)
unfolding move
move-is_some m trigger ts_ms reason none = ((λ e. cc, λ (t, e). cc), λ e. refl)
move-is_some m trigger ts_ms reason (some nxt) = ((λ e. (_, refl), λ e. refl), λ e. cc)

-- `can` tells exactly when `fire` succeeds, and a refused call leaves the machine as it was.
pub fire-can :
    (m : DialogMachine) (trigger : String) (ts_ms : ℕ) (reason : Option String)
    → ((can m trigger ≡ true) ↔ ((t : Transition) × ((fire m trigger ts_ms reason).1 ≡ ok t)))
      × (can m trigger ≡ false → (fire m trigger ts_ms reason).0 ≡ m)
unfolding fire can
fire-can m trigger ts_ms reason =
    move-is_some m trigger ts_ms reason (get (dialog_table m.state) trigger)

-- The states from which the machine must be reconciled before it speaks.
is_silenced : DialogState → Bool
is_silenced DialogState.interrupted = true
is_silenced DialogState.closed = true
is_silenced _ = false

reconciles : String × DialogState → Bool
reconciles (trigger, nxt) = trigger == "reconciled" || is_silenced nxt

move-is_silenced :
    (m : DialogMachine) (trigger : String) (ts_ms : ℕ) (reason : Option String)
    (o : Option DialogState)
    → ((nxt : DialogState) → o ≡ some nxt → reconciles (trigger, nxt) ≡ true)
    → is_silenced m.state ≡ true
    → (trigger == "reconciled") ≡ false
    → is_silenced (move m trigger ts_ms reason o).0.state ≡ true
unfolding move reconciles
move-is_silenced m trigger ts_ms reason none p h n = h
move-is_silenced m trigger ts_ms reason (some nxt) p h n = rw n at (p nxt refl)

reconciles-get :
    (s : DialogState) (trigger : String) (nxt : DialogState)
    → is_silenced s ≡ true
    → get (dialog_table s) trigger ≡ some nxt
    → reconciles (trigger, nxt) ≡ true
unfolding reconciles is_silenced dialog_table
reconciles-get DialogState.interrupted trigger nxt h e =
    all-get reconciles (dialog_table DialogState.interrupted) trigger refl e
reconciles-get DialogState.closed trigger nxt h e = cc
reconciles-get _ trigger nxt h e = cc

fire-is_silenced :
    (m : DialogMachine) (f : Firing)
    → is_silenced m.state ≡ true
    → (f.trigger == "reconciled") ≡ false
    → is_silenced (fire m f.trigger f.ts_ms f.reason).0.state ≡ true
unfolding fire
fire-is_silenced m f h n =
    move-is_silenced m f.trigger f.ts_ms f.reason (get (dialog_table m.state) f.trigger)
      (λ nxt e. reconciles-get m.state f.trigger nxt h e) h n

speaks_reconciled :
    (m : DialogMachine) (fs : List Firing)
    → is_silenced m.state ≡ true
    → is_silenced (fire_each m fs).state ≡ false
    → Memᴰ "reconciled" (map (λ f. f.trigger) fs)
unfolding fire_each
speaks_reconciled m [] h e = cc
speaks_reconciled m (f ∷ fs) h e = elim (beq_cases f.trigger "reconciled") [
  | inl (t, p) ↦ Memᴰ.head (sym p)
  | inr (n, q) ↦
      Memᴰ.tail
        (speaks_reconciled (fire m f.trigger f.ts_ms f.reason).0 fs (fire-is_silenced m f h n) e)
]

-- After an interruption the machine speaks again only if `reconciled` was fired in between.
pub interrupted-reconciled :
    (m : DialogMachine) (fs : List Firing)
    → m.state ≡ DialogState.interrupted
    → (fire_each m fs).state ≡ DialogState.speaking
    → Memᴰ "reconciled" (map (λ f. f.trigger) fs)
unfolding is_silenced
interrupted-reconciled m fs h e = speaks_reconciled m fs (rw h) (rw e)

closed_get :
    (s : DialogState) (trigger : String)
    → s ≡ DialogState.closed
    → get (dialog_table s) trigger ≡ none
unfolding dialog_table
closed_get s trigger h = rw h

closed_fire :
    (m : DialogMachine) (trigger : String) (ts_ms : ℕ) (reason : Option String)
    → m.state ≡ DialogState.closed
    → (fire m trigger ts_ms reason).0 ≡ m
closed_fire m trigger ts_ms reason h =
    (fire-can m trigger ts_ms reason).1 (unfold can in ap is_some (closed_get m.state trigger h))

closed_run :
    (m : DialogMachine) (fs : List Firing) → m.state ≡ DialogState.closed → fire_each m fs ≡ m
unfolding fire_each
closed_run m [] h = refl
closed_run m (f ∷ fs) h = rw (closed_fire m f.trigger f.ts_ms f.reason h) (closed_run m fs h)

close_state :
    (m : DialogMachine) (s : DialogState) (ts_ms : ℕ) (reason : Option String)
    → m.state ≡ s
    → (move m "close" ts_ms reason (get (dialog_table s) "close")).0.state ≡ DialogState.closed
unfolding move dialog_table
close_state m DialogState.closed ts_ms reason h = h
close_state m _ ts_ms reason h = refl

-- `close` closes the machine whatever its state, and no later call changes it.
pub close_final :
    (m : DialogMachine) (ts_ms : ℕ) (reason : Option String) (fs : List Firing)
    → let m' = (fire m "close" ts_ms reason).0 in
      (m'.state ≡ DialogState.closed) × (fire_each m' fs ≡ m')
unfolding fire
close_final m ts_ms reason fs =
    let closed_now = close_state m m.state ts_ms reason refl in
    (closed_now, closed_run (fire m "close" ts_ms reason).0 fs closed_now)

-- What a call of `fire` that succeeds does: the transition it logs.
pub record HasMoved (m : DialogMachine) (trigger : String) (t : Transition) (s : DialogState)
    : Type 0 where
  pub of_machine : t.machine ≡ "dialog"
  pub by_trigger : t.trigger ≡ trigger
  pub leaves : t.from_state ≡ dialog_value m.state
  pub arrives : t.to_state ≡ dialog_value s
  pub in_table : get (dialog_table m.state) trigger ≡ some s

abbrev pub moved : DialogMachine → Transition → DialogState → DialogMachine
moved m t s = record { state = s; transitions = m.transitions ++ t ∷ [] }

-- A call of `fire` raises and changes nothing, or moves the machine.
pub data DialogCase (m : DialogMachine) (trigger : String)
    : DialogMachine × Result Transition → Type 0 where
  refused : (x : Exception) → DialogCase m trigger (m, raise x)
  went :
      (t : Transition) (s : DialogState)
      → HasMoved m trigger t s
      → DialogCase m trigger (moved m t s, ok t)

move-DialogCase :
    (m : DialogMachine) (trigger : String) (ts_ms : ℕ) (reason : Option String)
    (o : Option DialogState)
    → get (dialog_table m.state) trigger ≡ o
    → DialogCase m trigger (move m trigger ts_ms reason o)
unfolding move
move-DialogCase m trigger ts_ms reason none e = refused _
move-DialogCase m trigger ts_ms reason (some nxt) e =
    went _ nxt
      (record { of_machine = refl; by_trigger = refl; leaves = refl; arrives = refl; in_table = e })

pub fire-DialogCase :
    (m : DialogMachine) (trigger : String) (ts_ms : ℕ) (reason : Option String)
    → DialogCase m trigger (fire m trigger ts_ms reason)
unfolding fire
fire-DialogCase m trigger ts_ms reason = move-DialogCase m trigger ts_ms reason _ refl

pub moved-IsLogged :
    (m : DialogMachine) (trigger : String) (t : Transition) (s : DialogState)
    → HasMoved m trigger t s
    → IsLogged m
    → IsLogged (moved m t s)
moved-IsLogged m trigger t s f h = rw (← f.arrives) (
    History-append InDialogTable "IDLE" m.transitions t h f.leaves
      (m.state, s, f.leaves, f.arrives, rw f.by_trigger f.in_table))
