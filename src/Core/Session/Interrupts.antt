-- ===== src/Core/Session/Interrupts.antt =====
-- An interruption of a response that the session has never raises.
use markting_call_center.Base.{
  ℕ, String, string_eq, Bool, true, false, ◌==◌, Option, none, some, get, Result, ok, ◌≡◌, refl,
  Bool-cases, inl, inr,
}
use markting_call_center.Core.Dialog as Dialog
use markting_call_center.Core.Dialog.Laws.{fire-can, DialogCase, refused, went, fire-DialogCase}
use markting_call_center.Core.Transitions.{Transition}
use markting_call_center.Core.Session.Data.{
  Session, SessionDeps, ResponseTrack, InterruptionRecord, EventBody, ServerMessage, Order,
}
use markting_call_center.Core.Session.Actions.{Action, pure, gets, proceed, ◌>>=◌, when}
use markting_call_center.Core.Session.Returns.{
  Returns, Returns-bind, Returns-when, read-Returns, returns_rules, Returns-pure,
}
use markting_call_center.Core.Session.Events.{
  read_clock, deliver, emit, send, send_state, transition, fire_dialog_at, fire_dialog, dialog_fire,
  order, latency,
}
use markting_call_center.Core.Session.Interruption.{
  cancel, await_stop, reconcile, detection, interrupt_response,
}

off-Returns : (test : Bool) (act : Action Unit) → test ≡ false → Returns (when test act)
unfolding when pure
off-Returns true act e = absurd (cc e)
off-Returns false act e = record { at = λ s. (tt, refl) }

fired_by :
    (m : Dialog.DialogMachine) (trigger : String) (t : Transition)
    (r : Dialog.DialogMachine × Result Transition)
    → DialogCase m trigger r
    → r.1 ≡ ok t
    → t.machine ≡ "dialog"
fired_by m trigger t _ (refused x) e = absurd (cc e)
fired_by m trigger t _ (went u s moved) e = let by_dialog = moved.of_machine in cc

-- The transition of a call that the table allows.
fired :
    (m : Dialog.DialogMachine) (trigger : String) (now : ℕ) (reason : Option String)
    → Dialog.can m trigger ≡ true
    → (t : Transition) × ((Dialog.fire m trigger now reason).1 ≡ ok t) × (t.machine ≡ "dialog")
fired m trigger now reason h =
    let (t, e) = (fire-can m trigger now reason).0.0 h in
    (t, e, fired_by m trigger t _ (fire-DialogCase m trigger now reason) e)

module _ (d : SessionDeps) where
  clock-Returns : Returns (read_clock d)
  unfolding read_clock
  clock-Returns = record { at = λ s. (_, refl) }

  emit-Returns : (body : EventBody) → Returns (emit d body)
  unfolding emit
  emit-Returns body = record { at = λ s. (tt, refl) }

  deliver-Returns : (m : ServerMessage) → Returns (deliver d m)
  unfolding deliver
  deliver-Returns m = record { at = λ s. (_, refl) }

  order-Returns : (o : Order) → Returns (order d o)
  unfolding order
  order-Returns o = search returns_rules depth 20

  send-Returns : (m : ServerMessage) → Returns (send d m)
  unfolding send
  send-Returns m = search (returns_rules, clock-Returns, deliver-Returns, emit-Returns) depth 20

  send_state-Returns : Returns (send_state d)
  unfolding send_state
  send_state-Returns = search (returns_rules, send-Returns) depth 20

  transition-Returns :
      (t : Transition) (push : Bool) → t.machine ≡ "dialog" → Returns (transition d t push)
  unfolding transition
  transition-Returns t push e = Returns-bind _ _ (emit-Returns _) (λ _.
      Returns-bind _ _ (off-Returns (t.machine == "activity") _ (rw e refl))
        (λ _. Returns-when push _ send_state-Returns))

  dialog-Returns :
      (trigger : String) (reason : Option String) → Returns (dialog_fire d trigger reason)
  unfolding dialog_fire ◌>>=◌ gets proceed fire_dialog fire_dialog_at read_clock
  dialog-Returns trigger reason = record {
    at = λ s. elim (Bool-cases (Dialog.can s.machines.dialog trigger)) [
      | inr f ↦ rw f ((Returns-bind _ _ (emit-Returns _) (λ _. Returns-pure false)).at s)
      | inl t ↦
          let (u, e, by_dialog) =
            fired s.machines.dialog trigger (d.clock s.log.readings) reason t in
          rw (t, e)
            ((Returns-bind _ _ (transition-Returns u true by_dialog) (λ _. Returns-pure true)).at _)
    ];
  }

  latency-Returns : (segment : String) (end start : ℕ) → Returns (latency d segment end start)
  unfolding latency
  latency-Returns segment end start = search returns_rules

ruleset interruption_rules = (
  returns_rules, clock-Returns, emit-Returns, send-Returns, order-Returns, dialog-Returns,
  latency-Returns,
)

module _ (d : SessionDeps) where
  cancel-Returns : (rid : String) (tr : ResponseTrack) → Returns (cancel d rid tr)
  unfolding cancel
  cancel-Returns rid tr = search interruption_rules depth 20

  await_stop-Returns : (rid : String) (stopped : Bool) → Returns (await_stop d rid stopped)
  unfolding await_stop
  await_stop-Returns rid true = search interruption_rules depth 20
  await_stop-Returns rid false = search interruption_rules depth 20

  detection-Returns : (t : Option ℕ) → Returns (detection d t)
  unfolding detection
  detection-Returns none = search interruption_rules depth 20
  detection-Returns (some t) = search interruption_rules depth 20

  reconcile-Returns :
      (rid : String) (tr : ResponseTrack) (t0 t1 t2 : ℕ) (forced : Bool)
      → Returns (reconcile d rid tr t0 t1 t2 forced)
  unfolding reconcile
  reconcile-Returns rid tr t0 t1 t2 forced = search interruption_rules depth 40

  pub interrupt_response-Returns :
      (onset_ms : ℕ) (detected_ms : Option ℕ) (stopped late : Bool) (rid : String) (s : Session)
      {tr : ResponseTrack}
      → get s.voice.responses rid ≡ some tr
      → (rec : InterruptionRecord) × ((interrupt_response d onset_ms detected_ms stopped late rid
            s).0
          ≡ ok rec)
  unfolding interrupt_response
  interrupt_response-Returns onset_ms detected_ms stopped late rid s {tr} h =
      read-Returns _ tr _ s (rw h refl) (
        search
          (
            interruption_rules, cancel-Returns, await_stop-Returns, detection-Returns,
            reconcile-Returns,
          )
          depth 40)
