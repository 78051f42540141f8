-- ===== src/Core/Session/Numbering.antt =====
-- The event log of a session: its numbers and its times.
use markting_call_center.Base.{
  ℕ, suc, ◌+◌, ◌≤◌, List, [], ◌∷◌, ◌++◌, length, length-append, ok, ◌≡◌, refl, arith, subst,
}
use markting_call_center.Core.Session.Data.{Session, SessionDeps, Event, EventBody, Order, Input}
use markting_call_center.Core.Session.Actions.{
  Keeps, keeps_rules, modify_log, modify_voice, modify_course, modify_knowledge,
}
use markting_call_center.Core.Session.Events.{logged, read_clock, draw_id, deliver, emit, order}
use markting_call_center.Core.Session.Lifecycle.{mark_closed, close_task}
use markting_call_center.Core.Session.Steps.{new_session, init, init_new, run}
use markting_call_center.Core.Session.Frames.Logs.{log-IsFrame}
use markting_call_center.Core.Session.Frames.Work.{IsFull}
use markting_call_center.Core.Session.Frames.Inputs.{run-At}
use markting_call_center.Core.Activity.{ActivityMachine, from_blueprint_ref}

-- Numbers that count up from n.
abbrev pub Numbered : ℕ → List Event → Type 0
Numbered n [] = Unit
Numbered n (e ∷ es) = (e.seq ≡ n) × Numbered (suc n) es

-- Times that do not decrease, from one time to another.
abbrev pub Timed : ℕ → List Event → ℕ → Type 0
Timed from [] to = from ≤ to
Timed from (e ∷ es) to = (from ≤ e.ts_ms) × Timed e.ts_ms es to

Numbered-append :
    (n : ℕ) (es : List Event) (e : Event)
    → e.seq ≡ n + length es
    → Numbered n es
    → Numbered n (es ++ e ∷ [])
Numbered-append n [] e h a = (omega (arith, h), tt)
Numbered-append n (e' ∷ es) e h a = (a.0, Numbered-append (suc n) es e (omega (arith, h)) a.1)

Timed-later :
    (from : ℕ) (es : List Event) {to to' : ℕ} → to ≤ to' → Timed from es to → Timed from es to'
Timed-later from [] l h = omega (arith, l, h)
Timed-later from (e ∷ es) l h = (h.0, Timed-later e.ts_ms es l h.1)

Timed-append :
    (from : ℕ) (es : List Event) (e : Event) {to : ℕ}
    → to ≤ e.ts_ms
    → Timed from es to
    → Timed from (es ++ e ∷ []) e.ts_ms
Timed-append from [] e l h = (omega (arith, l, h), omega arith)
Timed-append from (e' ∷ es) e l h = (h.0, Timed-append e'.ts_ms es e l h.1)

pub record IsSequence (es : List Event) (count seq now : ℕ) : Type 0 where
  pub counted : count ≡ length es
  pub next : seq ≡ length es
  pub numbered : Numbered 0 es
  pub timed : Timed 0 es now

abbrev pub IsSequenced : SessionDeps → Session → Type 0
IsSequenced d s = IsSequence s.log.events s.log.event_count s.log.seq (d.clock s.log.readings)

module _ (d : SessionDeps) (monotone : (n : ℕ) → d.clock n ≤ d.clock (n + 1)) where
  emit-IsSequenced : (body : EventBody) → Keeps (IsSequenced d) (emit d body)
  unfolding emit logged
  emit-IsSequenced body = record {
    at = λ s h. record {
      counted = refl;
      next = rw h.next (rw (length-append s.log.events (_ ∷ [])) refl);
      numbered = Numbered-append 0 s.log.events _ (omega (arith, h.next)) h.numbered;
      timed =
          Timed-later 0 _ (monotone s.log.readings)
            (Timed-append 0 s.log.events _ (omega arith) h.timed);
    };
  }

  clock-IsSequenced : Keeps (IsSequenced d) (read_clock d)
  unfolding read_clock
  clock-IsSequenced = record {
    at = λ s h. record {
      counted = h.counted;
      next = h.next;
      numbered = h.numbered;
      timed = Timed-later 0 s.log.events (monotone s.log.readings) h.timed;
    };
  }

  ordered-IsSequenced :
      (o : Order)
      → Keeps (IsSequenced d) (modify_log (λ l. record l { orders = l.orders ++ o ∷ [] }))
  unfolding modify_log
  ordered-IsSequenced o = record { at = λ s h. h }

  order-IsSequenced : (o : Order) → Keeps (IsSequenced d) (order d o)
  unfolding order
  order-IsSequenced o = search (keeps_rules, ordered-IsSequenced)

  full-IsSequenced : IsFull d (IsSequenced d)
  full-IsSequenced = record {
    frame = log-IsFrame (record {
      clock = clock-IsSequenced;
      draw = λ kind. unfold draw_id in record { at = λ s h. h };
      delivery = λ m. unfold deliver in record { at = λ s h. h };
      event = emit-IsSequenced;
      ask = order-IsSequenced;
      machines = λ s m h. h;
      voice = λ f. unfold modify_voice in record { at = λ s h. h };
      course = λ f _. unfold modify_course in record { at = λ s h. h };
      marks = unfold mark_closed modify_course in record { at = λ s h. h };
      task = λ reason k. unfold close_task in record { at = λ s h. k.at s h };
    });
    knowledge = λ f. unfold modify_knowledge in record { at = λ s h. h };
  }

  new_session-IsSequenced : (m : ActivityMachine) → IsSequenced d (new_session d m)
  unfolding new_session
  new_session-IsSequenced m = record {
    counted = refl;
    next = refl;
    numbered = tt;
    timed = omega arith;
  }

  -- If the clock never goes back, then for every session that starts and whatever reaches it, the
  -- events are numbered 0, 1, 2, ... without a gap, the next number and the facts' event count are
  -- their number, and their times never decrease.
  pub run-IsSequenced :
      (s : Session) (inputs : List Input) → init d ≡ ok s → IsSequenced d (run d s inputs)
  unfolding init
  run-IsSequenced s inputs h =
      let (m, made, new) = init_new d (from_blueprint_ref d.table_ref d.inline_table) s h in
      run-At full-IsSequenced s inputs (subst (IsSequenced d) new (new_session-IsSequenced m))
