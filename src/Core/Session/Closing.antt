-- ===== src/Core/Session/Closing.antt =====
-- A session that is closed.
use markting_call_center.Base.{
  true, Option, none, some, List, [], ◌∷◌, Result, ◌≡◌, refl, ◌∙◌, ◌++◌, String,
}
use markting_call_center.Contracts.Values.{Value}
use markting_call_center.Core.Record.{InteractionRecord}
use markting_call_center.Core.Session.Data.{Session, SessionDeps, Input, Order}
use markting_call_center.Core.Session.Actions.{
  Keeps, keeps_rules, modify_log, modify_voice, modify_course, modify_knowledge, gets, proceed,
  ◌>>=◌,
}
use markting_call_center.Core.Session.Events.{read_clock, draw_id, deliver, emit, order}
use markting_call_center.Core.Session.Lifecycle.{mark_closed, close_now, closing, close, close_task}
use markting_call_center.Core.Session.Frames.{close_down-Keeps}
use markting_call_center.Core.Session.Frames.Logs.{log-IsFrame}
use markting_call_center.Core.Session.Frames.Work.{IsFull}
use markting_call_center.Core.Session.Frames.Inputs.{serve-At}
use markting_call_center.Core.Session.Steps.{serve}

abbrev pub IsClosed : Session → Type 0
IsClosed s = s.course.closed ≡ true

module _ (d : SessionDeps) where
  ordered-IsClosed :
      (o : Order) → Keeps IsClosed (modify_log (λ l. record l { orders = l.orders ++ o ∷ [] }))
  unfolding modify_log
  ordered-IsClosed o = record { at = λ s h. h }

  order-IsClosed : (o : Order) → Keeps IsClosed (order d o)
  unfolding order
  order-IsClosed o = search (keeps_rules, ordered-IsClosed)

  full-IsClosed : IsFull d IsClosed
  full-IsClosed = record {
    frame = log-IsFrame (record {
      clock = unfold read_clock in record { at = λ s h. h };
      draw = λ kind. unfold draw_id in record { at = λ s h. h };
      delivery = λ m. unfold deliver in record { at = λ s h. h };
      event = λ body. unfold emit in record { at = λ s h. h };
      ask = order-IsClosed;
      machines = λ s m h. h;
      voice = λ f. unfold modify_voice in record { at = λ s h. h };
      course = λ f e. unfold modify_course in record { at = λ s h. e s.course ∙ h };
      marks = unfold mark_closed modify_course in record { at = λ s h. refl };
      task = λ reason k. unfold close_task in record { at = λ s h. k.at s h };
    });
    knowledge = λ f. unfold modify_knowledge in record { at = λ s h. h };
  }

  -- What `_close` leaves is closed, also where it raises.
  close_now_closes : (reason : String) (s : Session) → IsClosed (close_now d reason s).1
  unfolding close_now mark_closed modify_course ◌>>=◌ proceed
  close_now_closes reason s = (close_down-Keeps full-IsClosed.frame reason).at _ refl

  closing_closes :
      (reason : String) (r : Option (InteractionRecord Value))
      (task : Option (Result (InteractionRecord Value))) (s : Session)
      → r ≡ none
      → task ≡ none
      → IsClosed (closing d reason r task s).1
  unfolding closing close_task
  closing_closes reason none none s p t = close_now_closes reason s
  closing_closes reason (some r) task s p t = cc
  closing_closes reason none (some r) s p t = cc

  close_closes :
      (reason : String) (s : Session)
      → s.course.produced ≡ none
      → s.course.close_task ≡ none
      → IsClosed (close d reason s).1
  unfolding close ◌>>=◌ gets proceed
  close_closes reason s p t = closing_closes reason s.course.produced s.course.close_task s p t

  -- `close` of a session that has neither a record nor a close task, whatever its state, leaves it
  -- closed, whether it raises or not, and it stays closed whatever reaches it then.
  pub close-IsClosed :
      (reason : String) (s : Session) (inputs : List Input)
      → s.course.produced ≡ none
      → s.course.close_task ≡ none
      → IsClosed (serve d (close d reason s).1 inputs)
  close-IsClosed reason s inputs p t =
      serve-At full-IsClosed (close d reason s).1 inputs (close_closes reason s p t)
