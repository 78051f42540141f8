-- ===== src/Core/Session/Coherence.antt =====
-- What can change what a session knows: only tool calls that are not refused, and their answers.
use markting_call_center.Base.{
  String, string_eq, not, Bool, true, false, Option, [], ◌∷◌, Dict, get, ◌≡◌, refl, not, ◌++◌,
  arith,
}
use markting_call_center.Contracts.Values.{Value}
use markting_call_center.Core.Session.Data as Data
use markting_call_center.Core.Session.Data.{
  Session, SessionDeps, Knowledge, S2SEvent, ClientMessage, Input, Order,
}
use markting_call_center.Core.Session.Actions.{
  Action, Keeps, keeps_rules, gets, when, modify_log, modify_voice, modify_course, ◌>>=◌, proceed,
  pure,
}
use markting_call_center.Core.Session.Events.{read_clock, draw_id, deliver, emit, order}
use markting_call_center.Core.Session.Lifecycle.{mark_closed, close_task}
use markting_call_center.Core.Session.Handlers.{
  handle_provider_event, handle_tool_call, is_cancelled,
}
use markting_call_center.Core.Session.Steps.{receive, step, left}
use markting_call_center.Core.Session.Frames.{IsFrame}
use markting_call_center.Core.Session.Frames.Logs.{log-IsFrame}
use markting_call_center.Core.Session.Frames.Talk.{audio-Keeps}
use markting_call_center.Core.Session.Frames.Inputs.{
  client-Keeps, provider-Keeps, settle-At, left-Keeps,
}

-- Whether an input brings a tool call that is not refused, or the end of the wait of one.
abbrev pub brings_work : Session → Input → Bool
brings_work s (Data.provider_event (Data.response_tool_call rid call)) =
    not (is_cancelled (get s.voice.responses rid))
brings_work s Data.answered = true
brings_work s _ = false

module _ (d : SessionDeps) (k : Knowledge) where
  ordered-Knows :
      (o : Order)
      → Keeps (λ s. s.knowledge ≡ k) (modify_log (λ l. record l { orders = l.orders ++ o ∷ [] }))
  unfolding modify_log
  ordered-Knows o = record { at = λ s h. h }

  order-Knows : (o : Order) → Keeps (λ s. s.knowledge ≡ k) (order d o)
  unfolding order
  order-Knows o = search (keeps_rules, ordered-Knows)

  knows-IsFrame : IsFrame d (λ s. s.knowledge ≡ k)
  knows-IsFrame = log-IsFrame (record {
    clock = unfold read_clock in record { at = λ s h. h };
    draw = λ kind. unfold draw_id in record { at = λ s h. h };
    delivery = λ m. unfold deliver in record { at = λ s h. h };
    event = λ body. unfold emit in record { at = λ s h. h };
    ask = order-Knows;
    machines = λ s m h. h;
    voice = λ f. unfold modify_voice in record { at = λ s h. h };
    course = λ f _. unfold modify_course in record { at = λ s h. h };
    marks = unfold mark_closed modify_course in record { at = λ s h. h };
    task = λ reason t. unfold close_task in record { at = λ s h. t.at s h };
  })

  -- A tool call that is refused.
  refused_call :
      (rid : String) (call : Option (String × String × Dict String Value)) (s : Session)
      → is_cancelled (get s.voice.responses rid) ≡ true
      → s.knowledge ≡ k
      → (handle_tool_call d rid call s).1.knowledge ≡ k
  unfolding handle_tool_call ◌>>=◌ gets proceed
  refused_call rid call s c h = rw c ((knows-IsFrame.event _ refl).at s h)

  event-Knows :
      (ev : S2SEvent) (s : Session)
      → brings_work s (Data.provider_event ev) ≡ false
      → s.knowledge ≡ k
      → (handle_provider_event d ev s).1.knowledge ≡ k
  unfolding handle_provider_event
  event-Knows (Data.response_tool_call rid call) s n h =
      refused_call rid call s (ground (arith, n)) h
  event-Knows ev s n h = (provider-Keeps knows-IsFrame ev (λ rid call e. cc)).at s h

  held_back :
      (b : Bool) (m : Action Unit) (s : Session)
      → (m s).1.knowledge ≡ k
      → s.knowledge ≡ k
      → (when b m s).1.knowledge ≡ k
  unfolding when pure
  held_back true m s h j = h
  held_back false m s h j = j

  receive-Knows :
      (i : Input) (s : Session)
      → brings_work s i ≡ false
      → s.knowledge ≡ k
      → (receive d i s).1.knowledge ≡ k
  unfolding receive ◌>>=◌ gets proceed
  receive-Knows (Data.provider_event ev) s n h =
      held_back _ (handle_provider_event d ev) s (event-Knows ev s n h) h
  receive-Knows (Data.client_message msg stopped) s n h =
      (client-Keeps knows-IsFrame msg stopped).at s h
  receive-Knows (Data.client_audio push stopped) s n h =
      (audio-Keeps knows-IsFrame push stopped).at s h
  receive-Knows Data.answered s n h = cc
  receive-Knows Data.client_eof s n h = held_back _ (left d) s ((left-Keeps knows-IsFrame).at s h) h

module _ (d : SessionDeps) where
  -- Whatever reaches a session, the fields, the objectives, the focus, the tool pipeline and the
  -- flags stay as they are, unless it is a tool call of a response that is not cancelled or the end
  -- of a tool call's wait for the user: not on text or audio of the model or the user, an
  -- interruption, a confirmation, an error, the end of the session, or an exception.
  pub step-knowledge :
      (s : Session) (i : Input) → brings_work s i ≡ false → (step d s i).knowledge ≡ s.knowledge
  unfolding step
  step-knowledge s i n =
      settle-At (knows-IsFrame d s.knowledge) (receive d i s).0 (receive d i s).1
        (receive-Knows d s.knowledge i s n refl)
