-- ===== src/Core/Session/Steps.antt =====
-- qevion/core/session.py: a session from its start through what reaches it, in the order in which the
-- pumps of `run` take it. An exception ends a pump, on which `run` closes the session.
use markting_call_center.Base.{
  Bool, false, not, is_some, none, List, [], ◌∷◌, Result, ok, raise, ◌≡◌, ap, refl,
}
use markting_call_center.Core.Dialog as Dialog
use markting_call_center.Core.Activity as Activity
use markting_call_center.Core.Activity.{ActivityMachine}
use markting_call_center.Core.Fields.{from_specs}
use markting_call_center.Core.Session.Data.{
  Session, SessionDeps, Input, provider_event, client_message, client_audio, answered, client_eof,
  transport_disconnected,
}
use markting_call_center.Core.Session.Actions.{Action, pure, gets, when, ◌>>=◌, ◌>>◌}
use markting_call_center.Core.Session.Events.{emit}
use markting_call_center.Core.Session.Lifecycle.{start, close}
use markting_call_center.Core.Session.ToolCalls.{answer_tool}
use markting_call_center.Core.Session.Handlers.{
  handle_provider_event, handle_client_message, handle_audio,
}

module _ (d : SessionDeps) where
  -- `SessionCore.__init__`, with its activity machine.
  unfoldable pub new_session : ActivityMachine → Session
  new_session machine = record {
    log = record {
      readings = 0;
      drawn = 0;
      tried = 0;
      seq = 0;
      events = [];
      event_count = 0;
      sent = [];
      orders = [];
    };
    machines = record { dialog = Dialog.new; activity = machine; activity_state = machine.state };
    knowledge = record {
      fields = from_specs d.required d.optional;
      objectives = record { items = []; max_attempts = 3 };
      focus = record { max_depth = 8; stack = [] };
      pipeline = record { budget = d.budget; seen = []; history = []; emitted = [] };
      flags = [];
      coverage_misses = [];
    };
    voice = record {
      responses = [];
      current_response = none;
      audible = none;
      speech_onset_ms = none;
      playout_stopped = false;
      interruptions = [];
      latency = [];
    };
    course = record {
      turn_no = 0;
      turn_id = none;
      turn_count = 0;
      first_user_turn_ms = none;
      last_user_turn_ms = none;
      handoff_ref = none;
      handoff_ids = [];
      routing_history = [];
      interruption_count = 0;
      started_at_ms = 0;
      ended_at_ms = none;
      provider_open = false;
      instructions_fp = none;
      waiting = none;
      closed = false;
      produced = none;
      close_task = none;
    };
  }

  unfoldable pub made : Result ActivityMachine → Result Session
  made (ok m) = ok (new_session m)
  made (raise x) = raise x

  unfoldable pub init : Result Session
  init = made (Activity.from_blueprint_ref d.table_ref d.inline_table)

  pub init_ok :
      (m : ActivityMachine)
      → Activity.from_blueprint_ref d.table_ref d.inline_table ≡ ok m
      → init ≡ ok (new_session m)
  unfolding init made
  init_ok m h = ap made h

  -- What `init` has made is new.
  pub init_new :
      (r : Result ActivityMachine) (s : Session)
      → made r ≡ ok s
      → (m : ActivityMachine) × (r ≡ ok m) × (new_session m ≡ s)
  unfolding made
  init_new (ok m) s h = (m, refl, cc)
  init_new (raise x) s h = cc

  -- `close` where the session still runs.
  unfoldable pub close_open : Action Unit
  close_open = do
    over ← gets (λ s. s.course.closed)
    when (not over) (close d "pump_finished" >> pure tt)

  -- The end of the client's stream.
  unfoldable pub left : Action Unit
  left = emit d (transport_disconnected "client eof") >> close d "client_disconnected" >> pure tt

  -- What the pumps do with what reaches them; that of the provider is held up while a tool call waits
  -- for the user. A pump ends after the item on which the session closed, and the others are then
  -- cancelled, perhaps after some more items: here any further items are handled.
  unfoldable pub receive : Input → Action Unit
  receive (provider_event ev) = do
    held ← gets (λ s. is_some s.course.waiting)
    when (not held) (handle_provider_event d ev)
  receive (client_message msg stopped) = handle_client_message d msg stopped
  receive (client_audio push stopped) = handle_audio d push stopped
  receive answered = answer_tool d
  receive client_eof = do over ← gets (λ s. s.course.closed); when (not over) left

  unfoldable pub settle : Result {0} Unit → Session → Session
  settle (ok _) s = s
  settle (raise x) s = (close_open s).1

  unfoldable pub step : Session → Input → Session
  step s i = let (r, s') = receive i s in settle r s'

  unfoldable pub serve : Session → List Input → Session
  serve s [] = s
  serve s (i ∷ is) = serve (step s i) is

  -- `run` after the start, which may have raised.
  unfoldable pub go_on : Result {0} Bool → Session → List Input → Session
  go_on (ok _) s inputs = (close_open (serve s inputs)).1
  go_on (raise x) s inputs = s

  -- `run`, on what reaches the session: its state at the end.
  unfoldable pub run : Session → List Input → Session
  run s inputs = let (r, s') = start d s in go_on r s' inputs
