-- ===== src/Core/Session/Frames/Inputs.antt =====
-- Frames of the handlers, and of all that a session does with what reaches it.
use markting_call_center.Base.{
  ◌≡◌, refl, String, Bool, Option, none, some, List, [], ◌∷◌, Dict, Result, ok, raise,
}
use markting_call_center.Contracts.Values.{Value}
use markting_call_center.Core.Session.Data as Data
use markting_call_center.Core.Session.Data.{
  Session, SessionDeps, ResponseTrack, S2SEvent, ClientMessage, ProviderError, Input,
}
use markting_call_center.Core.Session.Actions.{Keeps}
use markting_call_center.Core.Session.Handlers.{
  handle_client_message, response_name, handle_response_started, change_live, change_track,
  tool_called, handle_tool_call, response_over, end_response, refused_done, handle_response_done,
  cancel_track, handle_error, handle_provider_event,
}
use markting_call_center.Core.Session.Steps.{
  left, close_open, receive, settle, step, serve, go_on, run,
}
use markting_call_center.Core.Session.Frames.{
  IsFrame, frame_rules, start-Keeps, close-Keeps, evaluate_completion-Keeps, start,
}
use markting_call_center.Core.Session.Frames.Talk.{
  text-Keeps, turn-Keeps, audio-Keeps, resolve-Keeps, playout_over-Keeps, playout_begun-Keeps,
}
use markting_call_center.Core.Session.Frames.Work.{IsFull, run_tool-Keeps, answer-Keeps}

module _ {d : SessionDeps} {P : Session → Type 0} (f : IsFrame d P) where
  pub client-Keeps :
      (msg : ClientMessage) (stopped : Bool) → Keeps P (handle_client_message d msg stopped)
  unfolding handle_client_message
  client-Keeps (Data.text_message text) stopped = text-Keeps f _ stopped
  client-Keeps (Data.confirm none granted) stopped = search frame_rules
  client-Keeps (Data.confirm (some call_id) granted) stopped =
      search (frame_rules, resolve-Keeps) depth 20
  client-Keeps (Data.playout_stopped rid) stopped =
      search (frame_rules, playout_over-Keeps) depth 20
  client-Keeps (Data.playout_started rid) stopped =
      search (frame_rules, playout_begun-Keeps) depth 20
  client-Keeps Data.audio_commit stopped = search (frame_rules, turn-Keeps) depth 20
  client-Keeps Data.bye stopped = search (frame_rules, close-Keeps) depth 20
  client-Keeps Data.ping stopped = search frame_rules
  client-Keeps Data.other_message stopped = search frame_rules

  response_name-Keeps : (rid : String) → Keeps P (response_name d rid)
  unfolding response_name
  response_name-Keeps rid = search frame_rules depth 20

  started-Keeps : (rid : String) → Keeps P (handle_response_started d rid)
  unfolding handle_response_started
  started-Keeps rid = search (frame_rules, response_name-Keeps) depth 30

  change_live-Keeps :
      (rid : String) (g : ResponseTrack → ResponseTrack) (tr : Option ResponseTrack)
      → Keeps P (change_live d rid g tr)
  unfolding change_live
  change_live-Keeps rid g none = search frame_rules
  change_live-Keeps rid g (some tr) = search frame_rules depth 20

  change-Keeps : (rid : String) (g : ResponseTrack → ResponseTrack) → Keeps P (change_track d rid g)
  unfolding change_track
  change-Keeps rid g = search (frame_rules, change_live-Keeps) depth 20

  over-Keeps : (rid : String) (tr : Option ResponseTrack) → Keeps P (response_over d rid tr)
  unfolding response_over
  over-Keeps rid none = search frame_rules
  over-Keeps rid (some tr) = search frame_rules depth 20

  end-Keeps : (rid : String) (tr : Option ResponseTrack) → Keeps P (end_response d rid tr)
  unfolding end_response
  end-Keeps rid tr = search (frame_rules, over-Keeps, evaluate_completion-Keeps) depth 20

  refused-Keeps :
      (rid : String) (tr : Option ResponseTrack) (current : Option String)
      → Keeps P (refused_done d rid tr current)
  unfolding refused_done
  refused-Keeps rid none current = end-Keeps rid none
  refused-Keeps rid (some tr) current = search (frame_rules, end-Keeps) depth 20

  done-Keeps : (rid : String) → Keeps P (handle_response_done d rid)
  unfolding handle_response_done
  done-Keeps rid = search (frame_rules, refused-Keeps) depth 20

  cancel_track-Keeps : (rid : String) (tr : Option ResponseTrack) → Keeps P (cancel_track d rid tr)
  unfolding cancel_track
  cancel_track-Keeps rid none = search frame_rules
  cancel_track-Keeps rid (some tr) = search frame_rules depth 20

  error-Keeps : (err : Option ProviderError) → Keeps P (handle_error d err)
  unfolding handle_error
  error-Keeps err = search frame_rules depth 20

  -- A provider's event, if its tool call, where it is one, keeps the property.
  pub provider-Keeps :
      (ev : S2SEvent)
      → ((rid : String) (call : Option (String × String × Dict String Value))
          → ev ≡ Data.response_tool_call rid call
          → Keeps P (handle_tool_call d rid call))
      → Keeps P (handle_provider_event d ev)
  unfolding handle_provider_event
  provider-Keeps (Data.response_started rid) k = started-Keeps _
  provider-Keeps (Data.response_text_delta rid text) k = change-Keeps rid _
  provider-Keeps (Data.response_audio_delta rid none) k = search frame_rules
  provider-Keeps (Data.response_audio_delta rid (some ms)) k = change-Keeps rid _
  provider-Keeps (Data.response_tool_call rid call) k = k rid call refl
  provider-Keeps (Data.response_done rid) k = done-Keeps rid
  provider-Keeps (Data.response_cancelled rid) k = search (frame_rules, cancel_track-Keeps) depth 20
  provider-Keeps (Data.input_transcript text item_id) k = search frame_rules depth 20
  provider-Keeps (Data.error err) k = error-Keeps err
  provider-Keeps Data.closed k = search (frame_rules, close-Keeps) depth 20
  provider-Keeps Data.other_event k = search frame_rules

  pub left-Keeps : Keeps P (left d)
  unfolding left
  left-Keeps = search (frame_rules, close-Keeps) depth 20

  close_open-Keeps : Keeps P (close_open d)
  unfolding close_open
  close_open-Keeps = search (frame_rules, close-Keeps) depth 20

  pub settle-At : (r : Result {0} Unit) (s : Session) → P s → P (settle d r s)
  unfolding settle
  settle-At (ok _) s h = h
  settle-At (raise x) s h = close_open-Keeps.at s h

module _ {d : SessionDeps} {P : Session → Type 0} (f : IsFull d P) where
  tool_called-Keeps :
      (call : Option (String × String × Dict String Value)) → Keeps P (tool_called d call)
  unfolding tool_called
  tool_called-Keeps none = search frame_rules
  tool_called-Keeps (some (call_id, tool_id, arguments)) =
      search (frame_rules, run_tool-Keeps, f.frame) depth 20

  tool_call-Keeps :
      (rid : String) (call : Option (String × String × Dict String Value))
      → Keeps P (handle_tool_call d rid call)
  unfolding handle_tool_call
  tool_call-Keeps rid call = search (frame_rules, tool_called-Keeps, f.frame) depth 20

  pub any_event-Keeps : (ev : S2SEvent) → Keeps P (handle_provider_event d ev)
  any_event-Keeps ev = provider-Keeps f.frame ev (λ rid call _. tool_call-Keeps rid call)

  receive-Keeps : (i : Input) → Keeps P (receive d i)
  unfolding receive
  receive-Keeps (Data.provider_event ev) = search (frame_rules, any_event-Keeps) depth 20
  receive-Keeps (Data.client_message msg stopped) = client-Keeps f.frame msg stopped
  receive-Keeps (Data.client_audio push stopped) = audio-Keeps f.frame push stopped
  receive-Keeps Data.answered = search (frame_rules, answer-Keeps) depth 20
  receive-Keeps Data.client_eof = search (frame_rules, left-Keeps, f.frame) depth 20

  pub step-At : (s : Session) (i : Input) → P s → P (step d s i)
  unfolding step
  step-At s i h = settle-At f.frame (receive d i s).0 (receive d i s).1 ((receive-Keeps i).at s h)

  pub serve-At : (s : Session) (is : List Input) → P s → P (serve d s is)
  unfolding serve
  serve-At s [] h = h
  serve-At s (i ∷ is) h = serve-At (step d s i) is (step-At s i h)

  go_on-At : (r : Result {0} Bool) (s : Session) (is : List Input) → P s → P (go_on d r s is)
  unfolding go_on
  go_on-At (ok _) s is h = (close_open-Keeps f.frame).at (serve d s is) (serve-At s is h)
  go_on-At (raise x) s is h = h

  -- What the start and every step keep holds throughout a run.
  pub run-At : (s : Session) (is : List Input) → P s → P (run d s is)
  unfolding run
  run-At s is h = go_on-At (start d s).0 (start d s).1 is ((start-Keeps f.frame).at s h)
