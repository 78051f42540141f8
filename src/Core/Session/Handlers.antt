-- ===== src/Core/Session/Handlers.antt =====
-- qevion/core/session.py, Session: the handlers of what the user, the client and the provider send.
use Prim.Native.String.{count, ◌++◌ as str_append}
use markting_call_center.Base.{
  ℕ, ◌+◌, String, string_eq, nat_eq, Bool, true, false, not, ◌&&◌, ◌||◌, ◌==◌, if◌then◌else◌,
  is_some, is_empty, or_else, Option, none, some, List, [], ◌∷◌, Dict, get,
}
use markting_call_center.Contracts.Control.{DialogState, ActivityState, dialog_beq, activity_beq}
use markting_call_center.Contracts.Values.{Value}
use markting_call_center.Core.Fields.{missing_required}
use markting_call_center.Turn.Energy.{TurnEventType}
use markting_call_center.Core.Session.Data as Data
use markting_call_center.Core.Session.Data.{
  Session, SessionDeps, ResponseTrack, TextDigest, S2SEvent, ClientMessage, ProviderError, prefix,
  turn_started, turn_ended, user_speech_committed, user_speech_started, user_speech_discarded,
  send_text, send_audio, commit_input, cancel_response, assistant_playout_ended,
  transport_playout_started, transport_playout_stopped, assistant_response_started,
  assistant_response_cancelled, assistant_response_ended, audio_start, audio_end, transcript, pong,
  user_transcript, provider_error, provider_request_rejected, failure_classified,
  tool_call_from_cancelled_response,
}
use markting_call_center.Core.Session.Actions.{
  Action, pure, gets, modify_voice, modify_course, when, ◌>>=◌, ◌>>◌,
}
use markting_call_center.Core.Session.Events.{
  read_clock, draw_id, emit, send, dialog_fire, activity_fire, order, refresh_instructions, latency,
}
use markting_call_center.Core.Session.Lifecycle.{close, evaluate_completion}
use markting_call_center.Core.Session.ToolCalls.{run_tool}
use markting_call_center.Core.Session.Interruption.{
  set_track, audible_response, interrupt, resolve_confirmation, resolve_confirmation_from_text,
}

-- `x or y` on an optional text.
abbrev or_text : Option String → String → String
or_text none y = y
or_text (some x) y = if x == "" then y else x

unfoldable pub is_cancelled : Option ResponseTrack → Bool
is_cancelled none = false
is_cancelled (some tr) = tr.cancelled

module _ (d : SessionDeps) where
  -- `_digest`
  abbrev digest : String → TextDigest
  digest t = record { text_len = count t; sha = d.sha t }

  -- `_new_turn`
  unfoldable pub new_turn : Action String
  new_turn = do
    n ← gets (λ s. s.course.turn_no + 1)
    modify_course (λ c. record c {
      turn_no = n;
      turn_id = some (str_append "turn_" (d.decimal n));
      turn_count = n;
    })
    now ← read_clock d
    modify_course (λ c. record c {
      first_user_turn_ms = some (or_else c.first_user_turn_ms now);
      last_user_turn_ms = some now;
    })
    pure (str_append "turn_" (d.decimal n))

  -- `_begin_user_turn`
  unfoldable pub begin_user_turn : String → Action String
  begin_user_turn channel = do
    cut_off ← gets (λ s. dialog_beq s.machines.dialog.state DialogState.interrupted)
    when cut_off (dialog_fire d "reconciled" none >> pure tt)
    tid ← new_turn
    emit d (turn_started channel)
    emit d (user_speech_committed tid)
    pure tid

  -- `_after_user_turn`
  unfoldable pub after_user_turn : Action Unit
  after_user_turn = do
    activity_fire d "user_engaged" "user turn" "core"
    lacking ← gets (λ s.
        not (is_empty (missing_required s.knowledge.fields))
        && activity_beq s.machines.activity.state ActivityState.engaged)
    when lacking (activity_fire d "field_needed" "required fields missing" "core" >> pure tt)
    refresh_instructions d
    pure tt

  -- `self.dialog.state is SPEAKING or self.audible_response() is not None`
  unfoldable pub speaking_now : Action Bool
  speaking_now = do
    speaking ← gets (λ s. dialog_beq s.machines.dialog.state DialogState.speaking)
    if speaking then pure true else do a ← audible_response d; pure (is_some a)

  unfoldable pub text_turn : String → Action Unit
  text_turn text = do
    tid ← begin_user_turn "text"
    dialog_fire d "text_received" none
    after_user_turn
    order d (send_text text)
    emit d (turn_ended tid)

  -- `self._closed or not self._provider`
  abbrev is_deaf : Session → Bool
  is_deaf s = s.course.closed || not s.course.provider_open

  unfoldable pub interrupt_by_text : Bool → Action Unit
  interrupt_by_text stopped = do onset ← read_clock d; interrupt d onset none stopped; pure tt

  unfoldable pub handle_text : String → Bool → Action Unit
  handle_text text stopped = do
    deaf ← gets is_deaf
    if deaf then pure tt else do
      speaking ← speaking_now
      when speaking (interrupt_by_text stopped)
      asked ← gets (λ s.
          dialog_beq s.machines.dialog.state DialogState.waiting_confirmation
          && is_some s.course.waiting)
      if asked then resolve_confirmation_from_text d text >> pure tt else text_turn text

  -- `self._speech_onset_ms or tev.ts_ms`
  abbrev onset_or : Option ℕ → ℕ → ℕ
  onset_or none t = t
  onset_or (some o) t = if o == 0 then t else o

  unfoldable pub onset_latency : Option ℕ → ℕ → Action Unit
  onset_latency none ts_ms = pure tt
  onset_latency (some onset) ts_ms = latency d "speech_onset_to_commit" ts_ms onset

  unfoldable pub handle_turn_event : TurnEventType → ℕ → Bool → Action Unit
  handle_turn_event TurnEventType.speech_start ts_ms stopped = do
    modify_voice (λ v. record v { speech_onset_ms = some ts_ms })
    emit d (user_speech_started false)
  handle_turn_event TurnEventType.barge_in ts_ms stopped = do
    emit d (user_speech_started true)
    onset ← gets (λ s. s.voice.speech_onset_ms)
    interrupt d (onset_or onset ts_ms) (some ts_ms) stopped
    pure tt
  handle_turn_event TurnEventType.end_of_turn ts_ms stopped = do
    onset ← gets (λ s. s.voice.speech_onset_ms)
    onset_latency onset ts_ms
    modify_voice (λ v. record v { speech_onset_ms = none })
    begin_user_turn "audio"
    dialog_fire d "end_of_turn" none
    after_user_turn
    order d commit_input
  handle_turn_event TurnEventType.noise_rejected ts_ms stopped = do
    emit d (user_speech_discarded "noise")
    modify_voice (λ v. record v { speech_onset_ms = none })
  handle_turn_event _ ts_ms stopped = pure tt

  unfoldable pub handle_turn_events : List (TurnEventType × ℕ) → Bool → Action Unit
  handle_turn_events [] stopped = pure tt
  handle_turn_events ((kind, ts_ms) ∷ evs) stopped =
      handle_turn_event kind ts_ms stopped >> handle_turn_events evs stopped

  unfoldable pub handle_audio : (ℕ → Bool → List (TurnEventType × ℕ)) → Bool → Action Unit
  handle_audio push stopped = do
    deaf ← gets is_deaf
    if deaf then pure tt else do
      speaking ← speaking_now
      now ← read_clock d
      handle_turn_events (push now speaking) stopped
      order d send_audio

  -- `msg.response_id in (None, self._audible)`
  abbrev concerns : Option String → String → Bool
  concerns none audible = true
  concerns (some rid) audible = rid == audible

  unfoldable pub playout_over : Option String → Option String → Action Unit
  playout_over response_id none = pure tt
  playout_over response_id (some audible) =
      when (concerns response_id audible) (
        modify_voice (λ v. record v { audible = none }) >> emit d (assistant_playout_ended audible))

  unfoldable pub playout_begun : String → Option ResponseTrack → Action Unit
  playout_begun rid none = pure tt
  playout_begun rid (some tr) =
      when (not (is_some tr.playout_started_ms))
        (do now ← read_clock d; set_track rid (record tr { playout_started_ms = some now }))

  unfoldable pub handle_client_message : ClientMessage → Bool → Action Unit
  handle_client_message (Data.text_message text) stopped = handle_text (or_else text "") stopped
  handle_client_message (Data.confirm none granted) stopped = pure tt
  handle_client_message (Data.confirm (some call_id) granted) stopped =
      when (not (call_id == "")) (resolve_confirmation d call_id granted >> pure tt)
  handle_client_message (Data.playout_stopped response_id) stopped = do
    modify_voice (λ v. record v { playout_stopped = true })
    emit d (transport_playout_stopped response_id)
    audible ← gets (λ s. s.voice.audible)
    playout_over response_id audible
  handle_client_message (Data.playout_started response_id) stopped = do
    tr ← gets (λ s. get s.voice.responses (or_else response_id ""))
    playout_begun (or_else response_id "") tr
    emit d (transport_playout_started response_id)
  handle_client_message Data.audio_commit stopped = do
    now ← read_clock d
    handle_turn_event TurnEventType.end_of_turn now stopped
  handle_client_message Data.bye stopped = close d "user_bye" >> pure tt
  handle_client_message Data.ping stopped = send d pong
  handle_client_message Data.other_message stopped = pure tt

  new_track : String → ℕ → Bool → ResponseTrack
  new_track rid now cancelled = record {
    response_id = rid;
    started_ms = now;
    text = "";
    audio_ms_sent = 0;
    cancelled = cancelled;
    done = false;
    playout_started_ms = none;
  }

  -- `rid or new_id("resp")`
  unfoldable pub response_name : String → Action String
  response_name rid = if rid == "" then draw_id d "resp" else pure rid

  unfoldable pub handle_response_started : String → Action Unit
  unfolding new_track
  handle_response_started given = do
    cut_off ← gets (λ s. dialog_beq s.machines.dialog.state DialogState.interrupted)
    rid ← response_name given
    now ← read_clock d
    set_track rid (new_track rid now cut_off)
    if cut_off
        then order d (cancel_response rid) >> emit d (assistant_response_cancelled rid none)
        else do
          modify_voice (λ v. record v {
            current_response = some rid;
            audible = if d.channel == "text" then none else some rid;
            playout_stopped = false;
          })
          emit d (assistant_response_started rid)
          dialog_fire d "response_started" none
          send d (audio_start rid)

  -- A change of a response that is known and not cancelled.
  unfoldable pub change_live :
      String → (ResponseTrack → ResponseTrack) → Option ResponseTrack → Action Unit
  change_live rid f none = pure tt
  change_live rid f (some tr) = if tr.cancelled then pure tt else set_track rid (f tr)

  unfoldable pub change_track : String → (ResponseTrack → ResponseTrack) → Action Unit
  change_track rid f = do tr ← gets (λ s. get s.voice.responses rid); change_live rid f tr

  unfoldable pub tool_called : Option (String × String × Dict String Value) → Action Unit
  tool_called none = pure tt
  tool_called (some (call_id, tool_id, arguments)) =
      dialog_fire d "tool_requested" none >> run_tool d call_id tool_id arguments

  unfoldable pub handle_tool_call :
      String → Option (String × String × Dict String Value) → Action Unit
  unfolding is_cancelled
  handle_tool_call rid call = do
    refused ← gets (λ s. is_cancelled (get s.voice.responses rid))
    if refused
        then emit d (failure_classified (tool_call_from_cancelled_response rid))
        else tool_called call

  -- `self._current_response == rid`
  abbrev is_response : Option String → String → Bool
  is_response none rid = false
  is_response (some r) rid = r == rid

  -- `tr.text[:2000] if (self.deps.operator_transcripts and tr.text) else None`
  abbrev shown : String → Option String
  shown text = if d.operator_transcripts && not (text == "") then some (prefix 2000 text) else none

  -- The part of RESPONSE_DONE that a known response has.
  unfoldable pub response_over : String → Option ResponseTrack → Action Unit
  response_over rid none = pure tt
  response_over rid (some tr) = do
    set_track rid (record tr { done = true })
    audible ← gets (λ s. s.voice.audible)
    when (tr.audio_ms_sent == 0 && is_response audible rid)
        (modify_voice (λ v. record v { audible = none }))
    emit d (assistant_response_ended tr.response_id tr.audio_ms_sent (digest tr.text))
    send d (audio_end tr.response_id (shown tr.text) tr.audio_ms_sent)

  unfoldable pub end_response : String → Option ResponseTrack → Action Unit
  end_response rid tr = do
    response_over rid tr
    current ← gets (λ s. s.voice.current_response)
    when (is_response current rid) (modify_voice (λ v. record v { current_response = none }))
    m ← gets (λ s. s.machines.dialog)
    if dialog_beq m.state DialogState.speaking
        then dialog_fire d "response_done" none >> pure tt
        else when (dialog_beq m.state DialogState.thinking)
            (dialog_fire d "nothing_to_say" none >> pure tt)
    evaluate_completion d

  -- `tr and tr.cancelled and rid != self._current_response`
  unfoldable pub refused_done : String → Option ResponseTrack → Option String → Action Unit
  refused_done rid none current = end_response rid none
  refused_done rid (some tr) current =
      if tr.cancelled && not (is_response current rid)
      then set_track rid (record tr { done = true })
      else end_response rid (some tr)

  unfoldable pub handle_response_done : String → Action Unit
  handle_response_done rid = do
    tr ← gets (λ s. get s.voice.responses rid)
    current ← gets (λ s. s.voice.current_response)
    refused_done rid tr current

  unfoldable pub cancel_track : String → Option ResponseTrack → Action Unit
  cancel_track rid none = pure tt
  cancel_track rid (some tr) = set_track rid (record tr { cancelled = true })

  abbrev code_of : Option ProviderError → Option String
  code_of none = none
  code_of (some e) = e.provider_code

  -- `err.fatal if err else True`, and `err and err.retryable`
  abbrev is_fatal : Option ProviderError → Bool
  is_fatal none = true
  is_fatal (some e) = e.fatal

  abbrev is_retryable : Option ProviderError → Bool
  is_retryable none = false
  is_retryable (some e) = e.retryable

  abbrev error_code : Option ProviderError → String
  error_code none = "unknown"
  error_code (some e) = e.code

  unfoldable pub handle_error : Option ProviderError → Action Unit
  handle_error err = do
    emit d (provider_error (error_code err) (is_retryable err) (is_fatal err))
    if is_fatal err && not (is_retryable err)
        then activity_fire d "blocked" "provider error" "core" >> pure tt
        else emit d (failure_classified (provider_request_rejected (code_of err)))

  unfoldable pub handle_provider_event : S2SEvent → Action Unit
  handle_provider_event (Data.response_started rid) = handle_response_started (or_text rid "")
  handle_provider_event (Data.response_text_delta rid text) =
      change_track rid (λ tr. record tr { text = str_append tr.text text })
  handle_provider_event (Data.response_audio_delta rid none) = pure tt
  handle_provider_event (Data.response_audio_delta rid (some ms)) =
      change_track rid (λ tr. record tr { audio_ms_sent = tr.audio_ms_sent + ms })
  handle_provider_event (Data.response_tool_call rid call) = handle_tool_call rid call
  handle_provider_event (Data.response_done rid) = handle_response_done rid
  handle_provider_event (Data.response_cancelled rid) = do
    tr ← gets (λ s. get s.voice.responses rid)
    cancel_track rid tr
    modify_voice (λ v. record v { playout_stopped = true })
  handle_provider_event (Data.input_transcript text item_id) = do
    emit d (user_transcript (digest text))
    when (d.operator_transcripts && not (text == ""))
        (send d (transcript (prefix 2000 text) item_id))
  handle_provider_event (Data.error err) = handle_error err
  handle_provider_event Data.closed = do
    over ← gets (λ s. s.course.closed)
    when (not over) (close d "provider_closed" >> pure tt)
  handle_provider_event Data.other_event = pure tt
