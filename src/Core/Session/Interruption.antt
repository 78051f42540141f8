-- ===== src/Core/Session/Interruption.antt =====
-- qevion/core/session.py, SessionInterruption: which response the user hears, the interruption
-- protocol, and the answers to a pending confirmation. The wait for the client's stop is one step:
-- `stopped` says whether the client reports it in time.
use Prim.Native.String.{count}
use markting_call_center.Base.{
  ℕ, ◌+◌, ◌-◌, min, String, string_eq, nat_eq, Bool, true, false, not, ◌&&◌, ltb, ◌==◌,
  if◌then◌else◌, is_some, or_else, Option, none, some, List, [], ◌∷◌, ◌++◌, map, select, get, put,
  values, Result, ok, raise, key_error,
}
use markting_call_center.Contracts.Control.{DialogState, dialog_beq}
use markting_call_center.Core.Outcome.{Ruling}
use markting_call_center.Core.Session.Data.{
  Session, SessionDeps, ResponseTrack, InterruptionRecord, Waiting, prefix, cancel_response,
  truncate_response, stop_playout, interruption_detected, assistant_response_cancelled,
  failure_classified, playout_stop_timeout, assistant_response_truncated, latency_sample,
  confirmation_decided, user_speech_discarded,
}
use markting_call_center.Core.Session.Actions.{
  Action, pure, gets, from, modify_voice, modify_course, when, ◌>>=◌, ◌>>◌,
}
use markting_call_center.Core.Session.Events.{
  read_clock, emit, send, dialog_fire, activity_fire, order, latency,
}

abbrev pub cancel_force_ms : ℕ
cancel_force_ms = 300

abbrev audible_grace_ms : ℕ
audible_grace_ms = 400

-- `tr.playout_started_ms if tr.playout_started_ms is not None else tr.started_ms`
abbrev pub playout_start : ResponseTrack → ℕ
playout_start tr = or_else tr.playout_started_ms tr.started_ms

abbrev pub set_track : String → ResponseTrack → Action Unit
set_track rid tr = modify_voice (λ v. record v { responses = put v.responses rid tr })

-- `self._responses[rid]`
abbrev pub track_at : String → Option ResponseTrack → Result ResponseTrack
track_at rid none = raise (key_error rid)
track_at rid (some tr) = ok tr

module _ (d : SessionDeps) where
  unfoldable pub silence : Action (Option String)
  silence = do modify_voice (λ v. record v { audible = none }); pure none

  -- `audible_response`, on the response that was audible last.
  unfoldable pub audible_track : String → Option ResponseTrack → Action (Option String)
  audible_track rid none = silence
  audible_track rid (some tr) =
      if tr.cancelled then silence else if not tr.done then pure (some rid) else do
        now ← read_clock d
        if ltb (playout_start tr + tr.audio_ms_sent + audible_grace_ms) now
            then silence
            else pure (some rid)

  unfoldable pub audible_from : Option String → Action (Option String)
  audible_from none = pure none
  audible_from (some rid) = do tr ← gets (λ s. get s.voice.responses rid); audible_track rid tr

  unfoldable pub audible_response : Action (Option String)
  audible_response = do a ← gets (λ s. s.voice.audible); audible_from a

  -- What was played: the time since the start of the playout, at most the audio sent.
  unfoldable pub played_of : ResponseTrack → (t1 : ℕ) → ℕ
  played_of tr t1 = min tr.audio_ms_sent (t1 - playout_start tr)

  -- How much of the text was heard: all of it, where no audio was sent.
  unfoldable pub heard_of : ResponseTrack → (played : ℕ) → ℕ
  heard_of tr played =
      if tr.audio_ms_sent == 0
      then count tr.text
      else d.scaled (count tr.text) played tr.audio_ms_sent

  -- The record of an interruption, from the response as it stands when the playout has stopped.
  unfoldable pub reconciled :
      String → ResponseTrack → (t0 t1 t2 t3 t4 : ℕ) → Bool → InterruptionRecord
  unfolding played_of heard_of
  reconciled rid tr t0 t1 t2 t3 t4 forced = record {
    response_id = rid;
    t0_user_speech_onset = t0;
    t1_barge_in_detected = t1;
    t2_cancel_sent = t2;
    t3_playout_stopped = t3;
    t4_state_reconciled = t4;
    forced = forced;
    played_ms = played_of tr t1;
    heard_text_len = heard_of tr (played_of tr t1);
    unheard_text_len = count tr.text - heard_of tr (played_of tr t1);
  }

  -- The response after step 3: cancelled, and cut to what was heard.
  unfoldable pub cut : ResponseTrack → (t1 : ℕ) → ResponseTrack
  unfolding played_of heard_of
  cut tr t1 = record tr { cancelled = true; text = prefix (heard_of tr (played_of tr t1)) tr.text }

  -- Step 2, CANCEL, up to the client's stop.
  unfoldable pub cancel : String → ResponseTrack → Action ℕ
  cancel rid tr = do
    modify_voice (λ v. record v { playout_stopped = false })
    when (not tr.done) (order d (cancel_response rid))
    send d (stop_playout rid)
    t2 ← read_clock d
    emit d (assistant_response_cancelled rid (some t2))
    pure t2

  -- The end of the wait: `forced` where the client did not report in time.
  unfoldable pub await_stop : String → Bool → Action Unit
  await_stop rid true = modify_voice (λ v. record v { playout_stopped = true })
  await_stop rid false = emit d (failure_classified (playout_stop_timeout rid))

  -- Step 3, RECONCILE.
  unfoldable pub reconcile :
      String → ResponseTrack → (t0 t1 t2 : ℕ) → Bool → Action InterruptionRecord
  unfolding played_of
  reconcile rid tr t0 t1 t2 forced = do
    t3 ← read_clock d
    set_track rid (cut tr t1)
    modify_voice (λ v. record v { audible = none })
    when (not (tr.audio_ms_sent == 0)) (
        order d (truncate_response rid (played_of tr t1))
        >> emit d (assistant_response_truncated rid (played_of tr t1)))
    t4 ← read_clock d
    modify_course (λ c. record c { interruption_count = c.interruption_count + 1 })
    rec ← pure (reconciled rid tr t0 t1 t2 t3 t4 forced)
    modify_voice (λ v. record v { interruptions = v.interruptions ++ rec ∷ [] })
    latency d "barge_in_to_cancel" t2 t1
    latency d "barge_in_to_playout_stop" t3 t1
    latency d "barge_in_to_reconciled" t4 t1
    emit d (latency_sample rec)
    modify_voice (λ v. record v { current_response = none })
    pure rec

  -- `detected_ms or self.clock()`
  unfoldable pub detection : Option ℕ → Action ℕ
  detection none = read_clock d
  detection (some t) = if t == 0 then read_clock d else pure t

  -- `interrupt`, on the response that is cut; `late` says that its generation was over.
  unfoldable pub interrupt_response :
      (onset_ms : ℕ)
      → (detected_ms : Option ℕ) → (stopped late : Bool) → String
      → Action InterruptionRecord
  interrupt_response onset_ms detected_ms stopped late rid = do
    o ← gets (λ s. track_at rid (get s.voice.responses rid))
    tr ← from o
    t1 ← detection detected_ms
    emit d (interruption_detected rid tr.audio_ms_sent late)
    when (not late)
        (dialog_fire d "barge_in" (some "user speech during assistant response") >> pure tt)
    t2 ← cancel rid tr
    await_stop rid stopped
    reconcile rid tr onset_ms t1 t2 (not stopped)

  -- The response to cut, and whether its generation was over.
  unfoldable pub target : Bool → Option String → Action (Option (String × Bool))
  target true (some rid) = pure (some (rid, false))
  target _ _ = do a ← audible_response; pure (elim a [ none ↦ none | some rid ↦ some (rid, true) ])

  unfoldable pub interrupt_target :
      (onset_ms : ℕ)
      → (detected_ms : Option ℕ) → (stopped : Bool) → Option (String × Bool)
      → Action (Option InterruptionRecord)
  interrupt_target onset_ms detected_ms stopped none = pure none
  interrupt_target onset_ms detected_ms stopped (some (rid, late)) = do
    opened ← gets (λ s. s.course.provider_open)
    if not opened
        then pure none
        else do rec ← interrupt_response onset_ms detected_ms stopped late rid; pure (some rec)

  unfoldable pub interrupt :
      (onset_ms : ℕ)
      → (detected_ms : Option ℕ) → (stopped : Bool) → Action (Option InterruptionRecord)
  interrupt onset_ms detected_ms stopped = do
    speaking ← gets (λ s. dialog_beq s.machines.dialog.state DialogState.speaking)
    rid ← gets (λ s. s.voice.current_response)
    t ← target speaking rid
    interrupt_target onset_ms detected_ms stopped t

  -- `heard_context`
  unfoldable pub heard_context : Session → List String
  heard_context s =
      select (λ t. not (t == "")) (map (λ (r : ResponseTrack). r.text) (values s.voice.responses))

  -- The pending call that an answer goes to, and the course after the answer.
  abbrev given : Bool → Waiting → Option Bool → Option Waiting
  given true w granted = some (record w { answer = some granted })
  given false w granted = some w

  unfoldable pub resolve_waiting : Option Waiting → String → Option Bool → Action Bool
  resolve_waiting none call_id granted = pure false
  resolve_waiting (some w) call_id granted =
      let open_ = w.invocation.call_id == call_id && not (is_some w.answer) in
      do modify_course (λ c. record c { waiting = given open_ w granted }); pure open_

  unfoldable pub resolve_confirmation : String → Option Bool → Action Bool
  resolve_confirmation call_id granted = do
    w ← gets (λ s. s.course.waiting)
    resolve_waiting w call_id granted

  -- `ConfirmationInterpreter.interpret`: nothing where it is ambiguous.
  unfoldable pub interpret : Ruling → Option Bool
  interpret r = if r.is_unknown then none else r.value

  unfoldable pub resolve_reading : String → Option Bool → Action Bool
  resolve_reading call_id none = do
    activity_fire d "ambiguity" "ambiguous confirmation" "core:confirmation_interpreter"
    emit d (user_speech_discarded "ambiguous confirmation; re-ask")
    pure true
  resolve_reading call_id (some b) = resolve_confirmation call_id (some b)

  unfoldable pub resolve_text : String → Option Waiting → Action Bool
  unfolding interpret
  resolve_text text none = pure false
  resolve_text text (some w) =
      let reading = interpret (d.interpret_confirmation text) in
      emit d (confirmation_decided reading) >> resolve_reading w.invocation.call_id reading

  unfoldable pub resolve_confirmation_from_text : String → Action Bool
  resolve_confirmation_from_text text = do w ← gets (λ s. s.course.waiting); resolve_text text w
