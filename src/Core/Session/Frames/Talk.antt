-- ===== src/Core/Session/Frames/Talk.antt =====
-- Frames of the interruption protocol, the confirmations and the user's turns.
use markting_call_center.Base.{ℕ, String, Bool, true, false, Option, none, some, List, [], ◌∷◌}
use markting_call_center.Turn.Energy.{TurnEventType}
use markting_call_center.Core.Session.Data.{Session, SessionDeps, ResponseTrack, Waiting}
use markting_call_center.Core.Session.Actions.{Keeps, Keeps-bind}
use markting_call_center.Core.Session.Interruption.{
  silence, audible_track, audible_from, audible_response, cancel, await_stop, reconcile, detection,
  interrupt_response, target, interrupt_target, interrupt, resolve_waiting, resolve_confirmation,
  resolve_reading, resolve_text, resolve_confirmation_from_text,
}
use markting_call_center.Core.Session.Handlers.{
  new_turn, begin_user_turn, after_user_turn, speaking_now, text_turn, interrupt_by_text,
  handle_text, onset_latency, handle_turn_event, handle_turn_events, handle_audio, playout_over,
  playout_begun,
}
use markting_call_center.Core.Session.Frames.{IsFrame, frame_rules, refresh-Keeps}

module _ {d : SessionDeps} {P : Session → Type 0} (f : IsFrame d P) where
  silence-Keeps : Keeps P (silence d)
  unfolding silence
  silence-Keeps = search frame_rules depth 20

  audible_track-Keeps :
      (rid : String) (tr : Option ResponseTrack) → Keeps P (audible_track d rid tr)
  unfolding audible_track
  audible_track-Keeps rid none = silence-Keeps
  audible_track-Keeps rid (some tr) = search (frame_rules, silence-Keeps) depth 20

  audible_from-Keeps : (a : Option String) → Keeps P (audible_from d a)
  unfolding audible_from
  audible_from-Keeps none = search frame_rules
  audible_from-Keeps (some rid) = search (frame_rules, audible_track-Keeps) depth 20

  audible-Keeps : Keeps P (audible_response d)
  unfolding audible_response
  audible-Keeps = search (frame_rules, audible_from-Keeps) depth 20

  cancel-Keeps : (rid : String) (tr : ResponseTrack) → Keeps P (cancel d rid tr)
  unfolding cancel
  cancel-Keeps rid tr = search frame_rules depth 20

  await_stop-Keeps : (rid : String) (stopped : Bool) → Keeps P (await_stop d rid stopped)
  unfolding await_stop
  await_stop-Keeps rid true = search frame_rules depth 20
  await_stop-Keeps rid false = search frame_rules depth 20

  reconcile-Keeps :
      (rid : String) (tr : ResponseTrack) (t0 t1 t2 : ℕ) (forced : Bool)
      → Keeps P (reconcile d rid tr t0 t1 t2 forced)
  unfolding reconcile
  reconcile-Keeps rid tr t0 t1 t2 forced = search frame_rules depth 30

  detection-Keeps : (t : Option ℕ) → Keeps P (detection d t)
  unfolding detection
  detection-Keeps none = search frame_rules depth 20
  detection-Keeps (some t) = search frame_rules depth 20

  interrupt_response-Keeps :
      (t0 : ℕ) (t1 : Option ℕ) (stopped late : Bool) (rid : String)
      → Keeps P (interrupt_response d t0 t1 stopped late rid)
  unfolding interrupt_response
  interrupt_response-Keeps t0 t1 stopped late rid =
      search (frame_rules, cancel-Keeps, await_stop-Keeps, reconcile-Keeps, detection-Keeps) depth
        30

  target-Keeps : (speaking : Bool) (rid : Option String) → Keeps P (target d speaking rid)
  unfolding target
  target-Keeps true (some rid) = search frame_rules
  target-Keeps true none = search (frame_rules, audible-Keeps) depth 20
  target-Keeps false rid = search (frame_rules, audible-Keeps) depth 20

  interrupt_target-Keeps :
      (t0 : ℕ) (t1 : Option ℕ) (stopped : Bool) (t : Option (String × Bool))
      → Keeps P (interrupt_target d t0 t1 stopped t)
  unfolding interrupt_target
  interrupt_target-Keeps t0 t1 stopped none = search frame_rules
  interrupt_target-Keeps t0 t1 stopped (some (rid, late)) =
      search (frame_rules, interrupt_response-Keeps) depth 20

  pub interrupt-Keeps :
      (t0 : ℕ) (t1 : Option ℕ) (stopped : Bool) → Keeps P (interrupt d t0 t1 stopped)
  unfolding interrupt
  interrupt-Keeps t0 t1 stopped =
      search (frame_rules, target-Keeps, interrupt_target-Keeps) depth 20

  resolve_waiting-Keeps :
      (w : Option Waiting) (call_id : String) (granted : Option Bool)
      → Keeps P (resolve_waiting d w call_id granted)
  unfolding resolve_waiting
  resolve_waiting-Keeps none call_id granted = search frame_rules
  resolve_waiting-Keeps (some w) call_id granted = search frame_rules depth 20

  pub resolve-Keeps :
      (call_id : String) (granted : Option Bool) → Keeps P (resolve_confirmation d call_id granted)
  unfolding resolve_confirmation
  resolve-Keeps call_id granted = search (frame_rules, resolve_waiting-Keeps) depth 20

  resolve_reading-Keeps :
      (call_id : String) (b : Option Bool) → Keeps P (resolve_reading d call_id b)
  unfolding resolve_reading
  resolve_reading-Keeps call_id none = search frame_rules depth 20
  resolve_reading-Keeps call_id (some b) = resolve-Keeps call_id (some b)

  resolve_text-Keeps : (text : String) (w : Option Waiting) → Keeps P (resolve_text d text w)
  unfolding resolve_text
  resolve_text-Keeps text none = search frame_rules
  resolve_text-Keeps text (some w) = search (frame_rules, resolve_reading-Keeps) depth 20

  resolve_confirmation_text-Keeps :
      (text : String) → Keeps P (resolve_confirmation_from_text d text)
  unfolding resolve_confirmation_from_text
  resolve_confirmation_text-Keeps text = search (frame_rules, resolve_text-Keeps) depth 20

  new_turn-Keeps : Keeps P (new_turn d)
  unfolding new_turn
  new_turn-Keeps = search frame_rules depth 20

  begin-Keeps : (channel : String) → Keeps P (begin_user_turn d channel)
  unfolding begin_user_turn
  begin-Keeps channel = search (frame_rules, new_turn-Keeps) depth 20

  after-Keeps : Keeps P (after_user_turn d)
  unfolding after_user_turn
  after-Keeps = search (frame_rules, refresh-Keeps) depth 20

  speaking-Keeps : Keeps P (speaking_now d)
  unfolding speaking_now
  speaking-Keeps = search (frame_rules, audible-Keeps) depth 20

  text_turn-Keeps : (text : String) → Keeps P (text_turn d text)
  unfolding text_turn
  text_turn-Keeps text = search (frame_rules, begin-Keeps, after-Keeps) depth 20

  interrupt_by_text-Keeps : (stopped : Bool) → Keeps P (interrupt_by_text d stopped)
  unfolding interrupt_by_text
  interrupt_by_text-Keeps stopped = search (frame_rules, interrupt-Keeps) depth 20

  pub text-Keeps : (text : String) (stopped : Bool) → Keeps P (handle_text d text stopped)
  unfolding handle_text
  text-Keeps text stopped =
      search
        (
          frame_rules, speaking-Keeps, interrupt_by_text-Keeps, resolve_confirmation_text-Keeps,
          text_turn-Keeps,
        )
        depth 20

  onset-Keeps : (onset : Option ℕ) (ts_ms : ℕ) → Keeps P (onset_latency d onset ts_ms)
  unfolding onset_latency
  onset-Keeps none ts_ms = search frame_rules
  onset-Keeps (some onset) ts_ms = search frame_rules

  pub turn-Keeps :
      (kind : TurnEventType) (ts_ms : ℕ) (stopped : Bool)
      → Keeps P (handle_turn_event d kind ts_ms stopped)
  unfolding handle_turn_event
  turn-Keeps TurnEventType.speech_start ts_ms stopped = search frame_rules depth 20
  turn-Keeps TurnEventType.barge_in ts_ms stopped = search (frame_rules, interrupt-Keeps) depth 20
  turn-Keeps TurnEventType.end_of_turn ts_ms stopped =
      search (frame_rules, onset-Keeps, begin-Keeps, after-Keeps) depth 20
  turn-Keeps TurnEventType.noise_rejected ts_ms stopped = search frame_rules depth 20
  turn-Keeps _ ts_ms stopped = search frame_rules

  turns-Keeps :
      (evs : List (TurnEventType × ℕ)) (stopped : Bool) → Keeps P (handle_turn_events d evs stopped)
  unfolding handle_turn_events
  turns-Keeps [] stopped = search frame_rules
  turns-Keeps ((kind, ts_ms) ∷ evs) stopped =
      Keeps-bind _ _ (turn-Keeps kind ts_ms stopped) (λ _. turns-Keeps evs stopped)

  pub audio-Keeps :
      (push : ℕ → Bool → List (TurnEventType × ℕ)) (stopped : Bool)
      → Keeps P (handle_audio d push stopped)
  unfolding handle_audio
  audio-Keeps push stopped = search (frame_rules, speaking-Keeps, turns-Keeps) depth 20

  pub playout_over-Keeps :
      (response_id audible : Option String) → Keeps P (playout_over d response_id audible)
  unfolding playout_over
  playout_over-Keeps response_id none = search frame_rules
  playout_over-Keeps response_id (some a) = search frame_rules depth 20

  pub playout_begun-Keeps :
      (rid : String) (tr : Option ResponseTrack) → Keeps P (playout_begun d rid tr)
  unfolding playout_begun
  playout_begun-Keeps rid none = search frame_rules
  playout_begun-Keeps rid (some tr) = search frame_rules depth 20
