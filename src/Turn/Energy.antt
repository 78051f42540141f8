-- ===== src/Turn/Energy.antt =====
-- qevion/adapters/turn/energy.py, EnergyTurnDetector: the state machine that the energy and the Silero
-- detectors share. Frames are of any type; `prob_fn` gives a frame's probability of speech, `ge`
-- compares two probabilities, and `duration` is the whole milliseconds of its samples, which Python
-- computes with floats.
pub mod Turns
pub mod Silence
use markting_call_center.Base.{
  ℕ, ◌+◌, ◌/◌, max, Bool, true, false, not, ◌&&◌, leb, nat_eq, ◌==◌, if◌then◌else◌, List, [], ◌∷◌,
  ◌++◌,
}

pub data TurnEventType : Type 0 where
  speech_start speech_continuing speech_pause end_of_turn_candidate : TurnEventType
  end_of_turn barge_in noise_rejected : TurnEventType

-- The confidence of an event: the probability that was measured, or so many thousandths.
pub data Confidence (P : Type 0) : Type 0 where
  measured : P → Confidence P
  thousandths : ℕ → Confidence P

pub record TurnEvent (P : Type 0) : Type 0 where
  pub kind : TurnEventType
  pub ts_ms : ℕ
  pub confidence : Confidence P
  pub speech_ms : ℕ
  pub silence_ms : ℕ

pub record TurnDetectorConfig (P : Type 0) : Type 0 where
  pub threshold : P
  pub min_speech_ms : ℕ
  pub min_silence_ms : ℕ
  pub barge_in_min_speech_ms : ℕ

pub record Detector (P : Type 0) : Type 0 where
  pub config : TurnDetectorConfig P
  pub in_speech : Bool
  pub speech_ms : ℕ
  pub silence_ms : ℕ
  pub candidate_emitted : Bool
  pub barge_emitted : Bool

-- What `push` is called with.
pub record Push (F : Type 0) : Type 0 where
  pub frame : F
  pub ts_ms : ℕ
  pub assistant_speaking : Bool

module _ {P : Type 0} where
  unfoldable pub reset : Detector P → Detector P
  reset d = record d {
    in_speech = false;
    speech_ms = 0;
    silence_ms = 0;
    candidate_emitted = false;
    barge_emitted = false;
  }

  unfoldable pub configure : Detector P → TurnDetectorConfig P → Detector P
  unfolding reset
  configure d config = reset (record d { config = config })

  abbrev pub ev : Detector P → ℕ → TurnEventType → Confidence P → TurnEvent P
  ev d ts_ms kind confidence = record {
    kind = kind;
    ts_ms = ts_ms;
    confidence = confidence;
    speech_ms = d.speech_ms;
    silence_ms = d.silence_ms;
  }

  -- `if not self._in_speech`, once the speech is counted.
  unfoldable pub started : Detector P → P → ℕ → Detector P × List (TurnEvent P)
  started d p ts_ms =
      if d.in_speech
      then (d, ev d ts_ms TurnEventType.speech_continuing (measured p) ∷ [])
      else if leb d.config.min_speech_ms d.speech_ms
      then (
        record d { in_speech = true; candidate_emitted = false },
        ev d ts_ms TurnEventType.speech_start (measured p) ∷ [],
      )
      else (d, [])

  -- The barge-in test.
  unfoldable pub barged :
      Detector P × List (TurnEvent P) → P → ℕ → Bool → Detector P × List (TurnEvent P)
  barged (d, out) p ts_ms speaking =
      if d.in_speech
        && speaking
        && not d.barge_emitted
        && leb d.config.barge_in_min_speech_ms d.speech_ms
      then (
        record d { barge_emitted = true },
        out ++ ev d ts_ms TurnEventType.barge_in (measured p) ∷ [],
      )
      else (d, out)

  unfoldable pub push_voiced :
      Detector P → P → (frame_ms ts_ms : ℕ) → Bool → Detector P × List (TurnEvent P)
  unfolding started barged
  push_voiced d p frame_ms ts_ms speaking =
      barged (started (record d { silence_ms = 0; speech_ms = d.speech_ms + frame_ms }) p ts_ms) p
        ts_ms speaking

  -- `elif self._in_speech`, once the silence is counted.
  unfoldable pub paused : Detector P → (frame_ms ts_ms : ℕ) → Detector P × List (TurnEvent P)
  unfolding reset
  paused d frame_ms ts_ms =
      if leb d.config.min_silence_ms d.silence_ms
      then (reset d, ev d ts_ms TurnEventType.end_of_turn (thousandths 1000) ∷ [])
      else if leb (d.config.min_silence_ms / 2) d.silence_ms && not d.candidate_emitted
      then (
        record d { candidate_emitted = true },
        ev d ts_ms TurnEventType.end_of_turn_candidate (thousandths 600) ∷ [],
      )
      else if d.silence_ms == frame_ms
      then (d, ev d ts_ms TurnEventType.speech_pause (thousandths 500) ∷ [])
      else (d, [])

  unfoldable pub push_silent :
      Detector P → P → (frame_ms ts_ms : ℕ) → Detector P × List (TurnEvent P)
  unfolding paused
  push_silent d p frame_ms ts_ms =
      if d.in_speech
      then paused (record d { silence_ms = d.silence_ms + frame_ms }) frame_ms ts_ms
      else (
        record d { speech_ms = 0 },
        (if d.speech_ms == 0
            then []
            else ev d ts_ms TurnEventType.noise_rejected (measured p) ∷ []),
      )

module _ {P F : Type 0} (prob_fn : F → P) (ge : P → P → Bool) (duration : F → ℕ) where
  abbrev pub frame_ms : F → ℕ
  frame_ms f = max 1 (duration f)

  unfoldable pub push : Detector P → Push F → Detector P × List (TurnEvent P)
  unfolding push_voiced push_silent
  push d c =
      let p = prob_fn c.frame in
      if ge p d.config.threshold
      then push_voiced d p (frame_ms c.frame) c.ts_ms c.assistant_speaking
      else push_silent d p (frame_ms c.frame) c.ts_ms

  unfoldable pub push_each : Detector P → List (Push F) → Detector P × List (TurnEvent P)
  push_each d [] = (d, [])
  push_each d (c ∷ cs) =
      let (d', out) = push d c in let (d'', more) = push_each d' cs in (d'', out ++ more)
