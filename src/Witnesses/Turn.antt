-- ===== src/Witnesses/Turn.antt =====
-- The turn detector at concrete frames: a frame is its loudness, and every frame lasts 60 ms.
use markting_call_center.Base.{ℕ, Bool, true, false, leb, List, [], ◌∷◌, ◌≡◌, refl, arith, Memᴰ}
use markting_call_center.Turn.Energy.{
  TurnEventType, Detector, Push, push, push_each, push_voiced, push_silent, started, barged, paused,
  reset,
}
use markting_call_center.Turn.Energy.Turns.{Follows, kinds, push_each-Follows}
use markting_call_center.Turn.Energy.Silence.{push_each_ends}

abbrev loudness : ℕ → ℕ
loudness f = f

abbrev ge : ℕ → ℕ → Bool
ge p t = leb t p

abbrev sixty : ℕ → ℕ
sixty f = 60

abbrev detector : Bool → Detector ℕ
detector in_speech = record {
  config = record {
    threshold = 5;
    min_speech_ms = 120;
    min_silence_ms = 100;
    barge_in_min_speech_ms = 150;
  };
  in_speech = in_speech;
  speech_ms = 0;
  silence_ms = 0;
  candidate_emitted = false;
  barge_emitted = false;
}

abbrev frames : List ℕ → List (Push ℕ)
frames [] = []
frames (f ∷ fs) = record { frame = f; ts_ms = 0; assistant_speaking = true } ∷ frames fs

abbrev talking : List ℕ
talking = 9 ∷ 0 ∷ 9 ∷ 9 ∷ 9 ∷ 0 ∷ 0 ∷ []

talking_events :
    kinds (push_each loudness ge sixty (detector false) (frames talking)).1
    ≡ TurnEventType.noise_rejected ∷ TurnEventType.speech_start ∷ TurnEventType.speech_continuing
      ∷ TurnEventType.barge_in ∷ TurnEventType.end_of_turn_candidate ∷ TurnEventType.end_of_turn
      ∷ []
unfolding push_each push push_voiced push_silent started barged paused reset
talking_events = refl

push_each-Follows_example :
    Follows (detector false) (push_each loudness ge sixty (detector false) (frames talking))
push_each-Follows_example =
    push_each-Follows loudness ge sixty (detector false) (frames talking) (λ _. refl)

push_each_ends_example :
    Memᴰ TurnEventType.end_of_turn
      (kinds (push_each loudness ge sixty (detector true) (frames (0 ∷ 0 ∷ []))).1)
push_each_ends_example =
    push_each_ends loudness ge sixty (detector true) (frames (0 ∷ 0 ∷ [])) (refl, (refl, tt)) refl
      (omega arith) (omega arith)
