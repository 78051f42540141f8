-- ===== src/Turn/Energy/Silence.antt =====
-- Silence ends a turn.
use mathlib.Core.List.{map-append}
use markting_call_center.Base.{
  ℕ, ◌+◌, ◌/◌, ◌≤◌, ◌<◌, Bool, true, false, not, ◌&&◌, leb, nat_eq, ◌==◌, List, [], ◌∷◌, ◌≡◌, refl,
  if_true, Bool-cases, inl, inr, arith, Memᴰ, mem-append_left, mem-append_right, All,
}
use markting_call_center.Turn.Energy.{
  TurnEventType, TurnEvent, Detector, Push, push, push_each, push_silent, paused, frame_ms,
}
use markting_call_center.Turn.Energy.Turns.{kinds}

module _ {P : Type 0} where
  -- A pause that is too short to end the turn.
  record IsWaiting (d : Detector P) (ms : ℕ) (r : Detector P × List (TurnEvent P)) : Type 0 where
    still_speech : r.0.in_speech ≡ true
    same_config : r.0.config ≡ d.config
    longer : r.0.silence_ms ≡ d.silence_ms + ms

  paused-IsWaiting :
      (d : Detector P) (ms ts : ℕ)
      → d.in_speech ≡ true
      → leb d.config.min_silence_ms (d.silence_ms + ms) ≡ false
      → IsWaiting d ms (paused (record d { silence_ms = d.silence_ms + ms }) ms ts)
  unfolding paused
  paused-IsWaiting d ms ts t n =
      elim (Bool-cases
        (leb (d.config.min_silence_ms / 2) (d.silence_ms + ms) && not d.candidate_emitted)) [
          | inl c ↦ rw (n, c) (record { still_speech = t; same_config = refl; longer = refl })
          | inr c ↦ elim (Bool-cases (d.silence_ms + ms == ms)) [
            | inl q ↦ rw (n, c, q) (record { still_speech = t; same_config = refl; longer = refl })
            | inr q ↦ rw (n, c, q) (record { still_speech = t; same_config = refl; longer = refl })
          ]
        ]

  paused_ends :
      (d : Detector P) (ms ts : ℕ)
      → leb d.config.min_silence_ms (d.silence_ms + ms) ≡ true
      → Memᴰ TurnEventType.end_of_turn
          (kinds (paused (record d { silence_ms = d.silence_ms + ms }) ms ts).1)
  unfolding paused
  paused_ends d ms ts e = rw e (Memᴰ.head refl)

module _ {P F : Type 0} (prob_fn : F → P) (ge : P → P → Bool) (duration : F → ℕ) where
  -- The milliseconds of the frames pushed.
  abbrev pub total : List (Push F) → ℕ
  total [] = 0
  total (c ∷ cs) = frame_ms prob_fn ge duration c.frame + total cs

  abbrev pub IsSilent : P → Push F → Type 0
  IsSilent threshold c = ge (prob_fn c.frame) threshold ≡ false

  push-paused :
      (d : Detector P) (c : Push F)
      → IsSilent d.config.threshold c
      → d.in_speech ≡ true
      → push prob_fn ge duration d c ≡ (
          let ms = frame_ms prob_fn ge duration c.frame in
          paused (record d { silence_ms = d.silence_ms + ms }) ms c.ts_ms)
  unfolding push push_silent
  push-paused d c s t = rw s (if_true d.in_speech _ _ t)

  -- Inside a turn, frames without speech end the turn as soon as they last for `min_silence_ms`
  -- together with the silence before them, which had not ended it.
  pub push_each_ends :
      (d : Detector P) (cs : List (Push F))
      → All (IsSilent d.config.threshold) cs
      → d.in_speech ≡ true
      → d.silence_ms < d.config.min_silence_ms
      → d.config.min_silence_ms ≤ d.silence_ms + total cs
      → Memᴰ TurnEventType.end_of_turn (kinds (push_each prob_fn ge duration d cs).1)
  unfolding push_each
  push_each_ends d [] s t short long = absurd (omega (arith, short, long))
  push_each_ends d (c ∷ cs) s t short long =
      let ms = frame_ms prob_fn ge duration c.frame in
      let r = push prob_fn ge duration d c in
      let step = push-paused d c s.0 t in
      rw (map-append (λ (e : TurnEvent P). e.kind) r.1 _)
        (elim (Bool-cases (leb d.config.min_silence_ms (d.silence_ms + ms))) [
          | inl e ↦ mem-append_left {xs = kinds r.1} _ (rw step (paused_ends d ms c.ts_ms e))
          | inr n ↦
              let w : IsWaiting d ms r = rw step (paused-IsWaiting d ms c.ts_ms t n) in
              mem-append_right (kinds r.1) (
                push_each_ends r.0 cs (rw w.same_config s.1) w.still_speech
                  (rw (w.same_config, w.longer) (ground (arith, n)))
                  (rw (w.same_config, w.longer) (omega (arith, long))))
        ])
