-- ===== src/Turn/Energy/Turns.antt =====
-- The events of a detector against the grammar of a conversation's turns.
use mathlib.Core.List.{map-append}
use mathlib.Core.Path.{subst}
use markting_call_center.Base.{
  ℕ, ◌+◌, ◌/◌, Bool, true, false, not, ◌&&◌, leb, nat_eq, ◌==◌, if◌then◌else◌, List, [], ◌∷◌, ◌++◌,
  map, Option, none, some, ◌≡◌, refl, sym, if_true, Bool-cases, inl, inr, arith,
}
use markting_call_center.Turn.Energy.{
  TurnEventType, TurnEvent, Detector, Push, push, push_each, push_voiced, push_silent, started,
  barged, paused, reset, frame_ms,
}

-- The grammar: outside a turn only noise and the start of a turn; inside it, at most one barge-in and
-- at most one candidate of its end.
pub data Talk : Type 0 where
  outside : Talk
  inside : (candidate barged : Bool) → Talk

abbrev pub next : Talk → TurnEventType → Option Talk
next outside TurnEventType.noise_rejected = some outside
next outside TurnEventType.speech_start = some (inside false false)
next outside _ = none
next (inside c b) TurnEventType.speech_continuing = some (inside c b)
next (inside c b) TurnEventType.speech_pause = some (inside c b)
next (inside false b) TurnEventType.end_of_turn_candidate = some (inside true b)
next (inside c false) TurnEventType.barge_in = some (inside c true)
next (inside c b) TurnEventType.end_of_turn = some outside
next (inside c b) _ = none

-- The last state, if the grammar takes every event.
abbrev pub follow : Option Talk → List TurnEventType → Option Talk
follow none es = none
follow (some t) [] = some t
follow (some t) (e ∷ es) = follow (next t e) es

follow-append :
    (o : Option Talk) (es fs : List TurnEventType) → follow o (es ++ fs) ≡ follow (follow o es) fs
follow-append none es fs = refl
follow-append (some t) [] fs = refl
follow-append (some t) (e ∷ es) fs = follow-append (next t e) es fs

barge_next : (c : Bool) → next (inside c false) TurnEventType.barge_in ≡ some (inside c true)
barge_next true = refl
barge_next false = refl

module _ {P : Type 0} where
  -- Outside a turn nothing is left of the turn before.
  abbrev pub IsClean : Detector P → Type 0
  IsClean d = d.in_speech ≡ false → d.barge_emitted ≡ false

  abbrev pub talk : Detector P → Talk
  talk d = if d.in_speech then inside d.candidate_emitted d.barge_emitted else outside

  abbrev pub kinds : List (TurnEvent P) → List TurnEventType
  kinds out = map (λ (e : TurnEvent P). e.kind) out

  -- What a push does to a clean detector.
  abbrev pub Follows : Detector P → Detector P × List (TurnEvent P) → Type 0
  Follows d r = IsClean r.0 × (follow (some (talk d)) (kinds r.1) ≡ some (talk r.0))

  started-Follows : (d : Detector P) (p : P) (ts : ℕ) → IsClean d → Follows d (started d p ts)
  unfolding started
  started-Follows d p ts h = elim (Bool-cases d.in_speech) [
    | inl t ↦ rw t (λ e. absurd (cc e), refl)
    | inr f ↦ elim (Bool-cases (leb d.config.min_speech_ms d.speech_ms)) [
      | inl t ↦ rw (f, t) (λ e. h f, rw (h f) refl)
      | inr n ↦ rw (f, n) (λ e. h f, refl)
    ]
  ]

  barged-Follows :
      (d : Detector P) (r : Detector P × List (TurnEvent P)) (p : P) (ts : ℕ) (speaking : Bool)
      → Follows d r
      → Follows d (barged r p ts speaking)
  unfolding barged
  barged-Follows d (d', out) p ts speaking h =
      elim (Bool-cases (
        d'.in_speech
        && speaking
        && not d'.barge_emitted
        && leb d'.config.barge_in_min_speech_ms d'.speech_ms)) [
          | inr f ↦ rw f h
          | inl t ↦
              let inn : d'.in_speech ≡ true = ground (arith, t) in
              let quiet : d'.barge_emitted ≡ false = ground (arith, t) in
              rw t (
                λ e. absurd (cc),
                rw (map-append (λ (e : TurnEvent P). e.kind) out _) (
                    rw (follow-append (some (talk d)) (kinds out) _)
                      (rw h.1 (rw (inn, quiet) (barge_next d'.candidate_emitted)))),
              )
        ]

  paused-Follows : (d : Detector P) (ms ts : ℕ) → d.in_speech ≡ true → Follows d (paused d ms ts)
  unfolding paused reset
  paused-Follows d ms ts t = elim (Bool-cases (leb d.config.min_silence_ms d.silence_ms)) [
    | inl e ↦ rw e (λ _. refl, rw t refl)
    | inr n ↦
        elim (Bool-cases
          (leb (d.config.min_silence_ms / 2) d.silence_ms && not d.candidate_emitted)) [
            | inl c ↦
                let fresh : d.candidate_emitted ≡ false = ground (arith, c) in
                rw (n, c) (λ e. absurd (cc), rw (t, fresh) refl)
            | inr c ↦ elim (Bool-cases (d.silence_ms == ms)) [
              | inl q ↦ rw (n, c, q) (λ e. absurd (cc), rw t refl)
              | inr q ↦ rw (n, c, q) (λ e. absurd (cc), refl)
            ]
          ]
  ]

  push_silent-Follows :
      (d : Detector P) (p : P) (ms ts : ℕ) → IsClean d → Follows d (push_silent d p ms ts)
  unfolding push_silent
  push_silent-Follows d p ms ts h = elim (Bool-cases d.in_speech) [
    | inl t ↦
        subst (λ r. Follows d r) (sym (if_true d.in_speech _ _ t))
          (paused-Follows (record d { silence_ms = d.silence_ms + ms }) ms ts t)
    | inr f ↦ elim (Bool-cases (d.speech_ms == 0)) [
      | inl z ↦ rw (f, z) (λ e. h f, refl)
      | inr z ↦ rw (f, z) (λ e. h f, refl)
    ]
  ]

module _ {P F : Type 0} (prob_fn : F → P) (ge : P → P → Bool) (duration : F → ℕ) where
  push-Follows :
      (d : Detector P) (c : Push F) → IsClean d → Follows d (push prob_fn ge duration d c)
  unfolding push push_voiced
  push-Follows d c h = elim (Bool-cases (ge (prob_fn c.frame) d.config.threshold)) [
    | inl t ↦ rw t (
        barged-Follows d _ (prob_fn c.frame) c.ts_ms c.assistant_speaking (
          started-Follows
            (record d {
              silence_ms = 0;
              speech_ms = d.speech_ms + frame_ms prob_fn ge duration c.frame;
            })
            (prob_fn c.frame) c.ts_ms h))
    | inr f ↦ rw f (push_silent-Follows d (prob_fn c.frame) _ c.ts_ms h)
  ]

  -- Whatever frames are pushed, the events are those of turns, one after the other: a turn starts only
  -- outside a turn, ends only inside one, and between these has at most one barge-in and at most one
  -- candidate of its end; noise is rejected only outside a turn. This holds from a detector that has
  -- no barge-in left of an earlier turn, and leaves such a one.
  pub push_each-Follows :
      (d : Detector P) (cs : List (Push F))
      → IsClean d
      → Follows d (push_each prob_fn ge duration d cs)
  unfolding push_each
  push_each-Follows d [] h = (h, refl)
  push_each-Follows d (c ∷ cs) h =
      let first = push-Follows d c h in
      let r = push prob_fn ge duration d c in
      let rest = push_each-Follows r.0 cs first.0 in
      (
        rest.0,
        rw (map-append (λ (e : TurnEvent P). e.kind) r.1 _)
            (rw (follow-append (some (talk d)) (kinds r.1) _) (rw first.1 rest.1)),
      )
