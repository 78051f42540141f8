-- ===== src/Control/Readiness/Chains.antt =====
-- Every change of a readiness machine is a legal transition from the state before it.
use mathlib.Core.List.{append-nil, append_assoc}
use markting_call_center.Base.{
  if◌then◌else◌, String, string_eq, Bool, true, false, ◌==◌, List, [], ◌∷◌, ◌++◌, ◌≡◌, ◌≢◌, sym, ap,
  ◌∙◌, ◌⊎◌, refl, inl, inr, Bool-cases, Dict, append-nil, contains, is_empty, append_assoc,
  beq_refl,
}
use markting_call_center.Contracts.Readiness.{
  ReadinessState, readiness_eq, can_transition, PreflightResult,
}
use markting_call_center.Control.Readiness.{
  ReadinessChange, ReadinessMachine, ActivationGates, ChangeReason, Attempt, done, refused, can,
  change, transition, path_to, walk, arrive, apply_preflight, apply_simulation, activate, edited,
  suspend, retire, asked, immutable_states, edit_states, preflight_target,
}

-- A state that only `activate` leads to.
abbrev pub IsInactive : ReadinessState → Type 0
IsInactive s = s ≢ ReadinessState.active

abbrev pub Anything : ReadinessState → Type 0
Anything s = Unit

-- A chain of legal changes from one state to another, to states that `P` allows.
abbrev pub Chain :
    (ReadinessState → Type 0) → ReadinessState → List ReadinessChange → ReadinessState → Type 0
Chain P start [] end = start ≡ end
Chain P start (ch ∷ chs) end =
    (ch.from_state ≡ start)
    × (can_transition start ch.to_state ≡ true)
    × P ch.to_state
    × Chain P ch.to_state chs end

Chain-append :
    (P : ReadinessState → Type 0) (a b c : ReadinessState) (xs ys : List ReadinessChange)
    → Chain P a xs b
    → Chain P b ys c
    → Chain P a (xs ++ ys) c
Chain-append P a b c [] ys h k = rw h k
Chain-append P a b c (x ∷ xs) ys h k = (h.0, h.1, h.2, Chain-append P x.to_state b c xs ys h.3 k)

Chain-weaken :
    (P : ReadinessState → Type 0) (a b : ReadinessState) (xs : List ReadinessChange)
    → Chain P a xs b
    → Chain Anything a xs b
Chain-weaken P a b [] h = h
Chain-weaken P a b (x ∷ xs) h = (h.0, h.1, tt, Chain-weaken P x.to_state b xs h.3)

pub Chain-end :
    (P : ReadinessState → Type 0) (a b : ReadinessState) (xs : List ReadinessChange)
    → Chain P a xs b
    → (a ≡ b) ⊎ P b
Chain-end P a b [] h = inl h
Chain-end P a b (x ∷ xs) h = elim (Chain-end P x.to_state b xs h.3) [
  | inl e ↦ inr (rw (← e) h.2)
  | inr q ↦ inr q
]

-- The changes that calls add to the history lead from the one state to the other.
pub record Grows (P : ReadinessState → Type 0) (m m' : ReadinessMachine) : Type 0 where
  pub added : List ReadinessChange
  pub logged : m'.history ≡ m.history ++ added
  pub chained : Chain P m.state added m'.state

Grows-refl : (P : ReadinessState → Type 0) (m : ReadinessMachine) → Grows P m m
Grows-refl P m = record { added = []; logged = sym (append-nil m.history); chained = refl }

Grows-trans :
    (P : ReadinessState → Type 0) {m n k : ReadinessMachine}
    → Grows P m n
    → Grows P n k
    → Grows P m k
Grows-trans P {m} {n} {k} g h = record {
  added = g.added ++ h.added;
  logged = h.logged ∙ ap (λ l. l ++ h.added) g.logged ∙ append_assoc m.history g.added h.added;
  chained = Chain-append P m.state n.state k.state g.added h.added g.chained h.chained;
}

Grows-weaken :
    {P : ReadinessState → Type 0} {m n : ReadinessMachine} → Grows P m n → Grows Anything m n
Grows-weaken {P} {m} {n} g = record {
  added = g.added;
  logged = g.logged;
  chained = Chain-weaken P m.state n.state g.added g.chained;
}

change-Grows :
    (P : ReadinessState → Type 0) (m : ReadinessMachine) (dst : ReadinessState)
    (reason : ChangeReason) (actor : String) (refs : Dict String String)
    → can_transition m.state dst ≡ true
    → P dst
    → Grows P m (change m dst reason actor refs).0
change-Grows P m dst reason actor refs h p = record {
  added = _ ∷ [];
  logged = refl;
  chained = (refl, h, p, refl);
}

inactive : (s : ReadinessState) → (s == ReadinessState.active) ≡ false → IsInactive s
inactive s f e = cc (rw (e, beq_refl ReadinessState.active) at f)

pub transition-Grows :
    (m : ReadinessMachine) (dst : ReadinessState) (reason : ChangeReason) (actor : String)
    (refs : Dict String String)
    → Grows IsInactive m (transition m dst reason actor refs).0
unfolding transition can
transition-Grows m dst reason actor refs = elim (Bool-cases (can_transition m.state dst)) [
  | inr f ↦ rw f (Grows-refl IsInactive m)
  | inl t ↦ elim (Bool-cases (dst == ReadinessState.active)) [
    | inl a ↦ rw (t, a) (Grows-refl IsInactive m)
    | inr n ↦ rw (t, n) (change-Grows IsInactive m dst reason actor refs t (inactive dst n))
  ]
]

-- A walk after its first step.
walk_next :
    (m : ReadinessMachine) (x : ReadinessMachine × Attempt ReadinessChange)
    (path : List ReadinessState) (target : ReadinessState) (actor : String)
    → Grows IsInactive m x.0
    → ((n : ReadinessMachine) → Grows IsInactive n (walk n path target actor).0)
    → let r : ReadinessMachine × Attempt Unit = elim x.1 [
      | done ch ↦ walk x.0 path target actor
      | refused src dst why ↦ (x.0, refused src dst why)
    ] in
      Grows IsInactive m r.0
walk_next m (n, done ch) path target actor first rest = Grows-trans IsInactive first (rest n)
walk_next m (n, refused src dst why) path target actor first rest = first

walk-Grows :
    (path : List ReadinessState) (target : ReadinessState) (actor : String) (m : ReadinessMachine)
    → Grows IsInactive m (walk m path target actor).0
unfolding walk
walk-Grows [] target actor m = Grows-refl IsInactive m
walk-Grows (s ∷ path) target actor m =
    walk_next m (transition m s (ChangeReason.advancing_toward target) actor []) path target actor
      (transition-Grows m s (ChangeReason.advancing_toward target) actor [])
      (walk-Grows path target actor)

arrive-Grows :
    (m : ReadinessMachine) (r : Attempt Unit) (target : ReadinessState) (reason : ChangeReason)
    (actor ref : String)
    → Grows IsInactive m (arrive m r target reason actor ref).0
unfolding arrive can transition
arrive-Grows m (refused src dst why) target reason actor ref = Grows-refl IsInactive m
arrive-Grows m (done _) target reason actor ref =
    elim (Bool-cases (can_transition m.state target)) [
      | inr f ↦ rw f (Grows-refl IsInactive m)
      | inl t ↦ elim (Bool-cases (target == ReadinessState.active)) [
        | inl a ↦ rw (t, a) (Grows-refl IsInactive m)
        | inr n ↦ rw (t, n) (change-Grows IsInactive m target reason actor _ t (inactive target n))
      ]
    ]

pub apply_preflight-Grows :
    (order : (ReadinessState → List ReadinessState)) (m : ReadinessMachine)
    (result : PreflightResult) (ref actor : String)
    → Grows IsInactive m (apply_preflight order m result ref actor).0
unfolding apply_preflight
apply_preflight-Grows order m result ref actor =
    let target = preflight_target result in
    elim (Bool-cases (m.state == target)) [
      | inl t ↦ rw t (Grows-refl IsInactive m)
      | inr f ↦
          let path = if can m target then [] else path_to order m target in
          rw f (
            Grows-trans IsInactive (walk-Grows path target actor m) (
              arrive-Grows (walk m path target actor).0 (walk m path target actor).1 target _ actor
                ref))
    ]

activate-Grows :
    (m : ReadinessMachine) (gates : ActivationGates) (actor preflight_ref simulation_ref : String)
    → Grows Anything m (activate m gates actor preflight_ref simulation_ref).0
unfolding activate
activate-Grows m gates actor preflight_ref simulation_ref =
    elim (Bool-cases (can_transition m.state ReadinessState.active)) [
      | inr f ↦ rw f (Grows-refl Anything m)
      | inl t ↦ elim (Bool-cases (is_empty (asked m.state gates))) [
        | inr n ↦ rw (t, n) (Grows-refl Anything m)
        | inl e ↦ rw (t, e) (change-Grows Anything m ReadinessState.active _ actor _ t tt)
      ]
    ]

pub edited-Grows :
    (m : ReadinessMachine) (actor what : String) → Grows IsInactive m (edited m actor what).0
unfolding edited
edited-Grows m actor what = elim (Bool-cases (contains immutable_states m.state)) [
  | inl t ↦ rw t (Grows-refl IsInactive m)
  | inr f ↦ elim (Bool-cases (contains edit_states m.state)) [
    | inr n ↦ rw (f, n) (Grows-refl IsInactive m)
    | inl e ↦ rw (f, e) (transition-Grows m ReadinessState.needs_configuration _ actor [])
  ]
]

-- A call of one of the methods.
pub data Call : Type 0 where
  moving : ReadinessState → ChangeReason → String → Dict String String → Call
  preflight : PreflightResult → (ref actor : String) → Call
  simulation : Bool → (ref actor : String) → Call
  activating : ActivationGates → (actor preflight_ref simulation_ref : String) → Call
  editing suspending retiring : (actor what : String) → Call

module _ (order : (ReadinessState → List ReadinessState)) where
  unfoldable pub step : ReadinessMachine → Call → ReadinessMachine
  step m (moving dst reason actor refs) = (transition m dst reason actor refs).0
  step m (preflight result ref actor) = (apply_preflight order m result ref actor).0
  step m (simulation passed ref actor) = (apply_simulation m passed ref actor).0
  step m (activating gates actor p s) = (activate m gates actor p s).0
  step m (editing actor what) = (edited m actor what).0
  step m (suspending actor what) = (suspend m actor what).0
  step m (retiring actor what) = (retire m actor what).0

  unfoldable pub run : ReadinessMachine → List Call → ReadinessMachine
  run m [] = m
  run m (c ∷ cs) = run (step m c) cs

  step-Grows : (m : ReadinessMachine) (c : Call) → Grows Anything m (step m c)
  unfolding step apply_simulation suspend retire
  step-Grows m (moving dst reason actor refs) =
      Grows-weaken (transition-Grows m dst reason actor refs)
  step-Grows m (preflight result ref actor) =
      Grows-weaken (apply_preflight-Grows order m result ref actor)
  step-Grows m (simulation passed ref actor) = Grows-weaken (transition-Grows m _ _ actor _)
  step-Grows m (activating gates actor p s) = activate-Grows m gates actor p s
  step-Grows m (editing actor what) = Grows-weaken (edited-Grows m actor what)
  step-Grows m (suspending actor what) = Grows-weaken (transition-Grows m _ _ actor _)
  step-Grows m (retiring actor what) = Grows-weaken (transition-Grows m _ _ actor _)

  -- Whatever is called, and in whatever order Python iterates over a set, the history only grows,
  -- by changes that the transition table allows, each from the state that the one before it left, up
  -- to the machine's state.
  pub run-Grows : (m : ReadinessMachine) (cs : List Call) → Grows Anything m (run m cs)
  unfolding run
  run-Grows m [] = Grows-refl Anything m
  run-Grows m (c ∷ cs) = Grows-trans Anything (step-Grows m c) (run-Grows (step m c) cs)
