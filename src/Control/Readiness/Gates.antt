-- ===== src/Control/Readiness/Gates.antt =====
-- How a version becomes active.
use markting_call_center.Base.{
  String, string_eq, Bool, true, false, not, Option, none, some, List, [], ◌∷◌, ◌++◌, ◌≡◌, ◌≢◌, ◌⊎◌,
  refl, inl, inr, Memᴰ, arith, Bool-cases, is_empty, is_empty-nil, append-eq-nil, ◌∙◌, contains,
}
use markting_call_center.Contracts.Readiness.{
  ReadinessState, readiness_eq, can_transition, PreflightResult,
}
use markting_call_center.Control.Readiness.{
  ReadinessChange, ReadinessMachine, ActivationGates, done, refused, can, transition,
  apply_simulation, activate, edited, suspend, retire, asked, unmet, name_if, preflight_unmet,
  simulation_unmet, immutable_states, edit_states, not_in_table, immutable,
}
use markting_call_center.Control.Readiness.Chains.{
  Chain, Chain-end, Grows, IsInactive, Anything, Call, moving, preflight, simulation, activating,
  editing, suspending, retiring, step, run, run-Grows, transition-Grows, apply_preflight-Grows,
  edited-Grows,
}

-- The five gates, said without the code.
pub record IsGated (g : ActivationGates) : Type 0 where
  pub schema_passed : g.schema_valid ≡ true
  pub result : PreflightResult
  pub checked : g.preflight ≡ some result
  pub ready : result.is_ready ≡ true
  pub simulated : g.simulation_passed ≡ some true
  pub approved : g.all_decisions_approved ≡ true
  pub frozen : g.version_frozen ≡ true

name_if-nil : (b : Bool) (name : String) → name_if b name ≡ [] → b ≡ false
name_if-nil true name h = cc
name_if-nil false name h = refl

not-false : (b : Bool) → not b ≡ false → b ≡ true
not-false b h = ground arith

preflight_met :
    (o : Option PreflightResult)
    → preflight_unmet o ≡ false
    → (result : PreflightResult) × (o ≡ some result) × (result.is_ready ≡ true)
preflight_met none h = absurd (cc h)
preflight_met (some result) h = (result, refl, not-false result.is_ready h)

simulation_met : (o : Option Bool) → simulation_unmet o ≡ false → o ≡ some true
simulation_met none h = absurd (cc h)
simulation_met (some true) h = refl
simulation_met (some false) h = absurd (cc h)

unmet-nil : (g : ActivationGates) → unmet g ≡ [] → IsGated g
unfolding unmet
unmet-nil g h =
    let (h4, e) = append-eq-nil _ h in
    let (h3, d) = append-eq-nil _ h4 in
    let (h2, c) = append-eq-nil _ h3 in
    let (a, b) = append-eq-nil _ h2 in
    let (result, checked, ready) = preflight_met g.preflight (name_if-nil _ _ b) in
    record {
      schema_passed = not-false g.schema_valid (name_if-nil _ _ a);
      result = result;
      checked = checked;
      ready = ready;
      simulated = simulation_met g.simulation_passed (name_if-nil _ _ c);
      approved = not-false g.all_decisions_approved (name_if-nil _ _ d);
      frozen = not-false g.version_frozen (name_if-nil _ _ e);
    }

can_become_active :
    (s : ReadinessState)
    → can_transition s ReadinessState.active ≡ true
    → (s ≡ ReadinessState.ready_for_activation) ⊎ (s ≡ ReadinessState.suspended)
unfolding can_transition
can_become_active ReadinessState.ready_for_activation h = inl refl
can_become_active ReadinessState.suspended h = inr refl
can_become_active _ h = absurd (cc h)

pub activate-IsGated :
    (m : ReadinessMachine) (gates : ActivationGates) (actor p s : String)
    → IsInactive m.state
    → (activate m gates actor p s).0.state ≡ ReadinessState.active
    → (m.state ≡ ReadinessState.suspended)
      ⊎ (m.state ≡ ReadinessState.ready_for_activation) × IsGated gates
unfolding activate
activate-IsGated m gates actor p s n h =
    elim (Bool-cases (can_transition m.state ReadinessState.active)) [
      | inr f ↦ absurd (n (rw f at h))
      | inl t ↦ elim (can_become_active m.state t) [
        | inr e ↦ inl e
        | inl e ↦ elim (Bool-cases (is_empty (asked m.state gates))) [
          | inr q ↦ absurd (n (rw (t, q) at h))
          | inl q ↦ inr (e, unmet-nil gates (is_empty-nil (unmet gates) (rw e at q)))
        ]
      ]
    ]

-- Other methods never make a version active.
not_activated :
    (m m' : ReadinessMachine)
    → Grows IsInactive m m'
    → IsInactive m.state
    → m'.state ≢ ReadinessState.active
not_activated m m' g n e = elim (Chain-end IsInactive m.state m'.state g.added g.chained) [
  | inl same ↦ n (same ∙ e)
  | inr q ↦ q e
]

-- A version becomes active only by `activate`, on a suspended version, or on one that is ready for
-- activation with every gate satisfied: a valid schema, a preflight that is READY, a simulation that
-- passed, all decisions approved and the version frozen.
pub step-IsGated :
    (order : (ReadinessState → List ReadinessState)) (m : ReadinessMachine) (c : Call)
    → m.state ≢ ReadinessState.active
    → (step order m c).state ≡ ReadinessState.active
    → (gates : ActivationGates) × (actor : String) × (p : String) × (s : String) × (c
        ≡ activating gates actor p s)
      × ((m.state ≡ ReadinessState.suspended)
          ⊎ (m.state ≡ ReadinessState.ready_for_activation) × IsGated gates)
unfolding step apply_simulation suspend retire
step-IsGated order m (activating gates actor p s) n h =
    (gates, actor, p, s, refl, activate-IsGated m gates actor p s n h)
step-IsGated order m (moving dst reason actor refs) n h =
    absurd (not_activated m _ (transition-Grows m dst reason actor refs) n h)
step-IsGated order m (preflight result ref actor) n h =
    absurd (not_activated m _ (apply_preflight-Grows order m result ref actor) n h)
step-IsGated order m (simulation passed ref actor) n h =
    absurd (not_activated m _ (transition-Grows m _ _ actor _) n h)
step-IsGated order m (editing actor what) n h =
    absurd (not_activated m _ (edited-Grows m actor what) n h)
step-IsGated order m (suspending actor what) n h =
    absurd (not_activated m _ (transition-Grows m _ _ actor _) n h)
step-IsGated order m (retiring actor what) n h =
    absurd (not_activated m _ (transition-Grows m _ _ actor _) n h)

-- The states from which activation is still ahead.
abbrev pub is_before : ReadinessState → Bool
is_before ReadinessState.ready_for_activation = false
is_before ReadinessState.active = false
is_before ReadinessState.suspended = false
is_before _ = true

-- The states that an edit takes back.
abbrev pub reopened_states : List ReadinessState
reopened_states =
    ReadinessState.ready_for_activation ∷ ReadinessState.simulation_failed ∷ ReadinessState.blocked
    ∷ []

-- The states of a version that is still being configured.
abbrev pub is_early : ReadinessState → Bool
is_early ReadinessState.draft = true
is_early ReadinessState.discovery_in_progress = true
is_early ReadinessState.needs_information = true
is_early ReadinessState.needs_configuration = true
is_early _ = false

before_step :
    (s t : ReadinessState)
    → is_before s ≡ true
    → can_transition s t ≡ true
    → (is_before t ≡ true)
      ⊎ (s ≡ ReadinessState.ready_for_simulation) × (t ≡ ReadinessState.ready_for_activation)
unfolding can_transition
before_step ReadinessState.ready_for_simulation ReadinessState.ready_for_activation b h =
    inr (refl, refl)
before_step _ _ b h = ground arith

-- The change that a passed simulation makes.
abbrev pub IsReadied : ReadinessChange → Type 0
IsReadied ch =
    (ch.from_state ≡ ReadinessState.ready_for_simulation)
    × (ch.to_state ≡ ReadinessState.ready_for_activation)

Chain-IsReadied :
    (s : ReadinessState) (chs : List ReadinessChange)
    → is_before s ≡ true
    → Chain Anything s chs ReadinessState.active
    → (ch : ReadinessChange) × Memᴰ ch chs × IsReadied ch
Chain-IsReadied s [] b h = absurd (cc (rw h at b))
Chain-IsReadied s (ch ∷ chs) b h = elim (before_step s ch.to_state b h.1) [
  | inl before ↦ let (c, m, r) = Chain-IsReadied ch.to_state chs before h.3 in (c, Memᴰ.tail m, r)
  | inr (e, f) ↦ (ch, Memᴰ.head refl, (h.0 ∙ e, f))
]

-- The changes that calls add contain a passed simulation.
abbrev pub IsReadiedSince : List ReadinessChange → List ReadinessChange → Type 0
IsReadiedSince old new =
    (added : List ReadinessChange) × (new ≡ old ++ added)
    × ((ch : ReadinessChange) × Memᴰ ch added × IsReadied ch)

-- Whatever is called, a version that is neither ready for activation, nor active or suspended, becomes
-- active only if its history gains a change from ready for simulation to ready for activation.
pub run-IsReadied :
    (order : (ReadinessState → List ReadinessState)) (m : ReadinessMachine) (cs : List Call)
    → is_before m.state ≡ true
    → (run order m cs).state ≡ ReadinessState.active
    → IsReadiedSince m.history (run order m cs).history
run-IsReadied order m cs b h =
    let g = run-Grows order m cs in
    (g.added, g.logged, Chain-IsReadied m.state g.added b (rw (← h) g.chained))

unready :
    (s : ReadinessState)
    → contains immutable_states s ≡ false
    → contains edit_states s ≡ false
    → is_before s ≡ true
unready _ h k = ground arith

edited_before :
    (m : ReadinessMachine) (actor what : String) {ch : Option ReadinessChange}
    → (edited m actor what).1 ≡ done ch
    → is_before (edited m actor what).0.state ≡ true
unfolding edited transition can
edited_before m actor what h = elim (Bool-cases (contains immutable_states m.state)) [
  | inl t ↦ absurd (cc (rw t at h))
  | inr f ↦ elim (Bool-cases (contains edit_states m.state)) [
    | inl e ↦ elim (Bool-cases (can_transition m.state ReadinessState.needs_configuration)) [
      | inl t ↦ rw (f, e) (rw t refl)
      | inr n ↦ absurd (cc (rw (f, e, n) at h))
    ]
    | inr n ↦ rw (f, n) (unready m.state f n)
  ]
]

-- After an edit that is not refused, no sequence of calls makes the version active unless its history
-- gains a change from ready for simulation to ready for activation since the edit.
pub edited-IsReadied :
    (order : (ReadinessState → List ReadinessState)) (m : ReadinessMachine) (actor what : String)
    (cs : List Call) {ch : Option ReadinessChange}
    → (edited m actor what).1 ≡ done ch
    → (run order (edited m actor what).0 cs).state ≡ ReadinessState.active
    → IsReadiedSince (edited m actor what).0.history (run order (edited m actor what).0 cs).history
edited-IsReadied order m actor what cs e h =
    run-IsReadied order (edited m actor what).0 cs (edited_before m actor what e) h

-- The states of a version that was approved.
abbrev pub is_approved : ReadinessState → Bool
is_approved ReadinessState.active = true
is_approved ReadinessState.suspended = true
is_approved ReadinessState.retired = true
is_approved _ = false

-- What `edited` gives on a machine.
abbrev pub Edits : ReadinessMachine → String → String → Type 0
Edits m actor what =
    let r = edited m actor what in
    (is_approved m.state ≡ true
      → r ≡ (m, refused m.state ReadinessState.needs_configuration immutable))
    × (m.state ≡ ReadinessState.ready_for_simulation
        → r ≡ (m, refused m.state ReadinessState.needs_configuration not_in_table))
    × (contains reopened_states m.state ≡ true
        → (r.0.state ≡ ReadinessState.needs_configuration)
          × ((ch : ReadinessChange) × (r.1 ≡ done (some ch))))
    × (is_early m.state ≡ true → r ≡ (m, done none))

edits :
    (activity_id version : String) (s : ReadinessState) (history : List ReadinessChange)
    (actor what : String)
    → Edits
        (record { activity_id = activity_id; version = version; state = s; history = history })
        actor
        what
unfolding edited transition can can_transition
edits i v ReadinessState.active h actor what =
    (λ _. refl, λ e. absurd (cc e), λ e. absurd (cc e), λ e. absurd (cc e))
edits i v ReadinessState.suspended h actor what =
    (λ _. refl, λ e. absurd (cc e), λ e. absurd (cc e), λ e. absurd (cc e))
edits i v ReadinessState.retired h actor what =
    (λ _. refl, λ e. absurd (cc e), λ e. absurd (cc e), λ e. absurd (cc e))
edits i v ReadinessState.ready_for_simulation h actor what =
    (λ e. absurd (cc e), λ _. refl, λ e. absurd (cc e), λ e. absurd (cc e))
edits i v ReadinessState.ready_for_activation h actor what =
    (λ e. absurd (cc e), λ e. absurd (cc e), λ _. (refl, (_, refl)), λ e. absurd (cc e))
edits i v ReadinessState.simulation_failed h actor what =
    (λ e. absurd (cc e), λ e. absurd (cc e), λ _. (refl, (_, refl)), λ e. absurd (cc e))
edits i v ReadinessState.blocked h actor what =
    (λ e. absurd (cc e), λ e. absurd (cc e), λ _. (refl, (_, refl)), λ e. absurd (cc e))
edits i v _ h actor what = (λ e. absurd (cc e), λ e. absurd (cc e), λ e. absurd (cc e), λ _. refl)

-- What `edited` does, by the state that it finds: a version that is active, suspended or retired refuses
-- the edit as immutable, and so does, for want of a transition, one
-- that is ready for simulation, since the table has no way back from there; one that is ready for
-- activation, failed its simulation or is blocked asks for configuration again; any other stays.
pub edited_outcome : (m : ReadinessMachine) (actor what : String) → Edits m actor what
edited_outcome m actor what = edits m.activity_id m.version m.state m.history actor what
