-- ===== src/Control/Readiness.antt =====
-- qevion/control/readiness.py: the lifecycle of an activity version. `order` stands for the order in
-- which Python iterates over a set of successors. The time of a change is left out.
pub mod Chains
pub mod Gates
use markting_call_center.Base.{
  ℕ, zero, suc, String, string_eq, Bool, true, false, not, ◌&&◌, ◌||◌, ◌==◌, if◌then◌else◌, Option,
  none, some, List, [], ◌∷◌, ◌++◌, map, all, contains, is_empty, length, Dict, get, has_key, put,
  ◌⊎◌, inl, inr,
}
use markting_call_center.Contracts.Readiness.{
  ReadinessState, readiness_eq, can_transition, PreflightReason, PreflightFinding, PreflightResult,
  blocking,
}

-- The texts of a change's reason.
pub data ChangeReason : Type 0 where
  text : String → ChangeReason
  advancing_toward : ReadinessState → ChangeReason
  preflight_ready simulation_passed simulation_below gates_satisfied resumed : ChangeReason
  preflight_blocked : List PreflightReason → ChangeReason
  edited_at : String → ChangeReason

pub record ReadinessChange : Type 0 where
  pub activity_id : String
  pub version : String
  pub from_state : ReadinessState
  pub to_state : ReadinessState
  pub reason : ChangeReason
  pub actor : String
  pub refs : Dict String String

pub record ActivationGates : Type 0 where
  pub schema_valid : Bool
  pub preflight : Option PreflightResult
  pub simulation_passed : Option Bool
  pub all_decisions_approved : Bool
  pub version_frozen : Bool

-- `self.preflight is None or self.preflight.status != "READY"`
abbrev pub preflight_unmet : Option PreflightResult → Bool
preflight_unmet none = true
preflight_unmet (some result) = not result.is_ready

-- `self.simulation_passed is not True`
abbrev pub simulation_unmet : Option Bool → Bool
simulation_unmet none = true
simulation_unmet (some passed) = not passed

abbrev pub name_if : Bool → String → List String
name_if b name = if b then name ∷ [] else []

unfoldable pub unmet : ActivationGates → List String
unmet g =
    name_if (not g.schema_valid) "schema_valid"
    ++ name_if (preflight_unmet g.preflight) "preflight_ready"
    ++ name_if (simulation_unmet g.simulation_passed) "simulation_passed"
    ++ name_if (not g.all_decisions_approved) "all_decisions_approved"
    ++ name_if (not g.version_frozen) "version_frozen"

pub record ReadinessMachine : Type 0 where
  pub activity_id : String
  pub version : String
  pub state : ReadinessState
  pub history : List ReadinessChange

-- The `why` of an IllegalReadinessTransitionError.
pub data Why : Type 0 where
  not_in_table requires_gates no_legal_path immutable : Why
  gates_unmet : List String → Why

-- What a method returns, or the IllegalReadinessTransitionError that it raises.
pub data Attempt (A : Type 0) : Type 0 where
  done : A → Attempt A
  refused : (src dst : ReadinessState) → Why → Attempt A

unfoldable pub can : ReadinessMachine → ReadinessState → Bool
can m dst = can_transition m.state dst

-- The change is made: the state is set and the change is logged.
abbrev change :
    ReadinessMachine
    → ReadinessState
    → ChangeReason
    → String
    → Dict String String
    → ReadinessMachine × Attempt ReadinessChange
change m dst reason actor refs =
    let ch : ReadinessChange = record {
      activity_id = m.activity_id;
      version = m.version;
      from_state = m.state;
      to_state = dst;
      reason = reason;
      actor = actor;
      refs = refs;
    } in
    (record m { state = dst; history = m.history ++ ch ∷ [] }, done ch)

unfoldable pub transition :
    ReadinessMachine
    → ReadinessState
    → ChangeReason
    → String
    → Dict String String
    → ReadinessMachine × Attempt ReadinessChange
unfolding can
transition m dst reason actor refs =
    if not (can m dst)
    then (m, refused m.state dst not_in_table)
    else if dst == ReadinessState.active
    then (m, refused m.state dst requires_gates)
    else change m dst reason actor refs

-- A change as the result of a method that may make none.
abbrev as_option : Attempt ReadinessChange → Attempt (Option ReadinessChange)
as_option (done ch) = done (some ch)
as_option (refused src dst why) = refused src dst why

abbrev optional :
    ReadinessMachine × Attempt ReadinessChange → ReadinessMachine × Attempt (Option ReadinessChange)
optional (m, r) = (m, as_option r)

-- The states that no path passes through implicitly.
abbrev banned : List ReadinessState
banned =
    ReadinessState.active ∷ ReadinessState.suspended ∷ ReadinessState.retired
    ∷ ReadinessState.ready_for_activation ∷ []

abbrev Prev : Type 0
Prev = Dict ReadinessState (Option ReadinessState)

-- The inner `while` of `_path_to`, one round for each entry of `prev` at most.
unwind : ℕ → Prev → ReadinessState → List ReadinessState → List ReadinessState
unwind zero prev start path = path
unwind (suc n) prev start [] = []
unwind (suc n) prev start (p ∷ path) = elim (get prev p) [
  | none ↦ p ∷ path
  | some none ↦ p ∷ path
  | some (some q) ↦ elim (q == start) [
    | true ↦ p ∷ path
    | false ↦ unwind n prev start (q ∷ p ∷ path)
  ]
]

abbrev found : Prev → ReadinessState → ReadinessState → List ReadinessState
unfolding unwind
found prev start cur = unwind (length prev) prev start (if cur == start then [] else cur ∷ [])

-- The `for` loop of `_path_to` over the successors of `cur`: a path, or what the loop leaves.
visit :
    (start target cur : ReadinessState)
    → Prev
    → List ReadinessState
    → List ReadinessState
    → List ReadinessState ⊎ Prev × List ReadinessState
unfolding found
visit start target cur prev queue [] = inr (prev, queue)
visit start target cur prev queue (nxt ∷ rest) = elim (has_key prev nxt) [
  | true ↦ visit start target cur prev queue rest
  | false ↦ elim (nxt == target) [
    | true ↦ inl (found prev start cur)
    | false ↦ elim (contains banned nxt) [
      | true ↦ visit start target cur prev queue rest
      | false ↦ visit start target cur (put prev nxt (some cur)) (queue ++ nxt ∷ []) rest
    ]
  ]
]

-- The outer `while`: a state is queued once at most, so that there are no more rounds than states.
explore :
    ℕ
    → (ReadinessState → List ReadinessState)
    → (start target : ReadinessState) → Prev
    → List ReadinessState
    → List ReadinessState
unfolding visit
explore zero order start target prev queue = []
explore (suc n) order start target prev [] = []
explore (suc n) order start target prev (cur ∷ queue) =
    elim (visit start target cur prev queue (order cur)) [
      | inl path ↦ path
      | inr (prev', queue') ↦ explore n order start target prev' queue'
    ]

unfoldable pub path_to :
    (ReadinessState → List ReadinessState) → ReadinessMachine → ReadinessState → List ReadinessState
unfolding explore
path_to order m target = explore 11 order m.state target ((m.state, none) ∷ []) (m.state ∷ [])

-- The loop of `apply_preflight` over the path: the first refusal ends it.
walk :
    ReadinessMachine
    → List ReadinessState
    → ReadinessState
    → String
    → ReadinessMachine × Attempt Unit
unfolding transition
walk m [] target actor = (m, done tt)
walk m (s ∷ path) target actor =
    let (m', r) = transition m s (advancing_toward target) actor [] in
    elim r [ done ch ↦ walk m' path target actor | refused src dst why ↦ (m', refused src dst why) ]

is_info : PreflightReason → Bool
is_info PreflightReason.missing_required_knowledge = true
is_info PreflightReason.unresolved_knowledge_conflict = true
is_info PreflightReason.unapproved_business_decision = true
is_info _ = false

abbrev reasons : PreflightResult → List PreflightReason
reasons result = map (λ f. f.reason) (blocking result)

unfoldable pub preflight_target : PreflightResult → ReadinessState
unfolding is_info blocking
preflight_target result =
    if result.is_ready
    then ReadinessState.ready_for_simulation
    else if all is_info (reasons result)
    then ReadinessState.needs_information
    else ReadinessState.blocked

abbrev preflight_reason : PreflightResult → ChangeReason
unfolding blocking
preflight_reason result =
    if result.is_ready then preflight_ready else preflight_blocked (reasons result)

-- The end of `apply_preflight`, after the walk.
arrive :
    ReadinessMachine
    → Attempt Unit
    → ReadinessState
    → ChangeReason
    → String
    → String
    → ReadinessMachine × Attempt (Option ReadinessChange)
unfolding transition can
arrive m (refused src dst why) target reason actor ref = (m, refused src dst why)
arrive m (done _) target reason actor ref =
    if not (can m target)
    then (m, refused m.state target no_legal_path)
    else optional (transition m target reason actor (("preflight_result_ref", ref) ∷ []))

unfoldable pub apply_preflight :
    (ReadinessState → List ReadinessState)
    → ReadinessMachine
    → PreflightResult
    → (ref actor : String) → ReadinessMachine × Attempt (Option ReadinessChange)
unfolding walk arrive can preflight_target path_to
apply_preflight order m result ref actor =
    let target = preflight_target result in
    if m.state == target
    then (m, done none)
    else let path = if can m target then [] else path_to order m target in
      let (m', r) = walk m path target actor in
      arrive m' r target (preflight_reason result) actor ref

unfoldable pub apply_simulation :
    ReadinessMachine → Bool → (ref actor : String) → ReadinessMachine × Attempt ReadinessChange
unfolding transition
apply_simulation m passed ref actor =
    transition m
      (if passed then ReadinessState.ready_for_activation else ReadinessState.simulation_failed)
      (if passed then ChangeReason.simulation_passed else simulation_below) actor
      (("simulation_report_ref", ref) ∷ [])

-- `{k: v for k, v in (...) if v}`
abbrev given_refs : (preflight_ref simulation_ref : String) → Dict String String
given_refs p s =
    (if p == "" then [] else ("preflight_result_ref", p) ∷ [])
    ++ (if s == "" then [] else ("simulation_report_ref", s) ∷ [])

-- `gates.unmet() if self.state is S.READY_FOR_ACTIVATION else []`
abbrev pub asked : ReadinessState → ActivationGates → List String
unfolding unmet
asked state gates = if state == ReadinessState.ready_for_activation then unmet gates else []

unfoldable pub activate :
    ReadinessMachine
    → ActivationGates
    → (actor preflight_ref simulation_ref : String) → ReadinessMachine × Attempt ReadinessChange
unfolding can unmet
activate m gates actor preflight_ref simulation_ref =
    if not (can_transition m.state ReadinessState.active)
    then (m, refused m.state ReadinessState.active not_in_table)
    else if not (is_empty (asked m.state gates))
    then (m, refused m.state ReadinessState.active (gates_unmet (asked m.state gates)))
    else change m ReadinessState.active
        (if m.state == ReadinessState.ready_for_activation then gates_satisfied else resumed) actor
        (given_refs preflight_ref simulation_ref)

abbrev pub immutable_states : List ReadinessState
immutable_states = ReadinessState.active ∷ ReadinessState.suspended ∷ ReadinessState.retired ∷ []

abbrev pub edit_states : List ReadinessState
edit_states =
    ReadinessState.ready_for_activation ∷ ReadinessState.ready_for_simulation
    ∷ ReadinessState.simulation_failed ∷ ReadinessState.blocked ∷ []

unfoldable pub edited :
    ReadinessMachine → (actor what : String) → ReadinessMachine × Attempt (Option ReadinessChange)
unfolding transition
edited m actor what =
    if contains immutable_states m.state
    then (m, refused m.state ReadinessState.needs_configuration immutable)
    else if contains edit_states m.state
    then optional (transition m ReadinessState.needs_configuration (edited_at what) actor [])
    else (m, done none)

unfoldable pub suspend :
    ReadinessMachine → (actor reason : String) → ReadinessMachine × Attempt ReadinessChange
unfolding transition
suspend m actor reason = transition m ReadinessState.suspended (text reason) actor []

unfoldable pub retire :
    ReadinessMachine → (actor reason : String) → ReadinessMachine × Attempt ReadinessChange
unfolding transition
retire m actor reason = transition m ReadinessState.retired (text reason) actor []

unfoldable pub accepts_new_sessions : ReadinessMachine → Bool
accepts_new_sessions m = m.state == ReadinessState.active
