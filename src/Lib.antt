-- ===== src/Lib.antt =====
-- A verification library of the QEVION agent activity platform (qevion/, Python): the deterministic
-- core that decides, beside a language model, what a voice or text agent may do.
--
-- The parts and how they interact. A session holds a dialog machine (who speaks), an activity machine
-- (how far the business activity is), a field store (what is known, and how well), the context of the
-- conversation (entities in focus, pending objectives) and a tool pipeline, the only way to an effect.
--
--   Base        shared types, tests on numbers and texts, lists, dictionaries, exceptions as values
--   Contracts   qevion/contracts/: the enumerations and records that the components exchange
--               (Contracts/Control control.py, Contracts/Tools tool.py, Contracts/Provenance common.py)
--   Core/Transitions, Core/Dialog   qevion/core/dialog_machine.py: DialogMachine.can and fire
--   Core/Activity    qevion/core/activity_machine.py: GENERIC_DEFAULT_V1, validate_table,
--               from_blueprint_ref, ActivityMachine.can, fire and fire_if_possible
--   Core/Fields      qevion/core/field_store.py: FieldStore.from_specs, record (record_value here),
--               verify, reject, and the queries over them
--   Core/Focus, Core/Objectives   qevion/core/context.py: EntityFocusStack and PendingObjectives
--   Core/Arguments, Core/Tools    qevion/core/tool_pipeline.py: validate_args, BudgetGuard,
--               idempotency_key and ToolPipeline.run, one function per numbered step
--   Contracts/Readiness, Control/Readiness   qevion/contracts/control.py (READINESS_TRANSITIONS,
--               can_transition, PreflightResult) and qevion/control/readiness.py: ActivationGates.unmet
--               and every method of ReadinessMachine
--   Control/Contact  qevion/control/contact_policy.py: _in_window and evaluate_contact
--   Turn/Energy      qevion/adapters/turn/energy.py: EnergyTurnDetector.configure, reset and push
--   Core/Outcome     qevion/core/outcome_engine.py: flags_from_tools, OutcomeEngine.completion,
--               primary_for and _next_actions
--   Core/Record      the same file: OutcomeEngine.build
--   Core/Governance  qevion/core/governance.py: ClaimGovernor, with RulesDecisionAdapter._check_claim of
--               qevion/adapters/decision/rules.py as one decision port
--   Core/Instructions   qevion/core/instruction_composer.py: RuntimeSnapshot, _runtime and compose
--   Core/Session     qevion/core/session.py. Data: what a session holds; Actions: the monad of its methods,
--               which change it and may raise; Events: SessionCore; Lifecycle: SessionLifecycle;
--               ToolCalls: SessionTools; Interruption: SessionInterruption; Handlers: Session;
--               Steps: __init__ and run, whose pumps are a sequence of inputs, one handler each.
--               The properties stand in Coherence, Audit, Numbering, Hearing (with Interrupts) and
--               Closing, over the rules of Frames: what the primitive writes keep, every method made of them keeps; Returns
--               has those for what never raises
--   Control/Activation  qevion/control/readiness.py and preflight.py together: activate on a preflight's result
--   Control/Preflight  qevion/control/preflight.py: every check of Preflight and run; Data: what they read
--               of a blueprint and of PreflightContext, with qevion/contracts/composition.py
--   Witnesses   the theorems at concrete inputs
--
-- Conventions. A method takes the object's state and gives the new one beside its result. An exception
-- is a value that carries the data of its message. A Python dictionary is a list of pairs in
-- insertion order, `list.sort` a stable insertion sort, `sorted` of a set one by code points. Field
-- values are of any type, compared by any test that stands for `==`. A float of a tool's argument stands for its `repr`, and a confidence is
-- in thousandths. Times and counters are natural numbers.
--
-- Parameters. The readings of a session's clock, the identifiers it draws, whether a message goes out,
-- Python's `str` and `==` on values and `int(n * (a / b))` on floats. The SHA-256 digest of an idempotency
-- key, what a backend replies to an invocation, what the user answers to a confirmation, the rulings of a
-- decision port, a frame's probability of speech and its length, the tests on texts, the parts of a
-- completion rule that a preflight reads and the reading of a time window are functions. The only
-- assumptions are that a digest is not the empty text, that a clock does not go back, and that the
-- product of n and a quotient of at most one is at most n, each only where a theorem says so.
--
-- Termination. All recursion is structural but the breadth-first search of ReadinessMachine._path_to: it
-- takes eleven rounds at most, since a state enters the queue only once and there are eleven, and its
-- path has no more states than the search has visited. The order of iteration over a set of successors
-- is a function, about which nothing is assumed.
--
-- Not modelled: the HTTP runtime; the concurrency of a session's pumps, whose handlers run one after the
-- other here, also on what is queued when the session closes, which the code may or may not handle; the trace marks and the audio sent to the client; the paths, messages and hints of
-- preflight findings; the platform tools; the builder of the capability registry and the mapping of
-- requirements; the copilot, knowledge, simulation, replay and evaluation packages; the adapters of
-- networks and models; the payloads of events beyond their kind and call; the web client and the scripts.
pub mod Base
pub mod Contracts
pub mod Control
pub mod Core
pub mod Turn
pub mod Witnesses
