-- ===== src/Witnesses/Session.antt =====
-- A session with one field, a tool that records it, and a client that interrupts.
use markting_call_center.Base.{
  ℕ, ◌+◌, ◌≤◌, String, string_eq, true, false, none, some, List, [], ◌∷◌, ok, ◌==◌, ◌≡◌, refl, min,
  arith,
}
use markting_call_center.Contracts.Provenance.{Provenance}
use markting_call_center.Contracts.Values.{Value, str, bool}
use markting_call_center.Contracts.Tools.{
  ToolImpact, Confirmation, ToolDeclaration, ToolOutcomeStatus, ToolPipelineStep, ToolInvocation,
}
use markting_call_center.Core.Tools.{Wiring, Payload, Reply, replied}
use markting_call_center.Core.Activity.{start, generic_default_v1}
use markting_call_center.Core.Activity.Default.{from_blueprint_ref_default}
use markting_call_center.Core.Fields.{FieldSpec}
use markting_call_center.Core.Outcome.{Ruling, RuleInputs}
use markting_call_center.Turn.Energy.{TurnEventType}
use markting_call_center.Core.Session.Data.{
  InterruptionRecord, Session, SessionDeps, ResponseTrack, Input, provider_event, client_message,
  client_audio, response_started, response_text_delta, response_audio_delta, response_tool_call,
  response_done, text_message, bye,
}
use markting_call_center.Core.Session.Steps.{init, init_ok, new_session, run, serve, step}
use markting_call_center.Core.Session.Audit.{IsAudited}
use markting_call_center.Core.Session.Audit.Runs.{run-IsAudited}
use markting_call_center.Core.Session.Numbering.{IsSequenced, run-IsSequenced}
use markting_call_center.Core.Session.Coherence.{step-knowledge}
use markting_call_center.Core.Session.Closing.{IsClosed, close-IsClosed}
use markting_call_center.Core.Session.Lifecycle.{close}
use markting_call_center.Core.Session.Hearing.{IsCut, interrupt_response-IsCut}
use markting_call_center.Contracts.Control.{DialogState}
use markting_call_center.Core.Session.Interruption.{interrupt_response}

abbrev name_spec : FieldSpec
name_spec = record { name = "name"; type = "string"; provenance_required = Provenance.user_stated }

abbrev stored : ToolInvocation → Reply
stored inv = replied (record {
  call_id = inv.call_id;
  tool_id = inv.tool_id;
  status = ToolOutcomeStatus.completed;
  output = ("accepted", bool true) ∷ [];
  provenance = Provenance.user_stated;
  error = none;
  latency_ms = none;
  step_reached = ToolPipelineStep.executing;
})

abbrev tool : ToolDeclaration
tool = record {
  tool_id = "record_field";
  parameters = record {
    required = "name" ∷ "value" ∷ [];
    properties = ("name", none) ∷ ("value", none) ∷ [];
    closed = true;
  };
  impact = ToolImpact.write;
  confirmation = Confirmation.not_needed;
  idempotency_key_fields = [];
  timeout_ms = 1000;
  result_provenance = Provenance.tool_verified;
}

abbrev key : String → String → Payload → String
key session_id tool_id payload = "k"

abbrev wires : Wiring
wires = record {
  digest = key;
  declarations = ("record_field", tool) ∷ [];
  permissions =
      ("record_field", record { impact = ToolImpact.write; confirmation = Confirmation.not_needed })
      ∷ [];
  backends = ("record_field", stored) ∷ [];
  confirm = none;
  tenant_allowed_tools = none;
}

abbrev shown : Value → String
shown (str t) = t
shown _ = "?"

abbrev ruled_by : List String → RuleInputs Value → Ruling
ruled_by rules inputs = record { is_unknown = true; value = none }

abbrev clocked : ℕ → ℕ
clocked n = n + n

abbrev capped : ℕ → ℕ → ℕ → ℕ
capped n a b = min n a

abbrev deps : SessionDeps
deps = record {
  session_id = "ses";
  channel = "browser_voice";
  clock = clocked;
  new_id = λ kind n. kind;
  delivers = λ n. true;
  same_value = λ a b. shown a == shown b;
  str = shown;
  sha = λ t. t;
  decimal = λ n. "1";
  scaled = capped;
  static_text = "";
  table_ref = none;
  inline_table = none;
  required = name_spec ∷ [];
  optional = [];
  blueprint = record {
    tenant_id = "t";
    line_id = none;
    activity_id = "a";
    version = "1";
    direction = "inbound";
    completion = record { success_rules = []; failure_rules = []; exit_rules = [] };
    outcome_schema = record {
      primary = "abandoned" ∷ "partially_completed" ∷ [];
      secondary = [];
      next_actions = [];
    };
  };
  tools = wires;
  budget = record { max_calls = 5; max_write_calls = 5; calls = 0; write_calls = 0 };
  validate_field = λ spec v. record { is_unknown = false; value = some v; reason = none };
  interpret_confirmation = λ t. record { is_unknown = false; value = some (t == "yes") };
  decide = ruled_by;
  split_once = λ t. none;
  strip = λ t. t;
  handoff_sink = none;
  operator_transcripts = false;
}

abbrev fresh : Session
unfolding new_session
fresh = new_session deps (start generic_default_v1)

abbrev inputs : List Input
inputs =
    provider_event (response_started (some "r1"))
    ∷ provider_event (response_text_delta "r1" "Good morning")
    ∷ provider_event (response_audio_delta "r1" (some 100))
    ∷ client_audio (λ now speaking. (TurnEventType.barge_in, now) ∷ []) true
    ∷ provider_event (response_tool_call "r1" none)
    ∷ client_message (text_message (some "I am Ada")) true
    ∷ provider_event (response_started (some "r2"))
    ∷ provider_event (
        response_tool_call "r2"
          (some ("c1", "record_field", ("name", str "name") ∷ ("value", str "Ada") ∷ [])))
    ∷ provider_event (response_done "r2")
    ∷ client_message bye true
    ∷ []

starts : init deps ≡ ok fresh
unfolding fresh
starts = init_ok deps (start generic_default_v1) from_blueprint_ref_default

run-IsAudited_example : IsAudited fresh.machines.activity.table (run deps fresh inputs)
run-IsAudited_example = run-IsAudited deps fresh inputs starts

never_back : (n : ℕ) → deps.clock n ≤ deps.clock (n + 1)
never_back n = omega arith

run-IsSequenced_example : IsSequenced deps (run deps fresh inputs)
run-IsSequenced_example = run-IsSequenced deps never_back fresh inputs starts

abbrev barge_in : Input
barge_in = client_audio (λ now speaking. (TurnEventType.barge_in, now) ∷ []) true

abbrev talking : Session
unfolding new_session
talking =
    step deps (record fresh { course = record fresh.course { provider_open = true } })
      (provider_event (response_started (some "r1")))

step-knowledge_example : (step deps talking barge_in).knowledge ≡ talking.knowledge
step-knowledge_example = step-knowledge deps talking barge_in refl

abbrev heard : ResponseTrack
heard = record {
  response_id = "r1";
  started_ms = 10;
  text = "Good morning";
  audio_ms_sent = 100;
  cancelled = false;
  done = false;
  playout_started_ms = none;
}

capped_le : (n a b : ℕ) → a ≤ b → deps.scaled n a b ≤ n
capped_le n a b l = omega arith

abbrev interrupted : Session
unfolding new_session
interrupted = record fresh {
  machines = record fresh.machines {
    dialog = record fresh.machines.dialog { state = DialogState.speaking };
  };
  voice = record fresh.voice { responses = ("r1", heard) ∷ [] };
}

interrupt_response-IsCut_example :
    let r = interrupt_response deps 14 (some 15) true false "r1" interrupted in
    (rec : InterruptionRecord) × (r.0 ≡ ok rec)
    × IsCut deps capped_le interrupted.voice.responses "r1" heard rec r.1
unfolding interrupted
interrupt_response-IsCut_example =
    interrupt_response-IsCut deps capped_le 14 (some 15) true false "r1" interrupted {tr = heard}
      refl

close-IsClosed_example : IsClosed (serve deps (close deps "user_bye" fresh).1 inputs)
unfolding fresh
close-IsClosed_example = close-IsClosed deps "user_bye" fresh inputs refl refl
