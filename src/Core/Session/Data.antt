-- ===== src/Core/Session/Data.antt =====
-- qevion/core/session.py: what a session holds, and what it is made with. The state of the class is
-- split in the parts that its methods change together.
use Prim.Native.String.{◌∷◌ as cons_char, [] as no_text}
use markting_call_center.Base.{ℕ, zero, suc, String, Bool, Option, List, Dict, Result}
use markting_call_center.Contracts.Control.{ActivityState, DialogState}
use markting_call_center.Contracts.Provenance.{Provenance}
use markting_call_center.Contracts.Values.{Value}
use markting_call_center.Contracts.Tools.{ToolInvocation, ToolOutcomeStatus, ErrorText}
use markting_call_center.Core.Transitions.{Transition}
use markting_call_center.Core.Dialog.{DialogMachine}
use markting_call_center.Core.Activity.{ActivityMachine, Table}
use markting_call_center.Core.Fields.{FieldSpec, FieldStore}
use markting_call_center.Core.Focus.{EntityFocusStack}
use markting_call_center.Core.Objectives.{PendingObjectives}
use markting_call_center.Core.Outcome.{Ruling, RuleInputs}
use markting_call_center.Core.Record.{Blueprint, InteractionRecord, RouteEntry, CoverageMissEntry}
use markting_call_center.Turn.Energy.{TurnEventType}
use markting_call_center.Core.Tools.{BudgetGuard, Pipeline, ToolEvent, Wiring}

-- `_digest`: the length of a text and its hash.
pub record TextDigest : Type 0 where
  pub text_len : ℕ
  pub sha : String

pub record InterruptionRecord : Type 0 where
  pub response_id : String
  pub t0_user_speech_onset : ℕ
  pub t1_barge_in_detected : ℕ
  pub t2_cancel_sent : ℕ
  pub t3_playout_stopped : ℕ
  pub t4_state_reconciled : ℕ
  pub forced : Bool
  pub played_ms : ℕ
  pub heard_text_len : ℕ
  pub unheard_text_len : ℕ

pub record ResponseTrack : Type 0 where
  pub response_id : String
  pub started_ms : ℕ
  pub text : String
  pub audio_ms_sent : ℕ
  pub cancelled : Bool
  pub done : Bool
  pub playout_started_ms : Option ℕ

-- The `class` of a failure event.
pub data Failure : Type 0 where
  illegal_dialog_transition : (trigger : String) → (state : DialogState) → Failure
  unknown_field : String → Failure
  playout_stop_timeout tool_call_from_cancelled_response : (response_id : String) → Failure
  provider_request_rejected : (provider_code : Option String) → Failure

-- The type of an event with its payload.
pub data EventBody : Type 0 where
  session_created : (channel : String) → EventBody
  session_started : EventBody
  session_ended : (reason : String) → (turns : ℕ) → EventBody
  state_changed : Transition → EventBody
  failure_classified : Failure → EventBody
  transport_disconnected : (reason : String) → EventBody
  transport_playout_started transport_playout_stopped : (response_id : Option String) → EventBody
  provider_session_created provider_session_closed : EventBody
  provider_error : (code : String) → (retryable fatal : Bool) → EventBody
  tool_event : ToolEvent → (call_id : String) → EventBody
  field_recorded field_corrected : (name : String) → Provenance → EventBody
  field_verified : (name call_id : String) → EventBody
  user_correction : (field : String) → EventBody
  coverage_miss : (topic : String) → EventBody
  field_decided : (field : String) → (ok : Bool) → EventBody
  confirmation_decided : Option Bool → EventBody
  handoff_requested : (handoff_id reason destination : String) → EventBody
  handoff_acknowledged : (handoff_id : String) → (accepted : Bool) → EventBody
  route_requested : (target ref : String) → EventBody
  interruption_detected :
      (response_id : String) → (audio_ms_sent : ℕ) → (after_generation : Bool) → EventBody
  assistant_response_started : (response_id : String) → EventBody
  assistant_response_cancelled : (response_id : String) → (t2_ms : Option ℕ) → EventBody
  assistant_response_truncated : (response_id : String) → (audio_end_ms : ℕ) → EventBody
  assistant_response_ended : (response_id : String) → (audio_ms : ℕ) → TextDigest → EventBody
  assistant_playout_ended : (response_id : String) → EventBody
  latency_sample : InterruptionRecord → EventBody
  user_speech_started : (barge_in : Bool) → EventBody
  user_speech_committed : (turn_id : String) → EventBody
  user_speech_discarded : (reason : String) → EventBody
  user_transcript : TextDigest → EventBody
  turn_started : (channel : String) → EventBody
  turn_ended : (turn_id : String) → EventBody
  outcome_produced : (primary : String) → (secondary : List String) → EventBody
  interaction_record_produced : EventBody

-- An event, without the identity of the tenant, line, Activity and session, which all share, and the
-- source, which its type gives.
pub record Event : Type 0 where
  pub seq : ℕ
  pub turn_id : Option String
  pub ts_ms : ℕ
  pub body : EventBody

-- What a session sends to the client.
pub data ServerMessage : Type 0 where
  ready : (activity_id : String) → ServerMessage
  state :
      DialogState
      → ActivityState
      → (missing recorded : List String) → (turn_id : Option String) → ServerMessage
  audio_start stop_playout : (response_id : String) → ServerMessage
  audio_end : (response_id : String) → (text : Option String) → (audio_ms : ℕ) → ServerMessage
  confirmation_request : (call_id tool_id : String) → Dict String Value → ServerMessage
  transcript : (text : String) → (item_id : Option String) → ServerMessage
  pong : ServerMessage

-- What a session asks of the provider.
pub data Order : Type 0 where
  update_instructions send_text cancel_response : String → Order
  send_audio commit_input close_provider : Order
  truncate_response : (response_id : String) → (audio_end_ms : ℕ) → Order
  send_tool_result :
      (call_id : String) → Dict String Value → ToolOutcomeStatus → Option ErrorText → Order

-- A call that waits for the user: the invocation, the pipeline before its run, and the future's
-- result, if it has one.
pub record Waiting : Type 0 where
  pub invocation : ToolInvocation
  pub before : Pipeline
  pub answer : Option (Option Bool)

-- The log, the clock's readings, the identifiers drawn and the messages tried so far.
pub record Log : Type 0 where
  pub readings : ℕ
  pub drawn : ℕ
  pub tried : ℕ
  pub seq : ℕ
  pub events : List Event
  pub event_count : ℕ
  pub sent : List ServerMessage
  pub orders : List Order

-- The machines, and `facts.activity_state`.
pub record Machines : Type 0 where
  pub dialog : DialogMachine
  pub activity : ActivityMachine
  pub activity_state : ActivityState

-- What the conversation has established.
pub record Knowledge : Type 0 where
  pub fields : FieldStore Value
  pub objectives : PendingObjectives
  pub focus : EntityFocusStack
  pub pipeline : Pipeline
  pub flags : List String
  pub coverage_misses : List CoverageMissEntry

-- Who speaks.
pub record Voice : Type 0 where
  pub responses : Dict String ResponseTrack
  pub current_response : Option String
  pub audible : Option String
  pub speech_onset_ms : Option ℕ
  pub playout_stopped : Bool
  pub interruptions : List InterruptionRecord
  pub latency : List (String × ℕ)

-- The course of the session: its turns, its end, and the rest of the facts.
pub record Course : Type 0 where
  pub turn_no : ℕ
  pub turn_id : Option String
  pub turn_count : ℕ
  pub first_user_turn_ms : Option ℕ
  pub last_user_turn_ms : Option ℕ
  pub handoff_ref : Option String
  pub handoff_ids : List String
  pub routing_history : List RouteEntry
  pub interruption_count : ℕ
  pub started_at_ms : ℕ
  pub ended_at_ms : Option ℕ
  pub provider_open : Bool
  pub instructions_fp : Option String
  pub waiting : Option Waiting
  pub closed : Bool
  pub produced : Option (InteractionRecord Value)
  pub close_task : Option (Result (InteractionRecord Value))  -- its result

pub record Session : Type 0 where
  pub log : Log
  pub machines : Machines
  pub knowledge : Knowledge
  pub voice : Voice
  pub course : Course

-- What the decision port says of a field's value.
pub record FieldRuling : Type 0 where
  pub is_unknown : Bool
  pub value : Option Value
  pub reason : Option String

-- `SessionDeps`, with the blueprint's parts and the library functions that a session uses: the n-th
-- reading of the clock, the n-th identifier, whether the n-th message goes out, Python's `==` and
-- `str` on values and on numbers, the hash of a text, and `int(n * (a / b))` on floats. `static_text` is the part
-- of the instructions that does not change.
pub record SessionDeps : Type 0 where
  pub session_id : String
  pub channel : String
  pub clock : ℕ → ℕ
  pub new_id : String → ℕ → String
  pub delivers : ℕ → Bool
  pub same_value : Value → Value → Bool
  pub str : Value → String
  pub sha : String → String
  pub decimal : ℕ → String
  pub scaled : (n a b : ℕ) → ℕ
  pub static_text : String
  pub table_ref : Option String
  pub inline_table : Option Table
  pub required : List FieldSpec
  pub optional : List FieldSpec
  pub blueprint : Blueprint
  pub tools : Wiring
  pub budget : BudgetGuard
  pub validate_field : FieldSpec → Value → FieldRuling
  pub interpret_confirmation : String → Ruling
  pub decide : List String → RuleInputs Value → Ruling
  pub split_once : String → Option (String × String)
  pub strip : String → String
  pub handoff_sink : Option ((handoff_id reason destination : String) → Bool)
  pub operator_transcripts : Bool

-- `text[:n]`
unfoldable pub prefix : ℕ → String → String
prefix zero s = no_text
prefix (suc n) no_text = no_text
prefix (suc n) (cons_char c s) = cons_char c (prefix n s)

pub record ProviderError : Type 0 where
  pub code : String
  pub provider_code : Option String
  pub retryable : Bool
  pub fatal : Bool

-- A provider's event, with what its handler reads.
pub data S2SEvent : Type 0 where
  response_started : (response_id : Option String) → S2SEvent
  response_text_delta : (response_id : String) → (text : String) → S2SEvent
  response_audio_delta : (response_id : String) → (duration_ms : Option ℕ) → S2SEvent
  response_tool_call :
      (response_id : String) → Option (String × String × Dict String Value) → S2SEvent
  response_done response_cancelled : (response_id : String) → S2SEvent
  input_transcript : (text : String) → (item_id : Option String) → S2SEvent
  error : Option ProviderError → S2SEvent
  closed other_event : S2SEvent

-- A client's message, with what its handler reads.
pub data ClientMessage : Type 0 where
  text_message : Option String → ClientMessage
  confirm : (call_id : Option String) → (granted : Option Bool) → ClientMessage
  playout_stopped playout_started : (response_id : Option String) → ClientMessage
  audio_commit bye ping other_message : ClientMessage

-- What reaches a session. Where a handler may wait for the client's stop of the playout, `stopped`
-- says whether it comes in time; `push` is what the turn detector says at a time, of a speaking
-- agent or not; `answered` is the end of a wait for the user's confirmation.
pub data Input : Type 0 where
  provider_event : S2SEvent → Input
  client_message : ClientMessage → (stopped : Bool) → Input
  client_audio : (push : ℕ → Bool → List (TurnEventType × ℕ)) → (stopped : Bool) → Input
  answered client_eof : Input
