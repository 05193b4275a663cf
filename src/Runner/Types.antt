-- ===== src/Runner/Types.antt =====
-- packages/automa-durable-runner/src/types.ts, with the columns that the engine's SQL names.
-- A uuid is a number, since it is only compared; an instant is a number of milliseconds. A column
-- that may be NULL is an option.
use Prim.Native.String.{String}
use automa_build.Prelude.{ℕ, Bool, true, false, Option, List}
use automa_build.Runner.ErrorClasses.{ErrorClass}
use automa_build.Runner.Branching.{FlowEdge}

pub data RunStatus : Type 0 where
  queued running waiting_confirmation succeeded failed cancelled timed_out : RunStatus

pub data StepStatus : Type 0 where
  pending dispatched running succeeded failed skipped skipped_resumed cancelled : StepStatus
  timed_out waiting_confirmation : StepStatus

abbrev pub is_terminal_run_status : RunStatus → Bool
is_terminal_run_status RunStatus.succeeded = true
is_terminal_run_status RunStatus.failed = true
is_terminal_run_status RunStatus.cancelled = true
is_terminal_run_status RunStatus.timed_out = true
is_terminal_run_status _ = false

-- `unknown` values, as JSON; a number is kept as its text.
mutual
  pub data Json : Type 0 where
    null : Json
    bool : Bool → Json
    num : String → Json
    str : String → Json
    arr : Items → Json
    obj : Fields → Json

  pub data Items : Type 0 where
    nil : Items
    cons : Json → Items → Items

  pub data Fields : Type 0 where
    end : Fields
    field : String → Json → Fields → Fields

pub record FlowNode : Type 0 where
  pub id : String
  pub kind : String
  pub idempotent : Bool
  pub config : Option Json
  pub max_attempts : Option ℕ

pub record FlowDefinition : Type 0 where
  pub id : ℕ
  pub version_id : ℕ
  pub nodes : List FlowNode
  pub edges : Option (List FlowEdge)

-- how a run is found: the key (started_at, id)
pub record RunRef : Type 0 where
  pub run_id : ℕ
  pub run_started_at : ℕ

pub record RunRow : Type 0 where
  pub id : ℕ
  pub tenant_id : ℕ
  pub flow_id : ℕ
  pub flow_version_id : ℕ
  pub status : RunStatus
  pub is_test : Bool
  pub attempt_group : ℕ
  pub started_at : ℕ
  pub finished_at : Option ℕ
  pub deadline_at : Option ℕ
  pub cancel_requested_at : Option ℕ
  pub cancelled_at_step_id : Option String
  pub step_count : ℕ
  pub steps_succeeded : ℕ
  pub steps_failed : ℕ
  pub error_class : Option ErrorClass
  pub error_code : Option String
  pub error_step_id : Option String
  pub input : Option Json

pub record StepRow : Type 0 where
  pub id : ℕ
  pub tenant_id : ℕ
  pub run_id : ℕ
  pub run_started_at : ℕ
  pub flow_id : ℕ
  pub node_id : String
  pub iteration_index : ℕ
  pub topo_order : ℕ
  pub step_kind : String
  pub status : StepStatus
  pub attempts_started : ℕ
  pub attempts_consumed : ℕ
  pub deferrals : ℕ
  pub max_attempts : ℕ
  pub max_deferrals : ℕ
  pub next_attempt_at : Option ℕ
  pub idempotency_key : String
  pub lease_expires_at : Option ℕ
  pub worker_id : Option String
  pub input : Option Json
  pub output : Option Json
  pub error_class : Option ErrorClass
  pub error_code : Option String
  pub error_message : Option String
  pub http_status : Option ℕ
  pub started_at : Option ℕ
  pub finished_at : Option ℕ
  pub duration_ms : Option ℕ

pub data OutboxTopic : Type 0 where
  advance_run run_step : OutboxTopic

-- The fields that the engine puts into a payload and reads from it.
pub record Payload : Type 0 where
  pub run : RunRef
  pub step_id : Option ℕ
  pub tenant_id : Option ℕ

pub record OutboxRow : Type 0 where
  pub id : ℕ
  pub topic : OutboxTopic
  pub payload : Payload
  pub tenant_id : Option ℕ
  pub available_at : ℕ
  pub attempts : ℕ

pub data DlqReason : Type 0 where
  attempts_exhausted deferrals_exhausted poisoned : DlqReason

pub record DlqRow : Type 0 where
  pub id : ℕ
  pub tenant_id : ℕ
  pub run : RunRef
  pub step_id : ℕ
  pub flow_version_id : ℕ
  pub node_id : String
  pub reason : DlqReason
  pub error_class : ErrorClass
  pub error_message : String
  pub step_kind : String
  pub idempotency_key : String
  pub input : Option Json
  pub replayed_at : Option ℕ
  pub replayed_run_id : Option ℕ
  pub resolved_by : Option String

-- run_idempotency, whose key is (tenant_id, flow_id, idempotency_key)
pub record RunKeyRow : Type 0 where
  pub tenant_id : ℕ
  pub flow_id : ℕ
  pub idempotency_key : String
  pub run : RunRef

-- The database. `next_id` is the source of fresh identifiers: uuidv7() and the identity column.
pub record Db : Type 0 where
  pub runs : List RunRow
  pub steps : List StepRow
  pub run_keys : List RunKeyRow
  pub outbox : List OutboxRow
  pub dlq : List DlqRow
  pub next_id : ℕ
