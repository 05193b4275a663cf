-- ===== src/Tests/Fixture.antt =====
-- A run of three steps: a lookup, a payment that follows it, and a mail at the end.
use automa_build.Prelude.{ℕ, false, none, some, List, [], ◌∷◌}
use automa_build.Runner.Backoff.{default_backoff}
use automa_build.Runner.Timeouts.{default_timeouts}
use automa_build.Runner.Types.{
  RunStatus, StepStatus, FlowDefinition, FlowNode, RunRef, RunRow, StepRow, Db, Json,
}
use automa_build.Runner.Repository.Steps.{ClaimInput}
use automa_build.Runner.Executor.Deps.{Deps, RunStepInput, returned}
use Prim.Native.String.{String}

abbrev pub ref : RunRef
ref = record { run_id = 1; run_started_at = 100 }

abbrev pub run : RunRow
run = record {
  id = 1;
  tenant_id = 7;
  flow_id = 3;
  flow_version_id = 4;
  status = RunStatus.running;
  is_test = false;
  attempt_group = 0;
  started_at = 100;
  finished_at = none;
  deadline_at = none;
  cancel_requested_at = none;
  cancelled_at_step_id = none;
  step_count = 3;
  steps_succeeded = 0;
  steps_failed = 0;
  error_class = none;
  error_code = none;
  error_step_id = none;
  input = none;
}

abbrev pub step : ℕ → ℕ → String → StepRow
step id order node = record {
  id = id;
  tenant_id = 7;
  run_id = 1;
  run_started_at = 100;
  flow_id = 3;
  node_id = node;
  iteration_index = 0;
  topo_order = order;
  step_kind = "http";
  status = StepStatus.pending;
  attempts_started = 0;
  attempts_consumed = 0;
  deferrals = 0;
  max_attempts = 5;
  max_deferrals = 20;
  next_attempt_at = none;
  idempotency_key = node;
  lease_expires_at = none;
  worker_id = none;
  input = none;
  output = none;
  error_class = none;
  error_code = none;
  error_message = none;
  http_status = none;
  started_at = none;
  finished_at = none;
  duration_ms = none;
}

abbrev pub db_of : List StepRow → Db
db_of steps = record {
  runs = run ∷ [];
  steps = steps;
  run_keys = [];
  outbox = [];
  dlq = [];
  next_id = 20;
}

abbrev pub fresh : Db
fresh = db_of (step 11 0 "lookup" ∷ step 12 1 "pay" ∷ step 13 2 "mail" ∷ [])

abbrev pub node : String → FlowNode
node id = record { id = id; kind = "http"; idempotent = false; config = none; max_attempts = none }

abbrev pub flow : FlowDefinition
flow = record {
  id = 3;
  version_id = 4;
  nodes = node "lookup" ∷ node "pay" ∷ node "mail" ∷ [];
  edges = none;
}

abbrev pub claim_by : String → ClaimInput
claim_by worker = record {
  run_started_at = 100;
  step_id = 11;
  worker_id = worker;
  lease_ms = 120_000;
  tenant_id = some 7;
  flow_id = some 3;
  limits = none;
}

abbrev pub limited : ClaimInput
limited = record (claim_by "w1") {
  limits = some (record { per_tenant = some 1; per_flow = some 2 });
}

abbrev pub deps_of : String → Deps
deps_of worker = record {
  handlers = λ kind. some (λ context. returned (some (Json.str "done")));
  flow = some flow;
  flows = none;
  worker_id = worker;
  random = λ window. window;
  backoff = default_backoff;
  timeouts = default_timeouts;
  limits = none;
  blocked_retry_ms = none;
}

abbrev pub first_step : RunStepInput
first_step = record { run = ref; step_id = 11; tenant_id = some 7 }
