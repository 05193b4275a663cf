-- ===== src/Runner/Repository/Runs.antt =====
-- The runs of repository.ts.
pub mod Once
use Prim.Native.String.{String}
use automa_build.Prelude.{
  ℕ, ◌+◌, Bool, true, false, ◌&&◌, not, Option, none, some, List, [], ◌∷◌, ◌++◌, ◌==◌,
  if◌then◌else◌, get_or, coalesce, find, any, length, str_eq,
}
use automa_build.Runner.ErrorClasses.{ErrorClass}
use automa_build.Runner.Types.{
  RunStatus, StepStatus, RunRef, RunRow, StepRow, RunKeyRow, Db, Json, FlowNode, FlowDefinition,
  is_terminal_run_status, advance_run,
}
use automa_build.Runner.Repository.Rows.{update_where, run_is, ref_of}
use automa_build.Runner.Repository.Outbox.{enqueue}

unfoldable pub get_run : Db → RunRef → Option RunRow
get_run db ref = find (run_is ref) db.runs

pub record StatusDetail : Type 0 where
  pub error_class : Option ErrorClass
  pub error_code : Option String
  pub error_step_id : Option String
  pub cancelled_at_step_id : Option String

abbrev pub no_detail : StatusDetail
no_detail = record {
  error_class = none;
  error_code = none;
  error_step_id = none;
  cancelled_at_step_id = none;
}

unfoldable pub set_run_status : Db → ℕ → RunRef → RunStatus → StatusDetail → Db
set_run_status db now ref status detail = record db {
  runs =
      update_where (run_is ref)
        (λ r. record r {
          status = status;
          finished_at = if is_terminal_run_status status then some now else r.finished_at;
          error_class = coalesce detail.error_class r.error_class;
          error_code = coalesce detail.error_code r.error_code;
          error_step_id = coalesce detail.error_step_id r.error_step_id;
          cancelled_at_step_id = coalesce detail.cancelled_at_step_id r.cancelled_at_step_id;
        })
        db.runs;
}

unfoldable pub request_cancel : Db → ℕ → RunRef → Db × Bool
request_cancel db now ref =
    let open_run = λ (r : RunRow). run_is ref r && not (is_terminal_run_status r.status) in
    (
      record db {
        runs =
            update_where open_run
              (λ r. record r { cancel_requested_at = coalesce r.cancel_requested_at (some now) })
              db.runs;
      },
      any open_run db.runs,
    )

pub record CreateRunInput : Type 0 where
  pub tenant_id : ℕ
  pub flow : FlowDefinition
  pub input : Option Json
  pub idempotency_key : Option String
  pub run_timeout_ms : Option ℕ
  pub is_test : Option Bool

abbrev pub key_is : CreateRunInput → String → RunKeyRow → Bool
key_is input key k =
    k.tenant_id == input.tenant_id && k.flow_id == input.flow.id && str_eq k.idempotency_key key

-- the join of `runs` and `run_idempotency`
unfoldable pub find_run_by_idempotency_key : Db → CreateRunInput → String → Option RunRow
unfolding get_run
find_run_by_idempotency_key db input key = elim (find (key_is input key) db.run_keys) [
  | none ↦ none
  | some k ↦ get_run db k.run
]

abbrev plus : ℕ → ℕ → ℕ
plus a b = a + b

abbrev deadline : ℕ → Option ℕ → Option ℕ
deadline now none = none
deadline now (some ms) = some (now + ms)

-- the row that `INSERT INTO runs` writes, under the defaults of the table
unfoldable pub new_run : Db → ℕ → CreateRunInput → RunRow
new_run db now input = record {
  id = db.next_id;
  tenant_id = input.tenant_id;
  flow_id = input.flow.id;
  flow_version_id = input.flow.version_id;
  status = RunStatus.queued;
  is_test = get_or input.is_test false;
  attempt_group = 0;
  started_at = now;
  finished_at = none;
  deadline_at = deadline now input.run_timeout_ms;
  cancel_requested_at = none;
  cancelled_at_step_id = none;
  step_count = 0;
  steps_succeeded = 0;
  steps_failed = 0;
  error_class = none;
  error_code = none;
  error_step_id = none;
  input = input.input;
}

unfoldable pub insert_run : Db → RunRow → Db
insert_run db r = record db { runs = db.runs ++ r ∷ []; next_id = db.next_id + 1 }

-- What `stepIdempotencyKey` computes; `none` is its RangeError.
abbrev pub StepKey : Type 0
StepKey = (run_id : ℕ) → (node_id : String) → (iteration_index attempt_group : ℕ) → Option String

unfoldable pub new_step : RunRow → FlowNode → ℕ → ℕ → String → StepRow
new_step run node id order key = record {
  id = id;
  tenant_id = run.tenant_id;
  run_id = run.id;
  run_started_at = run.started_at;
  flow_id = run.flow_id;
  node_id = node.id;
  iteration_index = 0;
  topo_order = order;
  step_kind = node.kind;
  status = StepStatus.pending;
  attempts_started = 0;
  attempts_consumed = 0;
  deferrals = 0;
  max_attempts = get_or node.max_attempts 5;
  max_deferrals = 20;
  next_attempt_at = none;
  idempotency_key = key;
  lease_expires_at = none;
  worker_id = none;
  input = none;
  output = none;
  error_class = none;
  error_code = none;
  error_message = none;
  http_status = none;
  started_at = none;
  finished_at = none;
  duration_ms = none;
}

-- the unique index step_exec_identity
abbrev same_identity : RunRow → FlowNode → StepRow → Bool
same_identity run node s =
    s.run_started_at == run.started_at
    && (s.run_id == run.id && (str_eq s.node_id node.id && s.iteration_index == 0))

-- The loop of `insertSteps`; the order counts up with the nodes. An insert fails on an identity that
-- is there.
unfoldable pub insert_nodes : StepKey → Db → RunRow → ℕ → List FlowNode → Option Db
unfolding new_step
insert_nodes step_key db run order [] = some db
insert_nodes step_key db run order (node ∷ nodes) =
    elim (step_key run.id node.id 0 run.attempt_group) [
      | none ↦ none
      | some key ↦
          let rest =
            insert_nodes step_key
              (record db {
                steps = db.steps ++ new_step run node db.next_id order key ∷ [];
                next_id = db.next_id + 1;
              })
              run (order + 1) nodes in
          if any (same_identity run node) db.steps then none else rest
    ]

unfoldable pub insert_steps : StepKey → Db → RunRow → FlowDefinition → Option Db
unfolding insert_nodes new_step
insert_steps step_key db run flow = elim (insert_nodes step_key db run 0 flow.nodes) [
  | none ↦ none
  | some db' ↦ some (record db' {
    runs =
        update_where (run_is (ref_of run)) (λ r. record r { step_count = length flow.nodes })
          db'.runs;
  })
]

pub record CreateRunResult : Type 0 where
  pub run : RunRow
  pub deduplicated : Bool

-- what follows the claim of the key
unfoldable pub schedule_run :
    StepKey → Db → ℕ → RunRow → CreateRunInput → Option (Db × CreateRunResult)
unfolding insert_steps enqueue
schedule_run step_key db now run input = elim (insert_steps step_key db run input.flow) [
  | none ↦ none
  | some db' ↦ some (
    enqueue db' now advance_run (record { run = ref_of run; step_id = none; tenant_id = none })
        (some input.tenant_id) none,
    record { run = run; deduplicated = false },
  )
]

-- `INSERT INTO run_idempotency` between its savepoints. The insert fails on a key that is there, and
-- the rollback to the savepoint leaves the run row that was inserted before it.
unfoldable pub claim_key :
    StepKey → Db → ℕ → RunRow → CreateRunInput → String → Option (Db × CreateRunResult)
unfolding schedule_run find_run_by_idempotency_key
claim_key step_key db now run input key =
    if any (key_is input key) db.run_keys
    then elim (find_run_by_idempotency_key db input key) [
      | none ↦ none
      | some winner ↦ some (db, record { run = winner; deduplicated = true })
    ]
    else schedule_run step_key
        (record db {
          run_keys =
              db.run_keys
              ++ record {
                tenant_id = input.tenant_id;
                flow_id = input.flow.id;
                idempotency_key = key;
                run = ref_of run;
              }
                ∷ [];
        })
        now run input

-- `before` is the database that the first look-up reads, and `db` the one that the inserts meet:
-- under READ COMMITTED others may commit in between. `none` is an exception, which rolls back.
unfoldable pub create_run : StepKey → Db → Db → ℕ → CreateRunInput → Option (Db × CreateRunResult)
unfolding find_run_by_idempotency_key claim_key insert_run new_run schedule_run
create_run step_key before db now input = elim input.idempotency_key [
  | none ↦ let run = new_run db now input in schedule_run step_key (insert_run db run) now run input
  | some key ↦
      let run = new_run db now input in
      let claimed = claim_key step_key (insert_run db run) now run input key in
      elim (find_run_by_idempotency_key before input key) [
        | none ↦ claimed
        | some existing ↦ some (db, record { run = existing; deduplicated = true })
      ]
]
