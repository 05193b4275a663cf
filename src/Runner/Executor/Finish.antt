-- ===== src/Runner/Executor/Finish.antt =====
-- The third part of `runStep` in executor.ts: record how the attempt ended, and what comes next.
use Prim.Native.Char.{code}
use Prim.Native.String
use Prim.Native.String.{String}
use automa_build.Prelude.{
  ℕ, ◌+◌, ◌-◌, Bool, false, Option, none, some, [], leb, ltb, if◌then◌else◌, get_or, str_eq,
}
use automa_build.Runner.ErrorClasses.{ErrorClass, ErrorAction}
use automa_build.Runner.Backoff.{BackoffPolicy}
use automa_build.Runner.Retry.{
  StepRetryState, RetryOutcome, retry, exhausted, terminal, on_attempt_failed,
}
use automa_build.Runner.Classify.{FailureFacts, classify}
use automa_build.Runner.Branching.{Arm, yes_arm, no_arm, steps_to_skip}
use automa_build.Runner.Types.{
  StepStatus, Json, Fields, end, field, FlowDefinition, RunRef, RunRow, StepRow, Db, DlqReason,
  attempts_exhausted, deferrals_exhausted, poisoned, DlqRow, advance_run,
}
use automa_build.Runner.Repository.Rows.{update_where, run_is}
use automa_build.Runner.Repository.Outbox.{enqueue}
use automa_build.Runner.Repository.Steps.{
  Holder, FailureRecord, record_success, record_failure, mark_skipped,
}
use automa_build.Runner.Repository.Dlq.{write_dlq_entry}
use automa_build.Runner.Executor.Deps.{
  Deps, RunStepInput, StepOutcome, not_claimed, succeeded, retry_scheduled, dead_lettered, paused,
  failed,
}
use automa_build.Runner.Executor.Execute.{Execution, produced, broke, escaped, node_for}

lookup : String → Fields → Option Json
lookup k end = none
lookup k (field j v fs) = if str_eq j k then some v else lookup k fs

arm_of : Option Json → Option Arm
arm_of (some (Json.str s)) =
    if str_eq s "yes" then some yes_arm else if str_eq s "no" then some no_arm else none
arm_of v = none

unfoldable pub taken_arm : Option Json → Option Arm
unfolding lookup arm_of
taken_arm (some (Json.obj fs)) = arm_of (lookup "taken" fs)
taken_arm output = none

abbrev arm_text : Arm → String
arm_text yes_arm = "yes"
arm_text no_arm = "no"

-- `failureMessage.slice(0, 2000)`, which counts UTF-16 units
utf16_length : ℕ → ℕ
utf16_length c = if ltb c 0x10000 then 1 else 2

pub clip : ℕ → String → String
unfolding utf16_length
clip n String.[] = String.[]
clip n (String.◌∷◌ c s) =
    let rest = clip (n - utf16_length (code c)) s in
    if leb (utf16_length (code c)) n then String.◌∷◌ c rest else String.[]

unfoldable pub enqueue_advance : Db → ℕ → RunStepInput → ℕ → Option ℕ → Db
unfolding enqueue
enqueue_advance db now input tenant delay_ms =
    enqueue db now advance_run (record { run = input.run; step_id = none; tenant_id = none })
      (some tenant) delay_ms

abbrev pub holder : RunStepInput → Deps → Holder
holder input deps = record {
  run_started_at = input.run.run_started_at;
  step_id = input.step_id;
  worker_id = deps.worker_id;
}

unfoldable pub count_success : Db → RunRef → Db
count_success db ref = record db {
  runs =
      update_where (run_is ref) (λ r. record r { steps_succeeded = r.steps_succeeded + 1 }) db.runs;
}

unfoldable pub count_failure : Db → RunRef → Db
count_failure db ref = record db {
  runs = update_where (run_is ref) (λ r. record r { steps_failed = r.steps_failed + 1 }) db.runs;
}

-- a branch that has succeeded marks what its other arm leads to
unfoldable pub abandon : Db → ℕ → RunStepInput → StepRow → FlowDefinition → Option Arm → Db
abandon db now input step flow none = db
abandon db now input step flow (some arm) =
    (mark_skipped db now input.run (steps_to_skip (get_or flow.edges []) step.node_id arm) (
      String.◌++◌ "not taken: " (String.◌++◌ step.node_id (String.◌++◌ " went " (arm_text arm))))).0

unfoldable pub finish_success :
    Db → ℕ → RunStepInput → Deps → StepRow → FlowDefinition → Option Json → Db × StepOutcome
unfolding record_success count_success abandon enqueue_advance mark_skipped taken_arm
finish_success db now input deps step flow output =
    let (db', wrote) = record_success db now (holder input deps) output in
    if wrote
    then (
      enqueue_advance (abandon (count_success db' input.run) now input step flow (taken_arm output))
          now input step.tenant_id none,
      succeeded input.step_id,
    )
    else (db', not_claimed)

unfoldable pub with_step_limits : BackoffPolicy → StepRow → BackoffPolicy
with_step_limits policy step = record policy {
  max_attempts = step.max_attempts;
  max_deferrals = step.max_deferrals;
}

abbrev pub state_of : StepRow → StepRetryState
state_of step = record {
  attempts_started = step.attempts_started;
  attempts_consumed = step.attempts_consumed;
  deferrals = step.deferrals;
}

abbrev pub is_repeatable : Option FlowDefinition → StepRow → Bool
is_repeatable none step = false
is_repeatable (some flow) step = (node_for flow step).idempotent

unfoldable pub decide : Deps → ℕ → StepRow → Option FlowDefinition → FailureFacts → RetryOutcome
unfolding with_step_limits classify node_for
decide deps node_now step flow facts =
    on_attempt_failed (state_of step)
      (record {
        error_class = classify facts;
        idempotent = is_repeatable flow step;
        retry_after_ms = facts.retry_after_ms;
      })
      node_now deps.random (with_step_limits deps.backoff step)

unfoldable pub failure_record :
    FailureFacts → String → StepStatus → StepRetryState → Option ℕ → FailureRecord
failure_record facts message status s delay = record {
  status = status;
  attempts_consumed = s.attempts_consumed;
  deferrals = s.deferrals;
  retry_delay_ms = delay;
  error_class = classify facts;
  error_message = clip 2000 message;
  http_status = facts.http_status;
}

-- why a failed step becomes a dead letter, if it does
unfoldable pub dlq_reason : RetryOutcome → ErrorClass → BackoffPolicy → Option DlqReason
dlq_reason (exhausted s why) c limits = some (
    if leb limits.max_attempts s.attempts_consumed then attempts_exhausted else deferrals_exhausted)
dlq_reason o ErrorClass.poison limits = some poisoned
dlq_reason o c limits = none

unfoldable pub dead_letter :
    RunStepInput → RunRow → StepRow → FailureFacts → String → DlqReason → DlqRow
dead_letter input run step facts message reason = record {
  id = 0;
  tenant_id = step.tenant_id;
  run = input.run;
  step_id = input.step_id;
  flow_version_id = run.flow_version_id;
  node_id = step.node_id;
  reason = reason;
  error_class = classify facts;
  error_message = message;
  step_kind = step.step_kind;
  idempotency_key = step.idempotency_key;
  input = step.input;
  replayed_at = none;
  replayed_run_id = none;
  resolved_by = none;
}

-- the end of the last transaction, where the failure is final
unfoldable pub give_up :
    Db
    → ℕ
    → RunStepInput
    → Deps
    → RunRow
    → StepRow
    → FailureFacts
    → String
    → RetryOutcome
    → Db × StepOutcome
unfolding count_failure enqueue_advance write_dlq_entry dead_letter dlq_reason
give_up db now input deps run step facts message decision =
    let counted = count_failure db input.run in
    elim (dlq_reason decision (classify facts) (with_step_limits deps.backoff step)) [
      | some reason ↦ (
        enqueue_advance (write_dlq_entry counted (dead_letter input run step facts message reason))
            now input step.tenant_id none,
        dead_lettered input.step_id reason,
      )
      | none ↦ (
        enqueue_advance counted now input step.tenant_id none,
        failed input.step_id (classify facts),
      )
    ]

-- `decision` is what `onAttemptFailed` said.
unfoldable pub finish_failure :
    Db
    → ℕ
    → RunStepInput
    → Deps
    → RunRow
    → StepRow
    → FailureFacts
    → String
    → RetryOutcome
    → Db × StepOutcome
unfolding record_failure failure_record enqueue_advance give_up clip
finish_failure db now input deps run step facts message (retry at delay source s why) =
    let (db', wrote) =
      record_failure db now (holder input deps)
        (failure_record facts message StepStatus.failed s (some delay)) in
    if wrote
    then (
      enqueue_advance db' now input step.tenant_id (some delay),
      retry_scheduled input.step_id delay,
    )
    else (db', not_claimed)
finish_failure db now input deps run step facts message
      (terminal ErrorAction.pause_for_confirmation s why) =
    let (db', wrote) =
      record_failure db now (holder input deps)
        (failure_record facts message StepStatus.waiting_confirmation s none) in
    if wrote
    then (enqueue_advance db' now input step.tenant_id none, paused input.step_id)
    else (db', not_claimed)
finish_failure db now input deps run step facts message (terminal action s why) =
    let (db', wrote) =
      record_failure db now (holder input deps)
        (failure_record facts message StepStatus.failed s none) in
    if wrote
    then give_up db' now input deps run step facts message (terminal action s why)
    else (db', not_claimed)
finish_failure db now input deps run step facts message (exhausted s why) =
    let (db', wrote) =
      record_failure db now (holder input deps)
        (failure_record facts message StepStatus.failed s none) in
    if wrote
    then give_up db' now input deps run step facts message (exhausted s why)
    else (db', not_claimed)

-- The last transaction. `none` is the exception of a worker with no flow, which escapes.
unfoldable pub finish_step :
    Db → ℕ → ℕ → RunStepInput → Deps → RunRow → StepRow → Execution → Option (Db × StepOutcome)
unfolding finish_success finish_failure decide clip
finish_step db now node_now input deps run step (produced flow output) =
    some (finish_success db now input deps step flow output)
finish_step db now node_now input deps run step (broke flow facts message) =
    some (
      finish_failure db now input deps run step facts message
        (decide deps node_now step flow facts))
finish_step db now node_now input deps run step escaped = none
