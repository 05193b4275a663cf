-- ===== src/Runner/Executor/Begin.antt =====
-- The first part of `runStep` in executor.ts: load the run, claim the step.

use automa_build.Prelude.{ℕ, ◌*◌, none, some, get_or}
use automa_build.Runner.Types.{RunRow, StepRow, Db, run_step as run_step_topic}
use automa_build.Runner.Repository.Outbox.{enqueue}
use automa_build.Runner.Repository.Runs.{get_run}
use automa_build.Runner.Repository.Steps.{
  ClaimInput, ClaimResult, claimed, taken, blocked, claim_step,
}
use automa_build.Runner.Executor.Deps.{Deps, RunStepInput, StepOutcome, not_claimed, deferred}

-- The first two transactions: the run is loaded and the step claimed.
pub data Begun : Type 0 where
  stopped : StepOutcome → Begun
  executing : RunRow → StepRow → Begun

unfoldable pub begun : Db → ℕ → RunStepInput → Deps → RunRow → Db × ClaimResult → Db × Begun
unfolding enqueue
begun db now input deps run (db', claimed step) = (db', executing run step)
begun db now input deps run (db', taken) = (db', stopped not_claimed)
begun db now input deps run (db', blocked scope running limit) = (
  enqueue db' now run_step_topic
      (record { run = input.run; step_id = some input.step_id; tenant_id = none }) input.tenant_id
      (some (get_or deps.blocked_retry_ms 250)),
  stopped (deferred input.step_id scope running limit),
)

abbrev pub claim_input : RunStepInput → Deps → RunRow → ClaimInput
claim_input input deps run = record {
  run_started_at = input.run.run_started_at;
  step_id = input.step_id;
  worker_id = deps.worker_id;
  lease_ms = deps.timeouts.step_attempt_ms * 2;
  tenant_id = input.tenant_id;
  flow_id = some run.flow_id;
  limits = deps.limits;
}

unfoldable pub begin_step : Db → ℕ → RunStepInput → Deps → Db × Begun
unfolding get_run claim_step begun enqueue
begin_step db now input deps = elim (get_run db input.run) [
  | none ↦ (db, stopped not_claimed)
  | some run ↦ begun db now input deps run (claim_step db now (claim_input input deps run))
]
