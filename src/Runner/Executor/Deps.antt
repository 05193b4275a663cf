-- ===== src/Runner/Executor/Deps.antt =====
-- What executor.ts is given: handlers, flows, limits; and what it returns. `random`, `backoff` and
-- `timeouts` are what the source has once its defaults are filled in.
use Prim.Native.String.{String}
use automa_build.Prelude.{ℕ, Option, List}
use automa_build.Runner.ErrorClasses.{ErrorClass}
use automa_build.Runner.Backoff.{BackoffPolicy, Random}
use automa_build.Runner.Timeouts.{TimeoutConfig}
use automa_build.Runner.Classify.{FailureFacts}
use automa_build.Runner.Types.{Json, FlowNode, FlowDefinition, RunRef, RunRow, StepRow, DlqReason}
use automa_build.Runner.Repository.Steps.{ConcurrencyLimits, Scope}

pub record StepContext : Type 0 where
  pub run : RunRow
  pub step : StepRow
  pub node : FlowNode
  pub idempotency_key : String
  pub upstream : List (String × Option Json)
  pub deadline_ms : ℕ

-- How a handler ends: a result, a `StepFailure` with its facts, or any other exception.
pub data Handled : Type 0 where
  returned : Option Json → Handled
  step_failure : FailureFacts → (message : String) → Handled
  threw : (message : String) → Handled

pub record Deps : Type 0 where
  pub handlers : String → Option (StepContext → Handled)
  pub flow : Option FlowDefinition
  pub flows : Option (ℕ → Option FlowDefinition)
  pub worker_id : String
  pub random : Random
  pub backoff : BackoffPolicy
  pub timeouts : TimeoutConfig ℕ
  pub limits : Option ConcurrencyLimits
  pub blocked_retry_ms : Option ℕ

pub record RunStepInput : Type 0 where
  pub run : RunRef
  pub step_id : ℕ
  pub tenant_id : Option ℕ

pub data StepOutcome : Type 0 where
  not_claimed : StepOutcome
  deferred : (step_id : ℕ) → Scope → (running limit : ℕ) → StepOutcome
  succeeded : (step_id : ℕ) → StepOutcome
  retry_scheduled : (step_id delay_ms : ℕ) → StepOutcome
  dead_lettered : (step_id : ℕ) → DlqReason → StepOutcome
  paused : (step_id : ℕ) → StepOutcome
  failed : (step_id : ℕ) → ErrorClass → StepOutcome
