-- ===== src/Runner/Lease/Takeover.antt =====
-- The reports of a worker that has lost its step (executor.ts, the end of `runStep`).
use Prim.Native.String.{String}
use automa_build.Prelude.{
  ℕ, ◌≡◌, ◌≢◌, refl, ap, Bool, false, Option, none, some, List, [], ◌∷◌, arith, any,
}
use automa_build.Runner.Types.{StepStatus, StepRow, RunRow, Db, Json, FlowDefinition}
use automa_build.Runner.ErrorClasses.{ErrorAction}
use automa_build.Runner.Classify.{FailureFacts}
use automa_build.Runner.Retry.{RetryOutcome, retry, exhausted, terminal}
use automa_build.Runner.Repository.Rows.{update_where}
use automa_build.Runner.Repository.Steps.{held_by, FailureRecord, fail, succeed}
use automa_build.Runner.Executor.Deps.{Deps, RunStepInput, not_claimed}
use automa_build.Runner.Executor.Execute.{Execution, escaped, produced, broke}
use automa_build.Runner.Executor.Finish.{
  finish_step, finish_failure, finish_success, failure_record, decide, holder,
}

pub update_where-none {ℓ} :
    {A : Type ℓ} (test : A → Bool) (f : A → A) (xs : List A)
    → any test xs ≡ false
    → update_where test f xs ≡ xs
update_where-none test f [] h = refl
update_where-none test f (x ∷ xs) h = ground (arith, update_where-none test f xs)

module _ (db : Db) (now : ℕ) (input : RunStepInput) (deps : Deps)
    (stale : any (held_by (holder input deps)) db.steps ≡ false) where
  finish_success-stale :
      (step : StepRow) (flow : FlowDefinition) (output : Option Json)
      → finish_success db now input deps step flow output ≡ (db, not_claimed)
  unfolding finish_success
  finish_success-stale step flow output =
      ground (arith, update_where-none (held_by (holder input deps)) (succeed now output) db.steps)

  unchanged :
      (f : FailureRecord)
      → update_where (held_by (holder input deps)) (fail now f) db.steps ≡ db.steps
  unchanged f = update_where-none (held_by (holder input deps)) (fail now f) db.steps stale

  finish_failure-stale :
      (run : RunRow) (step : StepRow) (facts : FailureFacts) (message : String) (o : RetryOutcome)
      → finish_failure db now input deps run step facts message o ≡ (db, not_claimed)
  unfolding finish_failure
  finish_failure-stale run step facts message (retry at delay source s why) =
      ground (arith, unchanged (failure_record facts message StepStatus.failed s (some delay)))
  finish_failure-stale run step facts message (terminal ErrorAction.pause_for_confirmation s why) =
      ground
        (arith, unchanged (failure_record facts message StepStatus.waiting_confirmation s none))
  finish_failure-stale run step facts message (terminal action s why) =
      ground (arith, unchanged (failure_record facts message StepStatus.failed s none))
  finish_failure-stale run step facts message (exhausted s why) =
      ground (arith, unchanged (failure_record facts message StepStatus.failed s none))

  -- A worker that no longer holds the step, since its lease ran out and another took it over or the
  -- row has moved on, changes nothing when it reports: whatever its attempt came to, the database stays
  -- as it is and the answer is that the step was not claimed.
  pub finish_step-stale :
      (node_now : ℕ) (run : RunRow) (step : StepRow) (x : Execution)
      → x ≢ escaped
      → finish_step db now node_now input deps run step x ≡ some (db, not_claimed)
  unfolding finish_step
  finish_step-stale node_now run step (produced flow output) h =
      ap some (finish_success-stale step flow output)
  finish_step-stale node_now run step (broke flow facts message) h =
      ap some (finish_failure-stale run step facts message (decide deps node_now step flow facts))
  finish_step-stale node_now run step escaped h = absurd (h refl)
