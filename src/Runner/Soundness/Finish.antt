-- ===== src/Runner/Soundness/Finish.antt =====
-- What the last part of `runStep` does to step rows.
use Prim.Native.String.{String}
use automa_build.Prelude.{
  ℕ, ◌≡◌, refl, subst, true, Option, none, some, List, [], ◌∷◌, arith, All, Bool-cases, inl, inr,
}
use automa_build.Runner.ErrorClasses.{ErrorAction}
use automa_build.Runner.Backoff.{BackoffPolicy}
use automa_build.Runner.Classify.{FailureFacts, classify}
use automa_build.Runner.Retry.{RetryOutcome, retry, exhausted, terminal}
use automa_build.Runner.Retry.Budget.{HasBudget, Accounts, on_attempt_failed-Accounts}
use automa_build.Runner.Types.{StepStatus, RunRow, StepRow, Db, Json, FlowDefinition}
use automa_build.Runner.Repository.Rows.{step_is}
use automa_build.Runner.Repository.Steps.{record_success, FailureRecord, record_failure}
use automa_build.Runner.Executor.Deps.{Deps, RunStepInput, StepOutcome}
use automa_build.Runner.Executor.Execute.{Execution, produced, broke, escaped}
use automa_build.Runner.Executor.Finish.{
  is_repeatable, finish_step, finish_success, finish_failure, count_success, abandon, taken_arm,
  enqueue_advance, failure_record, decide, holder, state_of, with_step_limits,
}
use automa_build.Runner.Branching.{Arm}
use automa_build.Runner.Soundness.Rows.{has_budget, IsSound, IsFair}
use automa_build.Runner.Soundness.Moves.{Moves, Moves-same, Moves-trans, Moves-IsSound}
use automa_build.Runner.Soundness.Quiet.{Quiet, Quiet-Moves}
use automa_build.Runner.Soundness.Work.{
  record_success-Moves, record_failure-Moves, mark_skipped-Moves,
}

-- what the failure writes on the row
pub recorded : FailureFacts → String → RetryOutcome → FailureRecord
recorded facts message (retry at delay source s why) =
    failure_record facts message StepStatus.failed s (some delay)
recorded facts message (terminal ErrorAction.pause_for_confirmation s why) =
    failure_record facts message StepStatus.waiting_confirmation s none
recorded facts message (terminal action s why) =
    failure_record facts message StepStatus.failed s none
recorded facts message (exhausted s why) = failure_record facts message StepStatus.failed s none

pub finish_failure-Quiet :
    (db : Db) (now : ℕ) (input : RunStepInput) (deps : Deps) (run : RunRow) (step : StepRow)
    (facts : FailureFacts) (message : String) (o : RetryOutcome)
    → Quiet
        (record_failure db now (holder input deps) (recorded facts message o)).0
        (finish_failure db now input deps run step facts message o).0
unfolding finish_failure recorded
finish_failure-Quiet db now input deps run step facts message (retry at delay source s why) =
    record { steps = ground arith; ids = ground arith }
finish_failure-Quiet db now input deps run step facts message
      (terminal ErrorAction.pause_for_confirmation s why) =
    record { steps = ground arith; ids = ground arith }
finish_failure-Quiet db now input deps run step facts message (terminal action s why) = record {
  steps = ground arith;
  ids = ground arith;
}
finish_failure-Quiet db now input deps run step facts message (exhausted s why) = record {
  steps = ground arith;
  ids = ground arith;
}

-- The row has the limits that the decision was made under.
abbrev pub HasLimits : StepRow → StepRow → Type 0
HasLimits step s = (s.max_attempts ≡ step.max_attempts) × (s.max_deferrals ≡ step.max_deferrals)

recorded-IsFair :
    (policy : BackoffPolicy) (facts : FailureFacts) (message : String) (step s : StepRow)
    (o : RetryOutcome)
    → has_budget step ≡ true
    → Accounts (with_step_limits policy step) (state_of step) o
    → HasLimits step s
    → IsFair (recorded facts message o) s
unfolding recorded with_step_limits failure_record
recorded-IsFair policy facts message step s (retry at delay source next why) b a l = record {
  attempts_within = ground arith;
  deferrals_within = ground arith;
  closed_or_budget = ground arith;
  not_running = refl;
  not_pending = refl;
}
recorded-IsFair policy facts message step s (terminal ErrorAction.pause_for_confirmation next why) b
      a l =
    record {
      attempts_within = ground arith;
      deferrals_within = ground arith;
      closed_or_budget = refl;
      not_running = refl;
      not_pending = refl;
    }
recorded-IsFair policy facts message step s (terminal action next why) b a l = record {
  attempts_within = ground arith;
  deferrals_within = ground arith;
  closed_or_budget = ground arith;
  not_running = ground arith;
  not_pending = ground arith;
}
recorded-IsFair policy facts message step s (exhausted next why) b a l = record {
  attempts_within = ground arith;
  deferrals_within = ground arith;
  closed_or_budget = refl;
  not_running = refl;
  not_pending = refl;
}

abandon-Moves :
    (db : Db) (now : ℕ) (input : RunStepInput) (step : StepRow) (flow : FlowDefinition)
    (arm : Option Arm)
    → All IsSound db.steps
    → Moves db (abandon db now input step flow arm)
unfolding abandon
abandon-Moves db now input step flow none h = Moves-same refl (omega arith) h
abandon-Moves db now input step flow (some arm) h = mark_skipped-Moves db now input.run _ _ h

-- what a success writes when the row was still the worker's
succeeded-Moves :
    (db : Db) (now : ℕ) (input : RunStepInput) (step : StepRow) (flow : FlowDefinition)
    (arm : Option Arm)
    → All IsSound db.steps
    → Moves db (
        enqueue_advance
          (abandon (count_success db input.run) now input step flow arm)
          now
          input
          step.tenant_id
          none)
unfolding count_success enqueue_advance
succeeded-Moves db now input step flow arm h =
    let counted = count_success db input.run in
    let left = abandon-Moves counted now input step flow arm h in
    Moves-trans {b = counted} (Moves-same refl (omega arith) h) (
      Moves-trans left
        (Quiet-Moves (record { steps = refl; ids = omega arith }) (Moves-IsSound left)))

finish_success-Moves :
    (db : Db) (now : ℕ) (input : RunStepInput) (deps : Deps) (step : StepRow)
    (flow : FlowDefinition) (output : Option Json)
    → All IsSound db.steps
    → Moves db (finish_success db now input deps step flow output).0
unfolding finish_success
finish_success-Moves db now input deps step flow output h =
    let written = record_success-Moves db now (holder input deps) output h in
    elim (Bool-cases (record_success db now (holder input deps) output).1) [
      | inl wrote ↦
          rw (wrote, finish_success)
            (Moves-trans written (
              succeeded-Moves (record_success db now (holder input deps) output).0 now input step
                flow (taken_arm output) (Moves-IsSound written)))
      | inr lost ↦ rw (lost, finish_success) written
    ]

All-map :
    {P Q : StepRow → Type 0} (xs : List StepRow) → ((s : StepRow) → P s → Q s) → All P xs → All Q xs
All-map [] f h = tt
All-map (x ∷ xs) f h = (f x h.0, All-map xs f h.1)

HasBudget-row :
    (policy : BackoffPolicy) (step : StepRow)
    → has_budget step ≡ true
    → HasBudget (with_step_limits policy step) (state_of step)
unfolding with_step_limits
HasBudget-row policy step b = record { attempts_left = ground arith; deferrals_left = ground arith }

finish_failure-Moves :
    (db : Db) (now node_now : ℕ) (input : RunStepInput) (deps : Deps) (run : RunRow)
    (step : StepRow) (flow : Option FlowDefinition) (facts : FailureFacts) (message : String)
    → has_budget step ≡ true
    → All (λ s. step_is input.run.run_started_at input.step_id s ≡ true → HasLimits step s) db.steps
    → All IsSound db.steps
    → Moves db
        (finish_failure db now input deps run step facts message
          (decide deps node_now step flow facts)).0
unfolding decide
finish_failure-Moves db now node_now input deps run step flow facts message b l h =
    let o = decide deps node_now step flow facts in
    let counted =
      on_attempt_failed-Accounts (state_of step)
        (record {
          error_class = classify facts;
          idempotent = is_repeatable flow step;
          retry_after_ms = facts.retry_after_ms;
        })
        node_now deps.random (with_step_limits deps.backoff step)
        (HasBudget-row deps.backoff step b) in
    let failed = record_failure-Moves db now (holder input deps) (recorded facts message o) h (
      All-map db.steps
        (λ s fits held.
          recorded-IsFair deps.backoff facts message step s o b counted (fits (ground arith)))
        l) in
    Moves-trans failed (
      Quiet-Moves (finish_failure-Quiet db now input deps run step facts message o)
        (Moves-IsSound failed))

pub finish_step-Moves :
    (db : Db) (now node_now : ℕ) (input : RunStepInput) (deps : Deps) (run : RunRow)
    (step : StepRow) (x : Execution) (db' : Db) (outcome : StepOutcome)
    → has_budget step ≡ true
    → All (λ s. step_is input.run.run_started_at input.step_id s ≡ true → HasLimits step s) db.steps
    → All IsSound db.steps
    → finish_step db now node_now input deps run step x ≡ some (db', outcome)
    → Moves db db'
unfolding finish_step
finish_step-Moves db now node_now input deps run step (produced flow output) db' outcome b l h e =
    subst (λ d. Moves db d) (ground arith)
      (finish_success-Moves db now input deps step flow output h)
finish_step-Moves db now node_now input deps run step (broke flow facts message) db' outcome b l h
      e =
    subst (λ d. Moves db d) (ground arith)
      (finish_failure-Moves db now node_now input deps run step flow facts message b l h)
finish_step-Moves db now node_now input deps run step escaped db' outcome b l h e =
    absurd (ground arith)
