-- ===== src/Runner/Executor/Continues.antt =====
-- What follows the last transaction of `runStep`: the next message, the dead letter.
use Prim.Native.String.{String}
use automa_build.Prelude.{
  ℕ, ◌≤◌, ◌<◌, ◌≡◌, ◌≢◌, inl, inr, refl, true, Option, none, some, [], ◌∷◌, ◌++◌, arith, any,
  Option-cases, Bool-cases, leb,
}
use automa_build.Runner.ErrorClasses.{ErrorAction}
use automa_build.Runner.Branching.{Arm}
use automa_build.Runner.Classify.{FailureFacts, classify}
use automa_build.Runner.Retry.{
  StepRetryState, RetryOutcome, retry, exhausted, terminal, on_attempt_failed, Exhaustion,
}
use automa_build.Runner.Types.{
  StepStatus, Json, FlowDefinition, RunRow, StepRow, Db, OutboxRow, OutboxTopic, attempts_exhausted,
  deferrals_exhausted, poisoned, DlqReason, DlqRow,
}
use automa_build.Runner.Repository.Steps.{held_by, record_success, record_failure, mark_skipped}
use automa_build.Runner.Repository.Dlq.{write_dlq_entry}
use automa_build.Runner.Executor.Deps.{Deps, RunStepInput, StepOutcome, dead_lettered}
use automa_build.Runner.Executor.Execute.{Execution, produced, broke, escaped}
use automa_build.Runner.Executor.Finish.{
  finish_step, finish_success, finish_failure, give_up, decide, holder, abandon, count_success,
  count_failure, dead_letter, taken_arm, enqueue_advance, with_step_limits, dlq_reason,
  failure_record,
}

-- The outbox has gained one message at its end: to advance the run.
abbrev pub GainsAdvance : Db → RunStepInput → Db → Type 0
GainsAdvance db input db' =
    (o : OutboxRow) × (db'.outbox ≡ db.outbox ++ o ∷ [])
    × (o.topic ≡ OutboxTopic.advance_run)
    × (o.payload.run ≡ input.run)

module _ (db : Db) (now : ℕ) (input : RunStepInput) (deps : Deps)
    (held : any (held_by (holder input deps)) db.steps ≡ true) where
  gained :
      (d : Db) (tenant : ℕ) (delay : Option ℕ)
      → d.outbox ≡ db.outbox
      → GainsAdvance db input (enqueue_advance d now input tenant delay)
  unfolding enqueue_advance
  gained d tenant delay e = rw e (_, refl, refl, refl)

  abandon-outbox :
      (d : Db) (step : StepRow) (flow : FlowDefinition) (arm : Option Arm)
      → (abandon d now input step flow arm).outbox ≡ d.outbox
  unfolding abandon mark_skipped
  abandon-outbox d step flow none = refl
  abandon-outbox d step flow (some arm) = refl

  finish_success-GainsAdvance :
      (step : StepRow) (flow : FlowDefinition) (output : Option Json)
      → GainsAdvance db input (finish_success db now input deps step flow output).0
  unfolding finish_success
  finish_success-GainsAdvance step flow output =
      let d = count_success (record_success db now (holder input deps) output).0 input.run in
      rw (held, finish_success)
        (gained (abandon d now input step flow (taken_arm output)) step.tenant_id none
          (abandon-outbox d step flow (taken_arm output)))

  give_up-GainsAdvance :
      (d : Db) (run : RunRow) (step : StepRow) (facts : FailureFacts) (message : String)
      (o : RetryOutcome)
      → d.outbox ≡ db.outbox
      → GainsAdvance db input (give_up d now input deps run step facts message o).0
  unfolding give_up write_dlq_entry
  give_up-GainsAdvance d run step facts message o e =
      elim (Option-cases (dlq_reason o (classify facts) (with_step_limits deps.backoff step))) [
        | inl buried ↦
            rw (buried, give_up) (gained (count_failure d input.run) step.tenant_id none e)
        | inr (reason, kept) ↦
            rw (kept, give_up)
              (gained
                (write_dlq_entry (count_failure d input.run)
                  (dead_letter input run step facts message reason))
                step.tenant_id none e)
      ]

  -- the database once the failure is on the row
  abbrev marked : FailureFacts → String → StepStatus → StepRetryState → Option ℕ → Db
  marked facts message status s delay =
      (record_failure db now (holder input deps) (failure_record facts message status s delay)).0

  finish_failure-GainsAdvance :
      (run : RunRow) (step : StepRow) (facts : FailureFacts) (message : String) (o : RetryOutcome)
      → GainsAdvance db input (finish_failure db now input deps run step facts message o).0
  unfolding finish_failure
  finish_failure-GainsAdvance run step facts message (retry at delay source s why) = rw held (
      gained (marked facts message StepStatus.failed s (some delay)) step.tenant_id (some delay)
        refl)
  finish_failure-GainsAdvance run step facts message
        (terminal ErrorAction.pause_for_confirmation s why) =
      rw held (
        gained (marked facts message StepStatus.waiting_confirmation s none) step.tenant_id none
          refl)
  finish_failure-GainsAdvance run step facts message (terminal action s why) = rw held (
      give_up-GainsAdvance (marked facts message StepStatus.failed s none) run step facts message
        (terminal action s why) refl)
  finish_failure-GainsAdvance run step facts message (exhausted s why) = rw held (
      give_up-GainsAdvance (marked facts message StepStatus.failed s none) run step facts message
        (exhausted s why) refl)

  -- A worker that still holds its step when its attempt is over leaves a message that advances the run,
  -- however the attempt ended (an exception that escapes apart): no branch of success, retry, pause,
  -- failure or dead letter lets the run stop without one.
  pub finish_step-GainsAdvance :
      (node_now : ℕ) (run : RunRow) (step : StepRow) (x : Execution)
      → x ≢ escaped
      → (db' : Db) × (outcome : StepOutcome) × (finish_step db now node_now input deps run step x
          ≡ some (db', outcome))
        × GainsAdvance db input db'
  unfolding finish_step
  finish_step-GainsAdvance node_now run step (produced flow output) h =
      (_, _, refl, finish_success-GainsAdvance step flow output)
  finish_step-GainsAdvance node_now run step (broke flow facts message) h = (
    _,
    _,
    refl,
    finish_failure-GainsAdvance run step facts message (decide deps node_now step flow facts),
  )
  finish_step-GainsAdvance node_now run step escaped h = absurd (h refl)

-- The reason names the counter that the failure used up, to the limit on the step's own row.
abbrev pub Names : StepRow → StepRetryState → DlqReason → Type 0
Names step next attempts_exhausted = next.attempts_consumed ≡ step.max_attempts
Names step next deferrals_exhausted =
    (step.max_deferrals ≤ next.deferrals) × (next.attempts_consumed < step.max_attempts)
Names step next poisoned = ⊥

dlq_reason-Names :
    (step : StepRow) (flow : Option FlowDefinition) (facts : FailureFacts) (deps : Deps) (now : ℕ)
    (next : StepRetryState) (why : Exhaustion)
    → step.attempts_consumed < step.max_attempts
    → decide deps now step flow facts ≡ exhausted next why
    → (reason : DlqReason) × (dlq_reason
          (exhausted next why)
          (classify facts)
          (with_step_limits deps.backoff step)
        ≡ some reason)
      × Names step next reason
unfolding decide on_attempt_failed dlq_reason with_step_limits
dlq_reason-Names step flow facts deps now next why h e =
    elim (Bool-cases (leb step.max_attempts next.attempts_consumed)) [
      | inl used ↦ (attempts_exhausted, ground arith, ground arith)
      | inr left ↦ (deferrals_exhausted, ground arith, (ground arith, ground arith))
    ]

-- What is left of an attempt whose failure used up a counter: a dead letter more, about the step.
abbrev pub IsBuried :
    Db → RunStepInput → StepRow → StepRetryState → Option (Db × StepOutcome) → Type 0
IsBuried db input step next result =
    (db' : Db) × (reason : DlqReason) × (letter : DlqRow) × (result
      ≡ some (db', dead_lettered input.step_id reason))
    × (db'.dlq ≡ db.dlq ++ letter ∷ [])
    × (letter.run ≡ input.run)
    × (letter.step_id ≡ input.step_id)
    × (letter.reason ≡ reason)
    × Names step next reason

give_up-IsBuried :
    (db d : Db) (now : ℕ) (input : RunStepInput) (deps : Deps) (run : RunRow) (step : StepRow)
    (facts : FailureFacts) (message : String) (next : StepRetryState) (o : RetryOutcome)
    (reason : DlqReason)
    → d.dlq ≡ db.dlq
    → dlq_reason o (classify facts) (with_step_limits deps.backoff step) ≡ some reason
    → Names step next reason
    → IsBuried db input step next (some (give_up d now input deps run step facts message o))
unfolding give_up count_failure write_dlq_entry dead_letter enqueue_advance
give_up-IsBuried db d now input deps run step facts message next o reason same kept names =
    rw (kept, give_up, same) (_, reason, _, refl, refl, refl, refl, refl, names)

-- Where a worker that still holds its step, with attempts left, reports a failure that uses up a
-- counter, the last transaction appends one dead letter, about this step of this run, and answers
-- with its reason, which names the counter that reached the limit of the step's own row: attempts
-- where they are used up, deferrals only where attempts are left.
pub finish_step-IsBuried :
    (db : Db) (now node_now : ℕ) (input : RunStepInput) (deps : Deps) (run : RunRow)
    (step : StepRow) (flow : Option FlowDefinition) (facts : FailureFacts) (message : String)
    (next : StepRetryState) (why : Exhaustion)
    → any (held_by (holder input deps)) db.steps ≡ true
    → step.attempts_consumed < step.max_attempts
    → decide deps node_now step flow facts ≡ exhausted next why
    → IsBuried db input step next
        (finish_step db now node_now input deps run step (broke flow facts message))
unfolding finish_step finish_failure record_failure
finish_step-IsBuried db now node_now input deps run step flow facts message next why held left e =
    let (reason, kept, names) = dlq_reason-Names step flow facts deps node_now next why left e in
    let d =
      (record_failure db now (holder input deps)
        (failure_record facts message StepStatus.failed next none)).0 in
    rw (e, held, finish_failure)
      (give_up-IsBuried db d now input deps run step facts message next (exhausted next why) reason
        refl kept names)
