-- ===== src/Runner/Soundness/Aftermath.antt =====
-- What creations, attempts and sweeps leave of a run that is over.
use Prim.Native.String.{String}
use automa_build.Prelude.{
  ℕ, ◌≡◌, ◌∙◌, refl, subst, true, false, Option, none, some, List, [], ◌∷◌, ◌++◌, arith, any,
  get_or, Option-cases, Bool-cases, inl, inr,
}
use automa_build.Runner.ErrorClasses.{ErrorAction}
use automa_build.Runner.Branching.{Arm}
use automa_build.Runner.Classify.{FailureFacts, classify}
use automa_build.Runner.Retry.{StepRetryState, RetryOutcome, retry, exhausted, terminal}
use automa_build.Runner.Types.{
  StepStatus, RunStatus, RunRef, RunRow, StepRow, Db, Json, FlowDefinition,
}
use automa_build.Runner.Repository.Rows.{run_is, ref_of}
use automa_build.Runner.Repository.Runs.{
  StepKey, CreateRunInput, CreateRunResult, create_run, claim_key, schedule_run, insert_run,
  new_run, key_is, find_run_by_idempotency_key,
}
use automa_build.Runner.Repository.Runs.Once.{schedule_run-Scheduled, counted}
use automa_build.Runner.Repository.Steps.{
  claim_step, claim_row, held_by, record_success, record_failure, mark_skipped,
}
use automa_build.Runner.Executor.Deps.{Deps, RunStepInput, StepOutcome}
use automa_build.Runner.Executor.Begin.{begin_step}
use automa_build.Runner.Executor.Execute.{Execution, produced, broke, escaped}
use automa_build.Runner.Executor.Finish.{
  finish_step, finish_success, finish_failure, give_up, decide, holder, abandon, count_success,
  count_failure, taken_arm, enqueue_advance, with_step_limits, dlq_reason, failure_record,
}
use automa_build.Runner.Janitor.{
  Candidate, sweep, schedule_all, schedule_one, noted, expired_leases_of, overdue_runs_of,
  stranded_runs_of,
}
use automa_build.Runner.Soundness.Endings.{HasEnded, update-HasEnded, append-HasEnded}

pub begin_step-runs :
    (db : Db) (now : ℕ) (input : RunStepInput) (deps : Deps)
    → (begin_step db now input deps).0.runs ≡ db.runs
unfolding begin_step claim_step claim_row
begin_step-runs db now input deps = ground arith

schedule_all-runs :
    (db : Db) (now : ℕ) (scheduled : List ℕ) (cs : List Candidate)
    → (schedule_all db now scheduled cs).0.runs ≡ db.runs
unfolding schedule_all schedule_one
schedule_all-runs db now scheduled [] = refl
schedule_all-runs db now scheduled (c ∷ cs) =
    schedule_all-runs (schedule_one db now scheduled c) now (noted scheduled c) cs ∙ ground arith

pub sweep-runs :
    (db : Db) (now : ℕ) (tenant limit : Option ℕ) → (sweep db now tenant limit).0.runs ≡ db.runs
unfolding sweep
sweep-runs db now tenant limit =
    let expired = expired_leases_of db now tenant (get_or limit 100) in
    let overdue = overdue_runs_of db now tenant (get_or limit 100) in
    let stranded = stranded_runs_of db now tenant (get_or limit 100) in
    let first = schedule_all db now [] expired in
    let second = schedule_all first.0 now first.1 overdue in
    schedule_all-runs second.0 now second.1 stranded
    ∙ (schedule_all-runs first.0 now first.1 overdue ∙ schedule_all-runs db now [] expired)

module _ (ref : RunRef) (status : RunStatus) where
  count_success-HasEnded :
      (db : Db) (key : RunRef)
      → HasEnded db.runs ref status
      → HasEnded (count_success db key).runs ref status
  unfolding count_success
  count_success-HasEnded db key h =
      update-HasEnded ref status _ _ db.runs (λ x. refl) (λ x hit over meant. refl) h

  count_failure-HasEnded :
      (db : Db) (key : RunRef)
      → HasEnded db.runs ref status
      → HasEnded (count_failure db key).runs ref status
  unfolding count_failure
  count_failure-HasEnded db key h =
      update-HasEnded ref status _ _ db.runs (λ x. refl) (λ x hit over meant. refl) h

  abandon-runs :
      (d : Db) (now : ℕ) (input : RunStepInput) (step : StepRow) (flow : FlowDefinition)
      (arm : Option Arm)
      → (abandon d now input step flow arm).runs ≡ d.runs
  unfolding abandon mark_skipped
  abandon-runs d now input step flow none = refl
  abandon-runs d now input step flow (some arm) = refl

  finish_success-HasEnded :
      (db : Db) (now : ℕ) (input : RunStepInput) (deps : Deps) (step : StepRow)
      (flow : FlowDefinition) (output : Option Json)
      → HasEnded db.runs ref status
      → HasEnded (finish_success db now input deps step flow output).0.runs ref status
  unfolding finish_success record_success
  finish_success-HasEnded db now input deps step flow output h =
      elim (Bool-cases (any (held_by (holder input deps)) db.steps)) [
        | inl held ↦
            rw
              (
                held,
                finish_success,
                enqueue_advance,
                abandon-runs
                    (count_success (record_success db now (holder input deps) output).0 input.run)
                    now input step flow (taken_arm output),
              )
              (count_success-HasEnded (record_success db now (holder input deps) output).0 input.run
                h)
        | inr lost ↦ rw (lost, finish_success) h
      ]

  give_up-HasEnded :
      (d : Db) (now : ℕ) (input : RunStepInput) (deps : Deps) (run : RunRow) (step : StepRow)
      (facts : FailureFacts) (message : String) (o : RetryOutcome)
      → HasEnded d.runs ref status
      → HasEnded (give_up d now input deps run step facts message o).0.runs ref status
  unfolding give_up
  give_up-HasEnded d now input deps run step facts message o h =
      elim (Option-cases (dlq_reason o (classify facts) (with_step_limits deps.backoff step))) [
        | inl buried ↦ rw (buried, give_up) (count_failure-HasEnded d input.run h)
        | inr (reason, kept) ↦ rw (kept, give_up) (count_failure-HasEnded d input.run h)
      ]

  finish_failure-HasEnded :
      (db : Db) (now : ℕ) (input : RunStepInput) (deps : Deps) (run : RunRow) (step : StepRow)
      (facts : FailureFacts) (message : String) (o : RetryOutcome)
      → HasEnded db.runs ref status
      → HasEnded (finish_failure db now input deps run step facts message o).0.runs ref status
  unfolding finish_failure
  finish_failure-HasEnded db now input deps run step facts message o h =
      elim (Bool-cases (any (held_by (holder input deps)) db.steps)) [
        | inl held ↦ when_held o held
        | inr lost ↦ when_lost o lost
      ]
    where
      marked : StepStatus → StepRetryState → Db
      marked status' s =
          (record_failure db now (holder input deps)
            (failure_record facts message status' s none)).0

      when_held :
          (o : RetryOutcome)
          → any (held_by (holder input deps)) db.steps ≡ true
          → HasEnded (finish_failure db now input deps run step facts message o).0.runs ref status
      when_held (retry due_at delay source s why) held = rw held h
      when_held (terminal ErrorAction.pause_for_confirmation s why) held = rw held h
      when_held (terminal action s why) held = rw held (
          give_up-HasEnded (marked StepStatus.failed s) now input deps run step facts message
            (terminal action s why) h)
      when_held (exhausted s why) held = rw held (
          give_up-HasEnded (marked StepStatus.failed s) now input deps run step facts message
            (exhausted s why) h)

      when_lost :
          (o : RetryOutcome)
          → any (held_by (holder input deps)) db.steps ≡ false
          → HasEnded (finish_failure db now input deps run step facts message o).0.runs ref status
      when_lost (retry due_at delay source s why) lost = rw lost h
      when_lost (terminal ErrorAction.pause_for_confirmation s why) lost = rw lost h
      when_lost (terminal action s why) lost = rw lost h
      when_lost (exhausted s why) lost = rw lost h

  pub finish_step-HasEnded :
      (db : Db) (now node_now : ℕ) (input : RunStepInput) (deps : Deps) (run : RunRow)
      (step : StepRow) (x : Execution) (db' : Db) (outcome : StepOutcome)
      → finish_step db now node_now input deps run step x ≡ some (db', outcome)
      → HasEnded db.runs ref status
      → HasEnded db'.runs ref status
  unfolding finish_step
  finish_step-HasEnded db now node_now input deps run step (produced flow output) db' outcome e h =
      let same : (finish_success db now input deps step flow output).0.runs ≡ db'.runs =
        ground arith in
      subst (λ (rs : List RunRow). HasEnded rs ref status) same
        (finish_success-HasEnded db now input deps step flow output h)
  finish_step-HasEnded db now node_now input deps run step (broke flow facts message) db' outcome e
        h =
      let o = decide deps node_now step flow facts in
      let same : (finish_failure db now input deps run step facts message o).0.runs ≡ db'.runs =
        ground arith in
      subst (λ (rs : List RunRow). HasEnded rs ref status) same
        (finish_failure-HasEnded db now input deps run step facts message o h)
  finish_step-HasEnded db now node_now input deps run step escaped db' outcome e h =
      absurd (ground arith)

  schedule_run-HasEnded :
      (step_key : StepKey) (db : Db) (now : ℕ) (run : RunRow) (input : CreateRunInput) (db' : Db)
      (result : CreateRunResult)
      → schedule_run step_key db now run input ≡ some (db', result)
      → HasEnded db.runs ref status
      → HasEnded db'.runs ref status
  schedule_run-HasEnded step_key db now run input db' result e h =
      rw (schedule_run-Scheduled step_key db now run input db' result e).runs (
        update-HasEnded ref status (run_is (ref_of run)) (counted input.flow) db.runs (λ x. refl)
          (λ x hit over meant. refl) h)

  pub create_run-HasEnded :
      (step_key : StepKey) (before db : Db) (now : ℕ) (input : CreateRunInput) (db' : Db)
      (result : CreateRunResult)
      → create_run step_key before db now input ≡ some (db', result)
      → HasEnded db.runs ref status
      → HasEnded db'.runs ref status
  unfolding create_run insert_run claim_key
  create_run-HasEnded step_key before db now input db' result e h =
      let run = new_run db now input in
      let more = append-HasEnded ref status db.runs run h in
      elim (Option-cases input.idempotency_key) [
        | inl unkeyed ↦
            schedule_run-HasEnded step_key (insert_run db run) now run input db' result
              (ground arith) more
        | inr (key, keyed) ↦ elim (Option-cases (find_run_by_idempotency_key before input key)) [
          | inr (old, found) ↦
              let same : db.runs ≡ db'.runs = ground arith in
              subst (λ (rs : List RunRow). HasEnded rs ref status) same h
          | inl new ↦ elim (Bool-cases (any (key_is input key) db.run_keys)) [
            | inl lost ↦ let same : db'.runs ≡ db.runs ++ run ∷ [] = ground arith in rw same more
            | inr won ↦
                schedule_run-HasEnded step_key
                  (record (insert_run db run) {
                    run_keys =
                        db.run_keys
                        ++ record {
                          tenant_id = input.tenant_id;
                          flow_id = input.flow.id;
                          idempotency_key = key;
                          run = ref_of run;
                        }
                          ∷ [];
                  })
                  now run input db' result (ground arith) more
          ]
        ]
      ]
