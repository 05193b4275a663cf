-- ===== src/Runner/Soundness/Undisturbed.antt =====
-- The transactions of the engine leave a guarded step under its lease.
use Prim.Native.String.{String}
use automa_build.Prelude.{
  ℕ, ◌+◌, ◌≤◌, ◌≡◌, refl, subst, true, false, Option, none, some, List, arith, Option-cases,
  Bool-cases, find, inl, inr,
}
use automa_build.Runner.Branching.{Arm}
use automa_build.Runner.Types.{FlowDefinition, RunRef, RunRow, StepRow, Db, Json}
use automa_build.Runner.Repository.Rows.{claimable}
use automa_build.Runner.Repository.Runs.{get_run}
use automa_build.Runner.Repository.Steps.{
  Holder, ClaimInput, claim_step, claim_row, to_claim, take_lease, renew_lease, held_by,
  record_success, succeed, FailureRecord, record_failure, fail, mark_skipped, to_skip, skip,
}
use automa_build.Runner.Executor.Deps.{Deps, RunStepInput, StepOutcome}
use automa_build.Runner.Executor.Begin.{begin_step, claim_input}
use automa_build.Runner.Executor.Execute.{Execution, produced, broke, escaped}
use automa_build.Runner.Executor.Finish.{
  finish_step, finish_success, decide, holder, count_success, abandon, taken_arm, enqueue_advance,
}
use automa_build.Runner.Soundness.Quiet.{Quiet}
use automa_build.Runner.Soundness.Work.{begun-Quiet, claim_step-either}
use automa_build.Runner.Soundness.Finish.{recorded, finish_failure-Quiet}
use automa_build.Runner.Soundness.Guarded.{IsUnder, IsGuarded, is_same, update-GuardedRows}

module _ (h : Holder) (until : ℕ) where
  -- a transaction that leaves the steps alone
  pub quiet :
      {db db' : Db}
      → db'.steps ≡ db.steps
      → db.next_id ≤ db'.next_id
      → IsGuarded h until db
      → IsGuarded h until db'
  quiet e i g = record { rows = rw e g.rows; issued = omega (arith, g.issued, i) }

  pub Quiet-IsGuarded : {db db' : Db} → Quiet db db' → IsGuarded h until db → IsGuarded h until db'
  Quiet-IsGuarded q g = quiet q.steps q.ids g

  -- A claim in time: not of this step, or before its lease is over.
  abbrev pub IsInTime : ℕ → ℕ → ℕ → Type 0
  IsInTime now started id = started ≡ h.run_started_at → id ≡ h.step_id → now ≤ until

  pub not_claimable :
      (now : ℕ) (s : StepRow) → now ≤ until → IsUnder h until s → claimable now s ≡ false
  unfolding claimable
  not_claimable now s early u = ground (arith, u.runs, u.lasting)

  claim_row-IsGuarded :
      (db : Db) (now : ℕ) (input : ClaimInput)
      → IsInTime now input.run_started_at input.step_id
      → IsGuarded h until db
      → IsGuarded h until (claim_row db now input).0
  unfolding claim_row take_lease
  claim_row-IsGuarded db now input early g =
      elim (Option-cases (find (to_claim now input) db.steps)) [
        | inl missing ↦ rw (missing, claim_row) g
        | inr (s, hit) ↦
            rw (hit, claim_row)
              (record {
                rows =
                    update-GuardedRows h until (to_claim now input) (take_lease now input) db.steps
                      (λ x. refl)
                      (λ x key chosen u. absurd (
                        ground
                          (arith, not_claimable now x (early (ground arith) (ground arith)) u)))
                      g.rows;
                issued = g.issued;
              })
      ]

  pub claim_step-IsGuarded :
      (db : Db) (now : ℕ) (input : ClaimInput)
      → IsInTime now input.run_started_at input.step_id
      → IsGuarded h until db
      → IsGuarded h until (claim_step db now input).0
  claim_step-IsGuarded db now input early g = elim (claim_step-either db now input) [
    | inl same ↦ rw same g
    | inr row ↦ rw row (claim_row-IsGuarded db now input early g)
  ]

  pub begin_step-IsGuarded :
      (db : Db) (now : ℕ) (input : RunStepInput) (deps : Deps)
      → IsInTime now input.run.run_started_at input.step_id
      → IsGuarded h until db
      → IsGuarded h until (begin_step db now input deps).0
  unfolding begin_step
  begin_step-IsGuarded db now input deps early g = elim (Option-cases (get_run db input.run)) [
    | inl missing ↦ rw (missing, begin_step) g
    | inr (run, hit) ↦
        rw (hit, begin_step)
          (Quiet-IsGuarded
            (begun-Quiet db now input deps run (claim_step db now (claim_input input deps run)))
            (claim_step-IsGuarded db now (claim_input input deps run) early g))
  ]

  pub renew_lease-IsGuarded :
      (db : Db) (now : ℕ) (by : Holder) (lease_ms : ℕ)
      → (is_same by h ≡ true → until ≤ now + lease_ms)
      → IsGuarded h until db
      → IsGuarded h until (renew_lease db now by lease_ms).0
  unfolding renew_lease
  renew_lease-IsGuarded db now by lease_ms long g = record {
    rows =
        update-GuardedRows h until (held_by by) _ db.steps (λ x. refl)
          (λ x key held u. record {
            runs = u.runs;
            by_worker = u.by_worker;
            lasting = ground (arith, long (ground (arith, u.by_worker)));
          })
          g.rows;
    issued = g.issued;
  }

  mark_skipped-IsGuarded :
      (db : Db) (now : ℕ) (ref : RunRef) (nodes : List String) (reason : String)
      → IsGuarded h until db
      → IsGuarded h until (mark_skipped db now ref nodes reason).0
  unfolding mark_skipped skip
  mark_skipped-IsGuarded db now ref nodes reason g = record {
    rows =
        update-GuardedRows h until (to_skip ref nodes) (skip now reason) db.steps (λ x. refl)
          (λ x key chosen u. absurd (ground (arith, u.runs))) g.rows;
    issued = g.issued;
  }

  record_success-IsGuarded :
      (db : Db) (now : ℕ) (by : Holder) (output : Option Json)
      → is_same by h ≡ false
      → IsGuarded h until db
      → IsGuarded h until (record_success db now by output).0
  unfolding record_success succeed
  record_success-IsGuarded db now by output other g = record {
    rows =
        update-GuardedRows h until (held_by by) (succeed now output) db.steps (λ x. refl)
          (λ x key held u. absurd (ground (arith, u.by_worker))) g.rows;
    issued = g.issued;
  }

  record_failure-IsGuarded :
      (db : Db) (now : ℕ) (by : Holder) (f : FailureRecord)
      → is_same by h ≡ false
      → IsGuarded h until db
      → IsGuarded h until (record_failure db now by f).0
  unfolding record_failure fail
  record_failure-IsGuarded db now by f other g = record {
    rows =
        update-GuardedRows h until (held_by by) (fail now f) db.steps (λ x. refl)
          (λ x key held u. absurd (ground (arith, u.by_worker))) g.rows;
    issued = g.issued;
  }

  abandon-IsGuarded :
      (db : Db) (now : ℕ) (input : RunStepInput) (step : StepRow) (flow : FlowDefinition)
      (arm : Option Arm)
      → IsGuarded h until db
      → IsGuarded h until (abandon db now input step flow arm)
  unfolding abandon
  abandon-IsGuarded db now input step flow none g = g
  abandon-IsGuarded db now input step flow (some arm) g =
      mark_skipped-IsGuarded db now input.run _ _ g

  finish_success-IsGuarded :
      (db : Db) (now : ℕ) (input : RunStepInput) (deps : Deps) (step : StepRow)
      (flow : FlowDefinition) (output : Option Json)
      → is_same (holder input deps) h ≡ false
      → IsGuarded h until db
      → IsGuarded h until (finish_success db now input deps step flow output).0
  unfolding finish_success count_success enqueue_advance
  finish_success-IsGuarded db now input deps step flow output other g =
      let d = (record_success db now (holder input deps) output).0 in
      let written : IsGuarded h until d =
        record_success-IsGuarded db now (holder input deps) output other g in
      let left =
        abandon-IsGuarded (count_success d input.run) now input step flow (taken_arm output)
          (quiet refl (omega arith) written) in
      elim (Bool-cases (record_success db now (holder input deps) output).1) [
        | inl wrote ↦ rw (wrote, finish_success) (quiet refl (omega arith) left)
        | inr lost ↦ rw (lost, finish_success) written
      ]

  pub finish_step-IsGuarded :
      (db : Db) (now node_now : ℕ) (input : RunStepInput) (deps : Deps) (run : RunRow)
      (step : StepRow) (x : Execution) (db' : Db) (outcome : StepOutcome)
      → is_same (holder input deps) h ≡ false
      → finish_step db now node_now input deps run step x ≡ some (db', outcome)
      → IsGuarded h until db
      → IsGuarded h until db'
  unfolding finish_step
  finish_step-IsGuarded db now node_now input deps run step (produced flow output) db' outcome other
        e g =
      subst (λ d. IsGuarded h until d) (ground arith)
        (finish_success-IsGuarded db now input deps step flow output other g)
  finish_step-IsGuarded db now node_now input deps run step (broke flow facts message) db' outcome
        other e g =
      let o = decide deps node_now step flow facts in
      subst (λ d. IsGuarded h until d) (ground arith)
        (Quiet-IsGuarded (finish_failure-Quiet db now input deps run step facts message o)
          (record_failure-IsGuarded db now (holder input deps) (recorded facts message o) other g))
  finish_step-IsGuarded db now node_now input deps run step escaped db' outcome other e g =
      absurd (ground arith)
