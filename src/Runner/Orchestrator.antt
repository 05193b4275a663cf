-- ===== src/Runner/Orchestrator.antt =====
-- packages/automa-durable-runner/src/engine/orchestrator.ts
-- `now` is the database's clock and `node_now` the `Date.now()` of the process.
pub mod CanRun
pub mod Choice
pub mod Outcome
pub mod Stale
use Prim.Native.String.{String}
use automa_build.Prelude.{
  ℕ, Bool, true, false, ◌&&◌, ◌||◌, not, Option, none, some, List, [], ◌∷◌, leb, if◌then◌else◌,
  find, keep, coalesce, is_none, length,
}
use automa_build.Runner.ErrorClasses.{ErrorClass}
use automa_build.Runner.Types.{
  RunStatus, StepStatus, RunRef, RunRow, StepRow, Db, run_step, is_terminal_run_status,
}
use automa_build.Runner.Repository.Rows.{ref_of, is_failed, is_timed_out}
use automa_build.Runner.Repository.Outbox.{enqueue}
use automa_build.Runner.Repository.Runs.{get_run, set_run_status, no_detail}
use automa_build.Runner.Repository.Steps.{list_steps, next_runnable_step}

pub data WaitReason : Type 0 where
  awaiting_confirmation : WaitReason
  not_yet_due : ℕ → WaitReason

pub data AdvanceOutcome : Type 0 where
  dispatched : (step_id : ℕ) → (node_id : String) → AdvanceOutcome
  waiting : WaitReason → AdvanceOutcome
  finished : RunStatus → AdvanceOutcome
  gone : AdvanceOutcome

abbrev pub terminally_failed : StepRow → Bool
terminally_failed s = (is_failed s.status && is_none s.next_attempt_at) || is_timed_out s.status

abbrev pub is_paused : StepRow → Bool
is_paused s = elim s.status [ StepStatus.waiting_confirmation ↦ true | _ ↦ false ]

abbrev pub is_finished_status : StepStatus → Bool
is_finished_status StepStatus.succeeded = true
is_finished_status StepStatus.skipped = true
is_finished_status StepStatus.skipped_resumed = true
is_finished_status StepStatus.cancelled = true
is_finished_status _ = false

abbrev pub unfinished : StepRow → Bool
unfinished s = not (is_finished_status s.status)

unfoldable pub finish_or_pause : Db → ℕ → RunRef → List StepRow → Db × AdvanceOutcome
unfolding set_run_status
finish_or_pause db now ref steps = elim (find is_paused steps) [
  | some paused ↦ (
    set_run_status db now ref RunStatus.waiting_confirmation (record no_detail {
      error_class = coalesce paused.error_class (some ErrorClass.unknown_outcome);
      error_step_id = some paused.node_id;
    }),
    waiting awaiting_confirmation,
  )
  | none ↦ elim (keep unfinished steps) [
    | [] ↦ (set_run_status db now ref RunStatus.succeeded no_detail, finished RunStatus.succeeded)
    | s ∷ more ↦ (db, waiting (not_yet_due (length (s ∷ more))))
  ]
]

unfoldable pub finish_or_wait : Db → ℕ → RunRef → Db × AdvanceOutcome
unfolding finish_or_pause list_steps
finish_or_wait db now ref =
    let steps = list_steps db ref in
    elim (find terminally_failed steps) [
      | some s ↦ (
        set_run_status db now ref RunStatus.failed (record {
          error_class = coalesce s.error_class (some ErrorClass.internal);
          error_code = s.error_code;
          error_step_id = some s.node_id;
          cancelled_at_step_id = none;
        }),
        finished RunStatus.failed,
      )
      | none ↦ finish_or_pause db now ref steps
    ]

abbrev pub is_queued : RunStatus → Bool
is_queued RunStatus.queued = true
is_queued _ = false

abbrev pub past : Option ℕ → ℕ → Bool
past none node_now = false
past (some t) node_now = leb t node_now

unfoldable pub dispatch : Db → ℕ → RunRow → StepRow → Db × AdvanceOutcome
unfolding set_run_status enqueue
dispatch db now run step =
    let db' =
      if is_queued run.status
      then set_run_status db now (ref_of run) RunStatus.running no_detail
      else db in
    (
      enqueue db' now run_step
          (record { run = ref_of run; step_id = some step.id; tenant_id = some run.tenant_id })
          (some run.tenant_id) none,
      dispatched step.id step.node_id,
    )

abbrev pub node_id_of : Option StepRow → Option String
node_id_of none = none
node_id_of (some s) = some s.node_id

unfoldable pub advance : Db → ℕ → ℕ → RunRow → Db × AdvanceOutcome
unfolding dispatch finish_or_wait next_runnable_step
advance db now node_now run =
    if is_terminal_run_status run.status
    then (db, finished run.status)
    else elim run.cancel_requested_at [
      | some _ ↦ (
        set_run_status db now (ref_of run) RunStatus.cancelled (record no_detail {
          cancelled_at_step_id = node_id_of (next_runnable_step db now (ref_of run));
        }),
        finished RunStatus.cancelled,
      )
      | none ↦
          if past run.deadline_at node_now
          then (
            set_run_status db now (ref_of run) RunStatus.timed_out
                (record no_detail { error_class = some ErrorClass.timeout }),
            finished RunStatus.timed_out,
          )
          else elim (next_runnable_step db now (ref_of run)) [
            | none ↦ finish_or_wait db now (ref_of run)
            | some step ↦ dispatch db now run step
          ]
    ]

-- `getRun` takes no lock on the row: `before` is the database that it saw, and `db` the one that the
-- later statements of the transaction meet.
unfoldable pub advance_run : Db → Db → ℕ → ℕ → RunRef → Db × AdvanceOutcome
unfolding advance get_run
advance_run before db now node_now ref = elim (get_run before ref) [
  | none ↦ (db, gone)
  | some run ↦ advance db now node_now run
]
