-- ===== src/Runner/Resume.antt =====
-- packages/automa-durable-runner/src/engine/resume.ts
pub mod Once
use Prim.Native.String.{String}
use automa_build.Prelude.{
  ℕ, ◌+◌, Bool, true, false, Option, none, some, List, [], ◌∷◌, ltb, ◌==◌, if◌then◌else◌, find,
  str_eq,
}
use automa_build.Runner.Types.{
  RunStatus, StepStatus, RunRef, RunRow, StepRow, DlqRow, Db, advance_run,
}
use automa_build.Runner.Repository.Rows.{update_where, run_is, step_is, ref_of}
use automa_build.Runner.Repository.Outbox.{enqueue}
use automa_build.Runner.Repository.Runs.{get_run, StepKey}
use automa_build.Runner.Repository.Steps.{list_steps}

pub data ResumeError : Type 0 where
  no_run not_stopped no_step bad_key no_entry already_replayed : ResumeError

pub data Result {ℓ} (A : Type ℓ) : Type ℓ where
  ok : A → Result A
  err : ResumeError → Result A

pub record ResumeResult : Type 0 where
  pub run : Option RunRow
  pub attempt_group : ℕ
  pub skipped : List String
  pub reset : List String

-- `['failed', 'cancelled', 'timed_out', 'waiting_confirmation'].includes(status)`
abbrev pub is_stopped : RunStatus → Bool
is_stopped RunStatus.failed = true
is_stopped RunStatus.cancelled = true
is_stopped RunStatus.timed_out = true
is_stopped RunStatus.waiting_confirmation = true
is_stopped _ = false

unfoldable pub reopen : Db → RunRow → ℕ → Db
reopen db run attempt_group = record db {
  runs =
      update_where (run_is (ref_of run))
        (λ r. record r {
          attempt_group = attempt_group;
          status = RunStatus.queued;
          finished_at = none;
          error_class = none;
          error_code = none;
          error_step_id = none;
          cancel_requested_at = none;
          cancelled_at_step_id = none;
        })
        db.runs;
}

unfoldable pub preserve : StepRow → StepRow
preserve s = record s {
  status = StepStatus.skipped_resumed;
  lease_expires_at = none;
  next_attempt_at = none;
  worker_id = none;
}

unfoldable pub renew : String → StepRow → StepRow
renew key s = record s {
  status = StepStatus.pending;
  idempotency_key = key;
  attempts_started = 0;
  attempts_consumed = 0;
  deferrals = 0;
  next_attempt_at = none;
  lease_expires_at = none;
  worker_id = none;
  output = none;
  error_class = none;
  error_code = none;
  error_message = none;
  http_status = none;
  started_at = none;
  finished_at = none;
  duration_ms = none;
}

unfoldable pub mark_resumed : Db → StepRow → Db
unfolding preserve
mark_resumed db s = record db {
  steps = update_where (step_is s.run_started_at s.id) preserve db.steps;
}

unfoldable pub reset_step : StepKey → Db → StepRow → ℕ → Option Db
unfolding renew
reset_step step_key db s attempt_group =
    elim (step_key s.run_id s.node_id s.iteration_index attempt_group) [
      | none ↦ none
      | some key ↦
          some (record db {
            steps = update_where (step_is s.run_started_at s.id) (renew key) db.steps;
          })
    ]

pub record Split : Type 0 where
  pub db : Db
  pub skipped : List String
  pub reset : List String

-- one round of the loop over the steps; the target's order divides them
unfoldable pub split_step : StepKey → Db → ℕ → ℕ → StepRow → Option Db
unfolding mark_resumed reset_step
split_step step_key db target attempt_group s =
    if ltb s.topo_order target
    then some (mark_resumed db s)
    else reset_step step_key db s attempt_group

abbrev pub note : ℕ → StepRow → Split → Split
note target s p =
    if ltb s.topo_order target
    then record p { skipped = s.node_id ∷ p.skipped }
    else record p { reset = s.node_id ∷ p.reset }

unfoldable pub split_steps : StepKey → Db → ℕ → ℕ → List StepRow → Option Split
unfolding split_step
split_steps step_key db target attempt_group [] =
    some (record { db = db; skipped = []; reset = [] })
split_steps step_key db target attempt_group (s ∷ ss) =
    elim (split_step step_key db target attempt_group s) [
      | none ↦ none
      | some db' ↦ elim (split_steps step_key db' target attempt_group ss) [
        | none ↦ none
        | some p ↦ some (note target s p)
      ]
    ]

unfoldable pub zero_counts : Db → RunRow → Db
zero_counts db run = record db {
  runs =
      update_where (run_is (ref_of run)) (λ r. record r { steps_succeeded = 0; steps_failed = 0 })
        db.runs;
}

unfoldable pub resume_from :
    StepKey → Db → ℕ → RunRow → List StepRow → StepRow → Result (Db × ResumeResult)
unfolding split_steps reopen zero_counts enqueue get_run
resume_from step_key db now run steps target =
    elim (split_steps step_key (reopen db run (run.attempt_group + 1)) target.topo_order
      (run.attempt_group + 1) steps) [
        | none ↦ err bad_key
        | some p ↦
            let db' =
              enqueue (zero_counts p.db run) now advance_run
                (record { run = ref_of run; step_id = none; tenant_id = none }) (some run.tenant_id)
                none in
            ok (
              db',
              record {
                run = get_run db' (ref_of run);
                attempt_group = run.attempt_group + 1;
                skipped = p.skipped;
                reset = p.reset;
              },
            )
      ]

unfoldable pub resume_run :
    StepKey → Db → ℕ → RunRef → (from_node_id : String) → Result (Db × ResumeResult)
unfolding resume_from get_run list_steps
resume_run step_key db now ref from_node_id = elim (get_run db ref) [
  | none ↦ err no_run
  | some run ↦
      if is_stopped run.status
      then elim (find (λ (s : StepRow). str_eq s.node_id from_node_id)
          (list_steps db (ref_of run))) [
            | none ↦ err no_step
            | some target ↦ resume_from step_key db now run (list_steps db (ref_of run)) target
          ]
      else err not_stopped
]

unfoldable pub stamp : ℕ → ℕ → Option String → Db → Db
stamp now entry_id replayed_by db = record db {
  dlq =
      update_where (λ (d : DlqRow). d.id == entry_id)
        (λ d. record d {
          replayed_at = some now;
          replayed_run_id = some d.run.run_id;
          resolved_by = replayed_by;
        })
        db.dlq;
}

-- Every entry that the engine writes names its run and node, so the check for a missing one is left
-- out.
unfoldable pub replay_dlq_entry :
    StepKey → Db → ℕ → (entry_id : ℕ) → Option String → Result (Db × ResumeResult)
unfolding resume_run stamp
replay_dlq_entry step_key db now entry_id replayed_by =
    elim (find (λ (d : DlqRow). d.id == entry_id) db.dlq) [
      | none ↦ err no_entry
      | some entry ↦ elim entry.replayed_at [
        | some _ ↦ err already_replayed
        | none ↦ elim (resume_run step_key db now entry.run entry.node_id) [
          | err e ↦ err e
          | ok (db', result) ↦ ok (stamp now entry_id replayed_by db', result)
        ]
      ]
    ]
