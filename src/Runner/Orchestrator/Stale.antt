-- ===== src/Runner/Orchestrator/Stale.antt =====
-- An `advanceRun` whose `getRun` saw the run before another transaction ended it.
use automa_build.Prelude.{ℕ, ◌≡◌, ◌⊎◌, sym, true, false, some, Option-cases, inl, inr, arith}
use automa_build.Runner.ErrorClasses.{ErrorClass}
use automa_build.Runner.Types.{RunStatus, RunRef, RunRow, Db, is_terminal_run_status}
use automa_build.Runner.Repository.Rows.{ref_of}
use automa_build.Runner.Repository.Runs.{get_run, no_detail}
use automa_build.Runner.Repository.Steps.{next_runnable_step}
use automa_build.Runner.Orchestrator.{advance, advance_run, past, node_id_of}
use automa_build.Runner.Orchestrator.Outcome.{find-ref, set_run_status-status}

-- The run's row has one of the two statuses.
abbrev pub IsStopped : Db → RunRef → Type 0
IsStopped db ref =
    (r : RunRow) × (get_run db ref ≡ some r)
    × ((r.status ≡ RunStatus.cancelled) ⊎ (r.status ≡ RunStatus.timed_out))

get_run-ref : (db : Db) (ref : RunRef) (run : RunRow) → get_run db ref ≡ some run → ref ≡ ref_of run
unfolding get_run
get_run-ref db ref run h = sym (find-ref ref db.runs run h)

-- An advance that read the run before it ended, and read a request to cancel it or finds its
-- deadline over, leaves the run cancelled or timed out, whatever status its row has by the time of
-- the write.
pub advance_run-overwrites :
    (before db : Db) (now node_now : ℕ) (ref : RunRef) (run row : RunRow)
    → get_run before ref ≡ some run
    → is_terminal_run_status run.status ≡ false
    → ((t : ℕ) × (run.cancel_requested_at ≡ some t)) ⊎ (past run.deadline_at node_now ≡ true)
    → get_run db ref ≡ some row
    → IsStopped (advance_run before db now node_now ref).0 ref
unfolding advance_run advance
advance_run-overwrites before db now node_now ref run row seen going due there =
    let same = get_run-ref before ref run seen in
    elim (Option-cases run.cancel_requested_at) [
      | inr (t, asked) ↦
          let (r, found, is) =
            set_run_status-status db now ref (ref_of run) RunStatus.cancelled
              (record no_detail {
                cancelled_at_step_id = node_id_of (next_runnable_step db now (ref_of run));
              })
              row same there in
          rw (seen, advance_run, going, asked, advance) (r, found, inl is)
      | inl unasked ↦
          let (r, found, is) =
            set_run_status-status db now ref (ref_of run) RunStatus.timed_out
              (record no_detail { error_class = some ErrorClass.timeout }) row same there in
          let late : past run.deadline_at node_now ≡ true = elim due [
            | inl (t, asked) ↦ absurd (ground arith)
            | inr late ↦ late
          ] in
          rw (seen, advance_run, going, unasked, late, advance) (r, found, inr is)
    ]
