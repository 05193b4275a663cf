-- ===== src/Runner/Soundness/Endings.antt =====
-- What `advanceRun` and a request to cancel leave of a run that is over.
use automa_build.Prelude.{
  ℕ, ◌≡◌, ◌∙◌, refl, sym, Bool, true, false, none, some, List, [], ◌∷◌, ◌++◌, arith, find, keep,
  coalesce, if◌then◌else◌, Option-cases, Bool-cases, inl, inr,
}
use automa_build.Runner.ErrorClasses.{ErrorClass}
use automa_build.Runner.Repository.Outbox.{enqueue}
use automa_build.Runner.Orchestrator.Outcome.{List-cases}
use automa_build.Runner.Types.{RunStatus, RunRef, RunRow, StepRow, Db, is_terminal_run_status}
use automa_build.Runner.Repository.Rows.{update_where, run_is, ref_of}
use automa_build.Runner.Repository.Runs.{
  get_run, set_run_status, StatusDetail, no_detail, request_cancel,
}
use automa_build.Runner.Repository.Steps.{list_steps, next_runnable_step}
use automa_build.Runner.Orchestrator.{
  advance, advance_run, dispatch, finish_or_wait, finish_or_pause, is_paused, unfinished,
  terminally_failed, past, is_queued, node_id_of,
}

-- The first run under the reference has ended with this status.
abbrev pub HasEnded : List RunRow → RunRef → RunStatus → Type 0
HasEnded runs ref status =
    (r : RunRow) × (find (run_is ref) runs ≡ some r)
    × (r.status ≡ status)
    × (is_terminal_run_status status ≡ true)

find-key :
    (ref : RunRef) (runs : List RunRow) (r : RunRow)
    → find (run_is ref) runs ≡ some r
    → ref_of r ≡ ref
find-key ref [] r h = absurd (ground arith)
find-key ref (x ∷ xs) r h = ground (arith, find-key ref xs r)

-- an update of runs that keeps their keys finds the same run, changed if it was meant
find-update :
    (ref : RunRef) (test : RunRow → Bool) (f : RunRow → RunRow) (runs : List RunRow) (r : RunRow)
    → ((x : RunRow) → run_is ref (f x) ≡ run_is ref x)
    → find (run_is ref) runs ≡ some r
    → find (run_is ref) (update_where test f runs) ≡ some (if test r then f r else r)
find-update ref test f [] r k h = absurd (ground arith)
find-update ref test f (x ∷ xs) r k h = ground (arith, find-update ref test f xs r k, k x)

pub update-HasEnded :
    (ref : RunRef) (status : RunStatus) (test : RunRow → Bool) (f : RunRow → RunRow)
    (runs : List RunRow)
    → ((x : RunRow) → run_is ref (f x) ≡ run_is ref x)
    → ((x : RunRow)
        → find (run_is ref) runs ≡ some x
        → is_terminal_run_status x.status ≡ true
        → test x ≡ true
        → (f x).status ≡ x.status)
    → HasEnded runs ref status
    → HasEnded (update_where test f runs) ref status
update-HasEnded ref status test f runs k same (r, hit, is, over) =
    let changed = find-update ref test f runs r k hit in
    elim (Bool-cases (test r)) [
      | inl meant ↦ (f r, rw meant at changed, same r hit (rw is over) meant ∙ is, over)
      | inr other ↦ (r, rw other at changed, is, over)
    ]

pub append-HasEnded :
    (ref : RunRef) (status : RunStatus) (runs : List RunRow) (new : RunRow)
    → HasEnded runs ref status
    → HasEnded (runs ++ new ∷ []) ref status
append-HasEnded ref status runs new (r, hit, is, over) = (r, find-append runs hit, is, over)
  where
    find-append :
        (xs : List RunRow)
        → find (run_is ref) xs ≡ some r
        → find (run_is ref) (xs ++ new ∷ []) ≡ some r
    find-append [] h = absurd (ground arith)
    find-append (x ∷ xs) h = ground (arith, find-append xs)

set_run_status-HasEnded :
    (db : Db) (now : ℕ) (run : RunRow) (set : RunStatus) (detail : StatusDetail) (ref : RunRef)
    (status : RunStatus)
    → find (run_is (ref_of run)) db.runs ≡ some run
    → is_terminal_run_status run.status ≡ false
    → HasEnded db.runs ref status
    → HasEnded (set_run_status db now (ref_of run) set detail).runs ref status
unfolding set_run_status
set_run_status-HasEnded db now run set detail ref status there going =
    update-HasEnded ref status (run_is (ref_of run)) _ db.runs (λ x. refl)
      (λ x hit over meant. absurd (both x hit over meant))
  where
    both :
        (x : RunRow)
        → find (run_is ref) db.runs ≡ some x
        → is_terminal_run_status x.status ≡ true
        → run_is (ref_of run) x ≡ true
        → ⊥
    both x hit over meant =
        let same : ref ≡ ref_of run = sym (find-key ref db.runs x hit) ∙ ground arith in
        let found : find (run_is (ref_of run)) db.runs ≡ some x = rw (sym same) hit in ground arith

module _ (db : Db) (now node_now : ℕ) (run : RunRow) (ref : RunRef) (status : RunStatus)
    (there : find (run_is (ref_of run)) db.runs ≡ some run)
    (going : is_terminal_run_status run.status ≡ false) (ended : HasEnded db.runs ref status) where
  set-HasEnded :
      (set : RunStatus) (detail : StatusDetail)
      → HasEnded (set_run_status db now (ref_of run) set detail).runs ref status
  set-HasEnded set detail =
      set_run_status-HasEnded db now run set detail ref status there going ended

  finish_or_pause-HasEnded :
      (steps : List StepRow)
      → HasEnded (finish_or_pause db now (ref_of run) steps).0.runs ref status
  unfolding finish_or_pause
  finish_or_pause-HasEnded steps = elim (Option-cases (find is_paused steps)) [
    | inr (s, paused) ↦
        rw (paused, finish_or_pause)
          (set-HasEnded RunStatus.waiting_confirmation (record no_detail {
            error_class = coalesce s.error_class (some ErrorClass.unknown_outcome);
            error_step_id = some s.node_id;
          }))
    | inl none_paused ↦ elim (List-cases (keep unfinished steps)) [
      | inl all_done ↦
          rw (none_paused, all_done, finish_or_pause) (set-HasEnded RunStatus.succeeded no_detail)
      | inr (s, more, rest) ↦ rw (none_paused, rest, finish_or_pause) ended
    ]
  ]

  finish_or_wait-HasEnded : HasEnded (finish_or_wait db now (ref_of run)).0.runs ref status
  unfolding finish_or_wait
  finish_or_wait-HasEnded =
      elim (Option-cases (find terminally_failed (list_steps db (ref_of run)))) [
        | inr (s, broken) ↦
            rw (broken, finish_or_wait)
              (set-HasEnded RunStatus.failed (record {
                error_class = coalesce s.error_class (some ErrorClass.internal);
                error_code = s.error_code;
                error_step_id = some s.node_id;
                cancelled_at_step_id = none;
              }))
        | inl sound ↦
            rw (sound, finish_or_wait) (finish_or_pause-HasEnded (list_steps db (ref_of run)))
      ]

  dispatch-HasEnded : (s : StepRow) → HasEnded (dispatch db now run s).0.runs ref status
  unfolding dispatch enqueue
  dispatch-HasEnded s = elim (Bool-cases (is_queued run.status)) [
    | inl queued ↦ rw (queued, dispatch) (set-HasEnded RunStatus.running no_detail)
    | inr started ↦ rw (started, dispatch) ended
  ]

  advance-HasEnded : HasEnded (advance db now node_now run).0.runs ref status
  unfolding advance
  advance-HasEnded = elim (Option-cases run.cancel_requested_at) [
    | inr (t, asked) ↦
        rw (going, asked, advance)
          (set-HasEnded RunStatus.cancelled (record no_detail {
            cancelled_at_step_id = node_id_of (next_runnable_step db now (ref_of run));
          }))
    | inl unasked ↦ elim (Bool-cases (past run.deadline_at node_now)) [
      | inl late ↦
          rw (going, unasked, late, advance)
            (set-HasEnded RunStatus.timed_out
              (record no_detail { error_class = some ErrorClass.timeout }))
      | inr in_time ↦ elim (Option-cases (next_runnable_step db now (ref_of run))) [
        | inl nothing ↦ rw (going, unasked, in_time, nothing, advance) finish_or_wait-HasEnded
        | inr (s, ready) ↦ rw (going, unasked, in_time, ready, advance) (dispatch-HasEnded s)
      ]
    ]
  ]

pub advance_run-HasEnded :
    (before db : Db) (now node_now : ℕ) (other ref : RunRef) (status : RunStatus)
    → get_run before other ≡ get_run db other
    → HasEnded db.runs ref status
    → HasEnded (advance_run before db now node_now other).0.runs ref status
unfolding advance_run get_run
advance_run-HasEnded before db now node_now other ref status current h =
    elim (Option-cases (find (run_is other) db.runs)) [
      | inl missing ↦ rw (current, missing, advance_run) h
      | inr (run, hit) ↦ elim (Bool-cases (is_terminal_run_status run.status)) [
        | inl over ↦ rw (current, hit, advance_run, over, advance) h
        | inr going ↦
            let same : other ≡ ref_of run = sym (find-key other db.runs run hit) in
            rw (current, hit, advance_run)
              (advance-HasEnded db now node_now run ref status (rw (sym same) hit) going h)
      ]
    ]

pub request_cancel-HasEnded :
    (db : Db) (now : ℕ) (other ref : RunRef) (status : RunStatus)
    → HasEnded db.runs ref status
    → HasEnded (request_cancel db now other).0.runs ref status
unfolding request_cancel
request_cancel-HasEnded db now other ref status h =
    update-HasEnded ref status _ _ db.runs (λ x. refl) (λ x hit over meant. refl) h
