-- ===== src/Runner/Orchestrator/Outcome.antt =====
-- What `advanceRun` answers, and what it leaves in the database.
use automa_build.Prelude.{
  ℕ, ◌≡◌, ◌⊎◌, refl, true, none, some, List, [], ◌∷◌, ◌++◌, arith, find, keep, coalesce, sym,
  Bool-cases, Option-cases, inl, inr,
}
use automa_build.Runner.ErrorClasses.{ErrorClass}
use automa_build.Runner.Types.{
  RunStatus, RunRef, RunRow, StepRow, Db, OutboxRow, OutboxTopic, is_terminal_run_status,
}
use automa_build.Runner.Repository.Rows.{update_where, run_is, ref_of}
use automa_build.Runner.Repository.Runs.{get_run, set_run_status, StatusDetail, no_detail}
use automa_build.Runner.Repository.Steps.{list_steps, next_runnable_step}
use automa_build.Runner.Repository.Outbox.{enqueue}
use automa_build.Runner.Orchestrator.{
  node_id_of, is_queued, advance, past, dispatch, finish_or_wait, finish_or_pause, is_paused,
  unfinished, terminally_failed, AdvanceOutcome, dispatched, waiting, finished, gone,
  awaiting_confirmation, not_yet_due, advance_run,
}

-- The row of the run after `setRunStatus` has the status that was set.
find-update :
    (ref key : RunRef) (f : RunRow → RunRow) (runs : List RunRow) (r : RunRow)
    → ref ≡ key
    → ((x : RunRow) → run_is ref (f x) ≡ run_is ref x)
    → find (run_is ref) runs ≡ some r
    → find (run_is ref) (update_where (run_is key) f runs) ≡ some (f r)
find-update ref key f [] r e k h = absurd (ground arith)
find-update ref key f (x ∷ xs) r e k h = ground (arith, find-update ref key f xs r e k, k x)

pub find-ref :
    (ref : RunRef) (runs : List RunRow) (r : RunRow)
    → find (run_is ref) runs ≡ some r
    → ref_of r ≡ ref
find-ref ref [] r h = absurd (ground arith)
find-ref ref (x ∷ xs) r h = ground (arith, find-ref ref xs r)

pub set_run_status-status :
    (db : Db) (now : ℕ) (ref key : RunRef) (status : RunStatus) (detail : StatusDetail) (r : RunRow)
    → ref ≡ key
    → get_run db ref ≡ some r
    → (r' : RunRow) × (get_run (set_run_status db now key status detail) ref ≡ some r')
      × (r'.status ≡ status)
unfolding set_run_status get_run
set_run_status-status db now ref key status detail r e h =
    (_, find-update ref key _ db.runs r e (λ x. refl) h, refl)

set_run_status-outbox :
    (db : Db) (now : ℕ) (key : RunRef) (status : RunStatus) (detail : StatusDetail)
    → (set_run_status db now key status detail).outbox ≡ db.outbox
unfolding set_run_status
set_run_status-outbox db now key status detail = refl

pub List-cases :
    (xs : List StepRow) → (xs ≡ []) ⊎ ((x : StepRow) × (ys : List StepRow) × (xs ≡ x ∷ ys))
List-cases [] = inl refl
List-cases (x ∷ xs) = inr (x, xs, refl)

-- What each answer says of the run and the outbox afterwards.
abbrev pub Agrees : Db → Db → RunRef → AdvanceOutcome → Type 0
Agrees db db' ref gone = (get_run db ref ≡ none) × (db' ≡ db)
Agrees db db' ref (finished status) =
    (is_terminal_run_status status ≡ true)
    × (db'.outbox ≡ db.outbox)
    × ((r : RunRow) × (get_run db' ref ≡ some r) × (r.status ≡ status))
Agrees db db' ref (waiting awaiting_confirmation) =
    (db'.outbox ≡ db.outbox)
    × ((r : RunRow) × (get_run db' ref ≡ some r) × (r.status ≡ RunStatus.waiting_confirmation))
Agrees db db' ref (waiting (not_yet_due n)) = db' ≡ db
Agrees db db' ref (dispatched step_id node_id) =
    (o : OutboxRow) × (db'.outbox ≡ db.outbox ++ o ∷ [])
    × (o.topic ≡ OutboxTopic.run_step)
    × (o.payload.run ≡ ref)
    × (o.payload.step_id ≡ some step_id)

module _ (db : Db) (now node_now : ℕ) (ref : RunRef) (run : RunRow)
    (hit : get_run db ref ≡ some run) where
  same_ref : ref ≡ ref_of run
  unfolding get_run
  same_ref = sym (find-ref ref db.runs run hit)

  settled :
      (status : RunStatus) (detail : StatusDetail)
      → is_terminal_run_status status ≡ true
      → Agrees db (set_run_status db now (ref_of run) status detail) ref (finished status)
  unfolding set_run_status
  settled status detail t =
      (t, refl, set_run_status-status db now ref (ref_of run) status detail run same_ref hit)

  finish_or_pause-Agrees :
      (steps : List StepRow)
      → Agrees db
          (finish_or_pause db now (ref_of run) steps).0
          ref
          (finish_or_pause db now (ref_of run) steps).1
  unfolding finish_or_pause
  finish_or_pause-Agrees steps = elim (Option-cases (find is_paused steps)) [
    | inr (s, paused) ↦
        let detail = record no_detail {
          error_class = coalesce s.error_class (some ErrorClass.unknown_outcome);
          error_step_id = some s.node_id;
        } in
        rw (paused, finish_or_pause)
          (
            set_run_status-outbox db now (ref_of run) RunStatus.waiting_confirmation detail,
            set_run_status-status db now ref (ref_of run) RunStatus.waiting_confirmation detail run
                same_ref hit,
          )
    | inl none_paused ↦ elim (List-cases (keep unfinished steps)) [
      | inl all_done ↦
          rw (none_paused, all_done, finish_or_pause) (settled RunStatus.succeeded no_detail refl)
      | inr (s, more, rest) ↦ rw (none_paused, rest, finish_or_pause) refl
    ]
  ]

  finish_or_wait-Agrees :
      Agrees db (finish_or_wait db now (ref_of run)).0 ref (finish_or_wait db now (ref_of run)).1
  unfolding finish_or_wait
  finish_or_wait-Agrees =
      elim (Option-cases (find terminally_failed (list_steps db (ref_of run)))) [
        | inr (s, broken) ↦
            rw (broken, finish_or_wait)
              (settled RunStatus.failed
                (record {
                  error_class = coalesce s.error_class (some ErrorClass.internal);
                  error_code = s.error_code;
                  error_step_id = some s.node_id;
                  cancelled_at_step_id = none;
                })
                refl)
        | inl sound ↦
            rw (sound, finish_or_wait) (finish_or_pause-Agrees (list_steps db (ref_of run)))
      ]

  dispatch-Agrees :
      (step : StepRow) → Agrees db (dispatch db now run step).0 ref (dispatch db now run step).1
  unfolding dispatch enqueue set_run_status
  dispatch-Agrees step = elim (Bool-cases (is_queued run.status)) [
    | inl queued ↦ rw (queued, dispatch) (_, refl, refl, sym same_ref, refl)
    | inr started ↦ rw (started, dispatch) (_, refl, refl, sym same_ref, refl)
  ]

  advance-Agrees : Agrees db (advance db now node_now run).0 ref (advance db now node_now run).1
  unfolding advance
  advance-Agrees = elim (Bool-cases (is_terminal_run_status run.status)) [
    | inl over ↦ rw (over, advance) (over, refl, (run, hit, refl))
    | inr open_run ↦ elim (Option-cases run.cancel_requested_at) [
      | inr (t, asked) ↦
          rw (open_run, asked, advance)
            (settled RunStatus.cancelled
              (record no_detail {
                cancelled_at_step_id = node_id_of (next_runnable_step db now (ref_of run));
              })
              refl)
      | inl unasked ↦ elim (Bool-cases (past run.deadline_at node_now)) [
        | inl late ↦
            rw (open_run, unasked, late, advance)
              (settled RunStatus.timed_out
                (record no_detail { error_class = some ErrorClass.timeout }) refl)
        | inr in_time ↦ elim (Option-cases (next_runnable_step db now (ref_of run))) [
          | inl nothing ↦ rw (open_run, unasked, in_time, nothing, advance) finish_or_wait-Agrees
          | inr (s, ready) ↦ rw (open_run, unasked, in_time, ready, advance) (dispatch-Agrees s)
        ]
      ]
    ]
  ]

-- Where the row of the run is still as advanceRun read it, its answer is true of the database that
-- it leaves: a finished run has the final status that is answered, a pause is recorded on the run,
-- a dispatched step has its message at the end of the outbox, and where it only waits or the run
-- is gone nothing has changed.
pub advance_run-Agrees :
    (before db : Db) (now node_now : ℕ) (ref : RunRef)
    → get_run before ref ≡ get_run db ref
    → Agrees db
        (advance_run before db now node_now ref).0
        ref
        (advance_run before db now node_now ref).1
unfolding advance_run
advance_run-Agrees before db now node_now ref current = elim (Option-cases (get_run db ref)) [
  | inl missing ↦ rw (current, missing, advance_run) (missing, refl)
  | inr (run, hit) ↦ rw (current, hit, advance_run) (advance-Agrees db now node_now ref run hit)
]
