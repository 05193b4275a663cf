-- ===== src/Runner/Soundness/Restart.antt =====
-- What resuming a run and replaying a dead letter do to step rows.
use Prim.Native.String.{String}
use automa_build.Prelude.{
  ℕ, ◌+◌, ◌≡◌, refl, subst, Option, none, some, List, [], ◌∷◌, arith, All, ltb, Option-cases,
  Bool-cases, inl, inr, find, str_eq, ◌==◌,
}
use automa_build.Runner.Types.{RunRef, RunRow, StepRow, DlqRow, Db, advance_run}
use automa_build.Runner.Repository.Rows.{update_where, ref_of, step_is}
use automa_build.Runner.Repository.Runs.{StepKey, get_run}
use automa_build.Runner.Repository.Outbox.{enqueue}
use automa_build.Runner.Repository.Steps.{list_steps}
use automa_build.Runner.Resume.{
  is_stopped, Split, Result, ok, err, ResumeResult, reopen, mark_resumed, reset_step, split_step,
  split_steps, zero_counts, resume_from, resume_run, replay_dlq_entry, stamp, preserve, renew,
}
use automa_build.Runner.Soundness.Rows.{IsSound, preserve-Keeps, renew-Keeps}
use automa_build.Runner.Soundness.Moves.{
  Evolves-update, Moves, Moves-same, Moves-trans, Moves-IsSound,
}
use automa_build.Runner.Soundness.Work.{any_row}

mark_resumed-Moves : (db : Db) (s : StepRow) → All IsSound db.steps → Moves db (mark_resumed db s)
unfolding mark_resumed
mark_resumed-Moves db s h = record {
  rows =
      Evolves-update (λ t. Unit {0}) (step_is s.run_started_at s.id) preserve db.steps
        (λ t _ _. preserve-Keeps t) h (any_row db.steps);
  ids = omega arith;
}

reset-Moves :
    (db : Db) (s : StepRow) (key : String)
    → All IsSound db.steps
    → Moves db
        (record db { steps = update_where (step_is s.run_started_at s.id) (renew key) db.steps })
reset-Moves db s key h = record {
  rows =
      Evolves-update (λ t. Unit {0}) (step_is s.run_started_at s.id) (renew key) db.steps
        (λ t _ _. renew-Keeps key t) h (any_row db.steps);
  ids = omega arith;
}

split_step-Moves :
    (step_key : StepKey) (db : Db) (target group : ℕ) (s : StepRow) (db' : Db)
    → All IsSound db.steps
    → split_step step_key db target group s ≡ some db'
    → Moves db db'
unfolding split_step reset_step
split_step-Moves step_key db target group s db' h e = elim (Bool-cases (ltb s.topo_order target)) [
  | inl before ↦ subst (λ d. Moves db d) (ground arith) (mark_resumed-Moves db s h)
  | inr after ↦ elim (Option-cases (step_key s.run_id s.node_id s.iteration_index group)) [
    | inl bad ↦ absurd (ground arith)
    | inr (key, good) ↦ subst (λ d. Moves db d) (ground arith) (reset-Moves db s key h)
  ]
]

split_steps-Moves :
    (step_key : StepKey) (db : Db) (target group : ℕ) (ss : List StepRow) (p : Split)
    → All IsSound db.steps
    → split_steps step_key db target group ss ≡ some p
    → Moves db p.db
unfolding split_steps
split_steps-Moves step_key db target group [] p h e =
    subst (λ d. Moves db d) (ground arith) (Moves-same {db = db} {db' = db} refl (omega arith) h)
split_steps-Moves step_key db target group (s ∷ ss) p h e =
    elim (Option-cases (split_step step_key db target group s)) [
      | inl bad ↦ absurd (ground arith)
      | inr (next, first) ↦
          let one = split_step-Moves step_key db target group s next h first in
          elim (Option-cases (split_steps step_key next target group ss)) [
            | inl bad ↦ absurd (ground arith)
            | inr (q, rest) ↦
                subst (λ d. Moves db d) (ground arith)
                  (Moves-trans one
                    (split_steps-Moves step_key next target group ss q (Moves-IsSound one) rest))
          ]
    ]

reopen-Moves :
    (d : Db) (run : RunRow) (group : ℕ) → All IsSound d.steps → Moves d (reopen d run group)
unfolding reopen
reopen-Moves d run group h = Moves-same refl (omega arith) h

restarted-Moves :
    (d : Db) (now : ℕ) (run : RunRow)
    → All IsSound d.steps
    → Moves d (
        enqueue
          (zero_counts d run)
          now
          advance_run
          (record { run = ref_of run; step_id = none; tenant_id = none })
          (some run.tenant_id)
          none)
unfolding zero_counts enqueue
restarted-Moves d now run h = Moves-same refl (omega arith) h

resume_from-Moves :
    (step_key : StepKey) (db : Db) (now : ℕ) (run : RunRow) (steps : List StepRow)
    (target : StepRow) (db' : Db) (result : ResumeResult)
    → All IsSound db.steps
    → resume_from step_key db now run steps target ≡ ok (db', result)
    → Moves db db'
unfolding resume_from
resume_from-Moves step_key db now run steps target db' result h e =
    let opened = reopen db run (run.attempt_group + 1) in
    let opened-Moves = reopen-Moves db run (run.attempt_group + 1) h in
    elim (Option-cases
      (split_steps step_key opened target.topo_order (run.attempt_group + 1) steps)) [
        | inl bad ↦ absurd (ground arith)
        | inr (p, split) ↦
            let moved =
              split_steps-Moves step_key opened target.topo_order (run.attempt_group + 1) steps p
                (Moves-IsSound opened-Moves) split in
            subst (λ d. Moves db d) (ground arith)
              (Moves-trans opened-Moves
                (Moves-trans moved (restarted-Moves p.db now run (Moves-IsSound moved))))
      ]

pub resume_run-Moves :
    (step_key : StepKey) (db : Db) (now : ℕ) (ref : RunRef) (node : String) (db' : Db)
    (result : ResumeResult)
    → All IsSound db.steps
    → resume_run step_key db now ref node ≡ ok (db', result)
    → Moves db db'
unfolding resume_run
resume_run-Moves step_key db now ref node db' result h e = elim (Option-cases (get_run db ref)) [
  | inl missing ↦ absurd (ground arith)
  | inr (run, hit) ↦ elim (Bool-cases (is_stopped run.status)) [
    | inr live ↦ absurd (ground arith)
    | inl stopped ↦
        elim (Option-cases
          (find (λ (s : StepRow). str_eq s.node_id node) (list_steps db (ref_of run)))) [
            | inl nowhere ↦ absurd (ground arith)
            | inr (target, there) ↦
                resume_from-Moves step_key db now run (list_steps db (ref_of run)) target db' result
                  h (ground arith)
          ]
  ]
]

stamp-Moves :
    (db d : Db) (now entry_id : ℕ) (by : Option String)
    → Moves db d
    → Moves db (stamp now entry_id by d)
unfolding stamp
stamp-Moves db d now entry_id by m = record { rows = m.rows; ids = m.ids }

-- what a replay does with the answer of `resumeRun`
abbrev stamped : ℕ → ℕ → Option String → Result (Db × ResumeResult) → Result (Db × ResumeResult)
stamped now entry_id by (err x) = err x
stamped now entry_id by (ok (d, r)) = ok (stamp now entry_id by d, r)

stamped-Moves :
    (db : Db) (now entry_id : ℕ) (by : Option String) (x : Result (Db × ResumeResult)) (db' : Db)
    (result : ResumeResult)
    → ((d : Db) (r : ResumeResult) → x ≡ ok (d, r) → Moves db d)
    → stamped now entry_id by x ≡ ok (db', result)
    → Moves db db'
stamped-Moves db now entry_id by (err x) db' result k e = absurd (ground arith)
stamped-Moves db now entry_id by (ok (d, r)) db' result k e =
    subst (λ z. Moves db z) (ground arith) (stamp-Moves db d now entry_id by (k d r refl))

pub replay_dlq_entry-Moves :
    (step_key : StepKey) (db : Db) (now entry_id : ℕ) (by : Option String) (db' : Db)
    (result : ResumeResult)
    → All IsSound db.steps
    → replay_dlq_entry step_key db now entry_id by ≡ ok (db', result)
    → Moves db db'
unfolding replay_dlq_entry
replay_dlq_entry-Moves step_key db now entry_id by db' result h e =
    elim (Option-cases (find (λ (d : DlqRow). d.id == entry_id) db.dlq)) [
      | inl missing ↦ absurd (ground arith)
      | inr (entry, hit) ↦ elim (Option-cases entry.replayed_at) [
        | inr (t, again) ↦ absurd (ground arith)
        | inl once ↦
            stamped-Moves db now entry_id by (resume_run step_key db now entry.run entry.node_id)
              db' result (λ d r. resume_run-Moves step_key db now entry.run entry.node_id d r h)
              (ground arith)
      ]
    ]
