-- ===== src/Runner/Resume/Once.antt =====
-- Replays of the same dead letter (resume.ts, `replayDlqEntry`).
use Prim.Native.String.{String}
use automa_build.Prelude.{
  ℕ, ◌+◌, ◌≡◌, ◌∙◌, refl, ap, subst, Option, some, List, [], ◌∷◌, arith, find, ltb, ◌==◌, str_eq,
  Option-cases, Bool-cases, inl, inr,
}
use automa_build.Runner.Types.{RunRef, RunRow, StepRow, DlqRow, Db}
use automa_build.Runner.Repository.Rows.{update_where, ref_of}
use automa_build.Runner.Repository.Outbox.{enqueue}
use automa_build.Runner.Repository.Runs.{StepKey, get_run}
use automa_build.Runner.Repository.Steps.{list_steps}
use automa_build.Runner.Resume.{
  Split, Result, ok, err, already_replayed, ResumeResult, is_stopped, reopen, mark_resumed,
  reset_step, split_step, split_steps, zero_counts, resume_from, resume_run, replay_dlq_entry,
  stamp,
}

split_step-dlq :
    (step_key : StepKey) (db : Db) (target group : ℕ) (s : StepRow) (db' : Db)
    → split_step step_key db target group s ≡ some db'
    → db'.dlq ≡ db.dlq
unfolding split_step reset_step mark_resumed
split_step-dlq step_key db target group s db' e = elim (Bool-cases (ltb s.topo_order target)) [
  | inl before ↦ ground arith
  | inr after ↦ elim (Option-cases (step_key s.run_id s.node_id s.iteration_index group)) [
    | inl bad ↦ absurd (ground arith)
    | inr (key, good) ↦ ground arith
  ]
]

split_steps-dlq :
    (step_key : StepKey) (db : Db) (target group : ℕ) (ss : List StepRow) (p : Split)
    → split_steps step_key db target group ss ≡ some p
    → p.db.dlq ≡ db.dlq
unfolding split_steps
split_steps-dlq step_key db target group [] p e = ground arith
split_steps-dlq step_key db target group (s ∷ ss) p e =
    elim (Option-cases (split_step step_key db target group s)) [
      | inl bad ↦ absurd (ground arith)
      | inr (next, first) ↦ elim (Option-cases (split_steps step_key next target group ss)) [
        | inl bad ↦ absurd (ground arith)
        | inr (q, rest) ↦
            let one = split_step-dlq step_key db target group s next first in
            let more = split_steps-dlq step_key next target group ss q rest in
            let same : p.db.dlq ≡ q.db.dlq = ground arith in same ∙ (more ∙ one)
      ]
    ]

resume_from-dlq :
    (step_key : StepKey) (db : Db) (now : ℕ) (run : RunRow) (steps : List StepRow)
    (target : StepRow) (db' : Db) (result : ResumeResult)
    → resume_from step_key db now run steps target ≡ ok (db', result)
    → db'.dlq ≡ db.dlq
unfolding resume_from zero_counts enqueue reopen
resume_from-dlq step_key db now run steps target db' result e =
    elim (Option-cases (
      split_steps step_key (reopen db run (run.attempt_group + 1)) target.topo_order
        (run.attempt_group + 1) steps)) [
          | inl bad ↦ absurd (ground arith)
          | inr (p, split) ↦
              let same : db'.dlq ≡ p.db.dlq = ground arith in
              same
              ∙ split_steps-dlq step_key (reopen db run (run.attempt_group + 1)) target.topo_order
                  (run.attempt_group + 1) steps p split
        ]

resume_run-dlq :
    (step_key : StepKey) (db : Db) (now : ℕ) (ref : RunRef) (node : String) (db' : Db)
    (result : ResumeResult)
    → resume_run step_key db now ref node ≡ ok (db', result)
    → db'.dlq ≡ db.dlq
unfolding resume_run
resume_run-dlq step_key db now ref node db' result e = elim (Option-cases (get_run db ref)) [
  | inl missing ↦ absurd (ground arith)
  | inr (run, hit) ↦ elim (Bool-cases (is_stopped run.status)) [
    | inr live ↦ absurd (ground arith)
    | inl stopped ↦
        elim (Option-cases
          (find (λ (s : StepRow). str_eq s.node_id node) (list_steps db (ref_of run)))) [
            | inl nowhere ↦ absurd (ground arith)
            | inr (target, there) ↦
                resume_from-dlq step_key db now run (list_steps db (ref_of run)) target db' result
                  (ground arith)
          ]
  ]
]

find-stamped :
    (id : ℕ) (f : DlqRow → DlqRow) (rows : List DlqRow) (d : DlqRow)
    → ((x : DlqRow) → (f x).id ≡ x.id)
    → find (λ (x : DlqRow). x.id == id) rows ≡ some d
    → find (λ (x : DlqRow). x.id == id) (update_where (λ (x : DlqRow). x.id == id) f rows)
      ≡ some (f d)
find-stamped id f [] d k h = absurd (ground arith)
find-stamped id f (x ∷ xs) d k h = ground (arith, find-stamped id f xs d k, k x)

-- an entry that says when it was replayed
abbrev IsReplayed : Db → ℕ → Type 0
IsReplayed db id =
    (d : DlqRow) × (t : ℕ) × (find (λ (x : DlqRow). x.id == id) db.dlq ≡ some d)
    × (d.replayed_at ≡ some t)

stamp-IsReplayed :
    (db : Db) (now id : ℕ) (by : Option String) (d : DlqRow)
    → find (λ (x : DlqRow). x.id == id) db.dlq ≡ some d
    → IsReplayed (stamp now id by db) id
unfolding stamp
stamp-IsReplayed db now id by d h = (_, now, find-stamped id _ db.dlq d (λ x. refl) h, refl)

-- what a replay does with the answer of `resumeRun`
abbrev stamped : ℕ → ℕ → Option String → Result (Db × ResumeResult) → Result (Db × ResumeResult)
stamped now id by (err x) = err x
stamped now id by (ok (d, r)) = ok (stamp now id by d, r)

stamped-IsReplayed :
    (db : Db) (now id : ℕ) (by : Option String) (x : Result (Db × ResumeResult)) (entry : DlqRow)
    (db' : Db) (result : ResumeResult)
    → find (λ (d : DlqRow). d.id == id) db.dlq ≡ some entry
    → ((d : Db) (r : ResumeResult) → x ≡ ok (d, r) → d.dlq ≡ db.dlq)
    → stamped now id by x ≡ ok (db', result)
    → IsReplayed db' id
stamped-IsReplayed db now id by (err x) entry db' result h k e = absurd (ground arith)
stamped-IsReplayed db now id by (ok (d, r)) entry db' result h k e =
    let same : stamp now id by d ≡ db' = ground arith in
    subst (λ z. IsReplayed z id) same
      (stamp-IsReplayed d now id by entry (ap (find (λ (x : DlqRow). x.id == id)) (k d r refl) ∙ h))

replay_dlq_entry-IsReplayed :
    (step_key : StepKey) (db : Db) (now id : ℕ) (by : Option String) (db' : Db)
    (result : ResumeResult)
    → replay_dlq_entry step_key db now id by ≡ ok (db', result)
    → IsReplayed db' id
unfolding replay_dlq_entry
replay_dlq_entry-IsReplayed step_key db now id by db' result e =
    elim (Option-cases (find (λ (d : DlqRow). d.id == id) db.dlq)) [
      | inl missing ↦ absurd (ground arith)
      | inr (entry, hit) ↦ elim (Option-cases entry.replayed_at) [
        | inr (t, again) ↦ absurd (ground arith)
        | inl once ↦
            stamped-IsReplayed db now id by (resume_run step_key db now entry.run entry.node_id)
              entry db' result hit
              (λ d r. resume_run-dlq step_key db now entry.run entry.node_id d r) (ground arith)
      ]
    ]

-- Once a dead letter has been replayed, every later replay of it is refused as already replayed, by
-- whomever and whatever else has happened to the database, as long as the dead letters are as the
-- replay left them.
pub replay_dlq_entry-once :
    (step_key : StepKey) (db : Db) (now id : ℕ) (by : Option String) (db' : Db)
    (result : ResumeResult) (later : Db) (later_now : ℕ) (later_by : Option String)
    → replay_dlq_entry step_key db now id by ≡ ok (db', result)
    → later.dlq ≡ db'.dlq
    → replay_dlq_entry step_key later later_now id later_by ≡ err already_replayed
unfolding replay_dlq_entry
replay_dlq_entry-once step_key db now id by db' result later later_now later_by e same =
    let r = replay_dlq_entry-IsReplayed step_key db now id by db' result e in
    refused_again r.0 r.1 (ap (find (λ (x : DlqRow). x.id == id)) same ∙ r.2) r.3
  where
    refused_again :
        (d : DlqRow) (t : ℕ)
        → find (λ (x : DlqRow). x.id == id) later.dlq ≡ some d
        → d.replayed_at ≡ some t
        → replay_dlq_entry step_key later later_now id later_by ≡ err already_replayed
    refused_again d t hit at = rw (hit, replay_dlq_entry, at) refl
