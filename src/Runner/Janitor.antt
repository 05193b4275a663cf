-- ===== src/Runner/Janitor.antt =====
-- packages/automa-durable-runner/src/engine/janitor.ts, `sweep`
-- A query with LIMIT and no ORDER BY takes the first rows of the table. `partitionHealth` and
-- `assertPartitionHeadroom` are not modelled: they read the catalogue of pg_partman.
pub mod Once
pub mod Rescue
use automa_build.Prelude.{
  ℕ, Bool, true, false, ◌&&◌, ◌||◌, not, Option, none, some, List, [], ◌∷◌, map, leb, ◌==◌,
  if◌then◌else◌, keep, any, length, get_or,
}
use automa_build.Runner.Types.{RunStatus, RunRef, RunRow, StepRow, OutboxRow, Db, advance_run}
use automa_build.Runner.Repository.Rows.{is_running, lapsed, ref_of, step_of}
use automa_build.Runner.Repository.Outbox.{enqueue, take, in_scope}

pub record SweepReport : Type 0 where
  pub expired_leases : ℕ
  pub overdue_runs : ℕ
  pub stranded_runs : ℕ

-- a row of the three queries: the run, and its tenant
pub record Candidate : Type 0 where
  pub run : RunRef
  pub tenant_id : ℕ

abbrev same_candidate : Candidate → Candidate → Bool
same_candidate c d =
    c.run.run_id == d.run.run_id
    && (c.run.run_started_at == d.run.run_started_at && c.tenant_id == d.tenant_id)

-- SELECT DISTINCT
distinct : List Candidate → List Candidate
distinct [] = []
distinct (c ∷ cs) = c ∷ keep (λ d. not (same_candidate c d)) (distinct cs)

abbrev run_of : StepRow → Candidate
run_of s = record {
  run = record { run_id = s.run_id; run_started_at = s.run_started_at };
  tenant_id = s.tenant_id;
}

abbrev pub candidate : RunRow → Candidate
candidate r = record { run = ref_of r; tenant_id = r.tenant_id }

abbrev pub is_active : RunStatus → Bool
is_active RunStatus.queued = true
is_active RunStatus.running = true
is_active _ = false

unfoldable pub expired_leases_of : Db → ℕ → Option ℕ → ℕ → List Candidate
unfolding distinct
expired_leases_of db now tenant limit = take limit (
    distinct (
      map run_of (
        keep
          (λ (s : StepRow).
            is_running s.status
            && (lapsed s.lease_expires_at now && in_scope tenant (some s.tenant_id)))
          db.steps)))

unfoldable pub overdue_runs_of : Db → ℕ → Option ℕ → ℕ → List Candidate
overdue_runs_of db now tenant limit = take limit (
    map candidate (
      keep
        (λ (r : RunRow).
          is_active r.status && (lapsed r.deadline_at now && in_scope tenant (some r.tenant_id)))
        db.runs))

-- `t IS NOT NULL AND t >= now()`
abbrev pub held_at : Option ℕ → ℕ → Bool
held_at none now = false
held_at (some t) now = leb now t

-- a run that no message mentions and none of whose steps is under a live lease
unfoldable pub is_stranded : Db → ℕ → RunRow → Bool
is_stranded db now r =
    is_active r.status
    && (not (any (λ (o : OutboxRow). o.payload.run.run_id == r.id) db.outbox)
        && not (
            any
              (λ (s : StepRow).
                step_of (ref_of r) s && (is_running s.status && held_at s.lease_expires_at now))
              db.steps))

unfoldable pub stranded_runs_of : Db → ℕ → Option ℕ → ℕ → List Candidate
unfolding is_stranded
stranded_runs_of db now tenant limit = take limit (
    map candidate
      (keep (λ (r : RunRow). is_stranded db now r && in_scope tenant (some r.tenant_id)) db.runs))

abbrev pub is_scheduled : List ℕ → ℕ → Bool
is_scheduled [] id = false
is_scheduled (i ∷ is) id = i == id || is_scheduled is id

-- `schedule`: a run gets one message in a sweep
unfoldable pub schedule_one : Db → ℕ → List ℕ → Candidate → Db
unfolding enqueue
schedule_one db now scheduled c =
    if is_scheduled scheduled c.run.run_id
    then db
    else enqueue db now advance_run (record { run = c.run; step_id = none; tenant_id = none })
        (some c.tenant_id) none

abbrev pub noted : List ℕ → Candidate → List ℕ
noted scheduled c =
    if is_scheduled scheduled c.run.run_id then scheduled else c.run.run_id ∷ scheduled

-- the loops at the end: `scheduled` holds the runs that have their message already
unfoldable pub schedule_all : Db → ℕ → List ℕ → List Candidate → Db × List ℕ
unfolding schedule_one
schedule_all db now scheduled [] = (db, scheduled)
schedule_all db now scheduled (c ∷ cs) =
    schedule_all (schedule_one db now scheduled c) now (noted scheduled c) cs

unfoldable pub sweep : Db → ℕ → Option ℕ → Option ℕ → Db × SweepReport
unfolding schedule_all expired_leases_of overdue_runs_of stranded_runs_of
sweep db now tenant limit =
    let expired = expired_leases_of db now tenant (get_or limit 100) in
    let overdue = overdue_runs_of db now tenant (get_or limit 100) in
    let stranded = stranded_runs_of db now tenant (get_or limit 100) in
    let (db1, s1) = schedule_all db now [] expired in
    let (db2, s2) = schedule_all db1 now s1 overdue in
    let (db3, s3) = schedule_all db2 now s2 stranded in
    (
      db3,
      record {
        expired_leases = length expired;
        overdue_runs = length overdue;
        stranded_runs = length stranded;
      },
    )
