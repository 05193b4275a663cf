-- ===== src/Runner/Soundness/Quiet.antt =====
-- The transactions that leave the step rows alone.
use automa_build.Prelude.{
  ℕ, ◌≤◌, ◌≡◌, refl, ◌∙◌, Bool, true, false, Option, none, some, List, [], ◌∷◌, arith, All, get_or,
  if◌then◌else◌,
}
use automa_build.Runner.Types.{RunRef, Db, OutboxTopic, Payload}
use automa_build.Runner.Repository.Outbox.{enqueue}
use automa_build.Runner.Orchestrator.{advance_run}
use automa_build.Runner.Janitor.{
  is_scheduled, noted, schedule_one, Candidate, sweep, schedule_all, expired_leases_of,
  overdue_runs_of, stranded_runs_of,
}
use automa_build.Runner.Soundness.Rows.{IsSound}
use automa_build.Runner.Soundness.Moves.{Moves, Moves-same}

-- A transaction that leaves the steps alone and takes its ids from the counter.
pub record Quiet (db db' : Db) : Type 0 where
  pub steps : db'.steps ≡ db.steps
  pub ids : db.next_id ≤ db'.next_id

pub Quiet-Moves : {db db' : Db} → Quiet db db' → All IsSound db.steps → Moves db db'
Quiet-Moves q h = Moves-same q.steps q.ids h

pub Quiet-refl : {db : Db} → Quiet db db
Quiet-refl = record { steps = refl; ids = omega arith }

pub Quiet-trans : {a b c : Db} → Quiet a b → Quiet b c → Quiet a c
Quiet-trans h k = record { steps = k.steps ∙ h.steps; ids = omega (arith, h.ids, k.ids) }

Quiet-if : (b : Bool) {a x y : Db} → Quiet a x → Quiet a y → Quiet a (if b then x else y)
Quiet-if true h k = h
Quiet-if false h k = k

pub enqueue-Quiet :
    (db : Db) (now : ℕ) (topic : OutboxTopic) (payload : Payload) (tenant delay : Option ℕ)
    → Quiet db (enqueue db now topic payload tenant delay)
unfolding enqueue
enqueue-Quiet db now topic payload tenant delay = record { steps = refl; ids = omega arith }

pub advance_run-Quiet :
    (before db : Db) (now node_now : ℕ) (ref : RunRef)
    → Quiet db (advance_run before db now node_now ref).0
unfolding advance_run
advance_run-Quiet before db now node_now ref = record { steps = ground arith; ids = ground arith }

schedule_one-Quiet :
    (db : Db) (now : ℕ) (scheduled : List ℕ) (c : Candidate)
    → Quiet db (schedule_one db now scheduled c)
unfolding schedule_one
schedule_one-Quiet db now scheduled c = Quiet-if (is_scheduled scheduled c.run.run_id) Quiet-refl (
    enqueue-Quiet db now OutboxTopic.advance_run
      (record { run = c.run; step_id = none; tenant_id = none }) (some c.tenant_id) none)

schedule_all-Quiet :
    (db : Db) (now : ℕ) (scheduled : List ℕ) (cs : List Candidate)
    → Quiet db (schedule_all db now scheduled cs).0
unfolding schedule_all
schedule_all-Quiet db now scheduled [] = Quiet-refl
schedule_all-Quiet db now scheduled (c ∷ cs) =
    Quiet-trans (schedule_one-Quiet db now scheduled c)
      (schedule_all-Quiet (schedule_one db now scheduled c) now (noted scheduled c) cs)

pub sweep-Quiet :
    (db : Db) (now : ℕ) (tenant limit : Option ℕ) → Quiet db (sweep db now tenant limit).0
unfolding sweep expired_leases_of overdue_runs_of stranded_runs_of
sweep-Quiet db now tenant limit =
    let expired = schedule_all db now [] (expired_leases_of db now tenant (get_or limit 100)) in
    let overdue = overdue_runs_of db now tenant (get_or limit 100) in
    let stranded = stranded_runs_of db now tenant (get_or limit 100) in
    let both = schedule_all expired.0 now expired.1 overdue in
    Quiet-trans (schedule_all-Quiet db now [] (expired_leases_of db now tenant (get_or limit 100)))
      (Quiet-trans (schedule_all-Quiet expired.0 now expired.1 overdue)
        (schedule_all-Quiet both.0 now both.1 stranded))
