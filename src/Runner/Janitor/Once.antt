-- ===== src/Runner/Janitor/Once.antt =====
-- How many messages a sweep sends (engine/janitor.ts, `sweep`).
use automa_build.Prelude.{
  ℕ, ◌+◌, ◌≡◌, true, ap, Bool, false, ◌&&◌, ◌||◌, not, Option, none, some, List, [], ◌∷◌, ◌++◌,
  arith, any, count, ◌==◌, if◌then◌else◌, get_or,
}
use automa_build.Runner.Types.{OutboxRow, OutboxTopic, Db}
use automa_build.Runner.Repository.Outbox.{enqueue}
use automa_build.Runner.Janitor.{
  Candidate, is_scheduled, noted, schedule_one, schedule_all, sweep, expired_leases_of,
  overdue_runs_of, stranded_runs_of,
}

abbrev pub is_advance : OutboxTopic → Bool
is_advance OutboxTopic.advance_run = true
is_advance OutboxTopic.run_step = false

-- a message to advance the run
abbrev pub about : ℕ → OutboxRow → Bool
about run_id o = is_advance o.topic && o.payload.run.run_id == run_id

abbrev pub is_for : ℕ → Candidate → Bool
is_for run_id c = c.run.run_id == run_id

abbrev pub one_if : Bool → ℕ
one_if b = if b then 1 else 0

count-append :
    (test : OutboxRow → Bool) (xs : List OutboxRow) (o : OutboxRow)
    → count test (xs ++ o ∷ []) ≡ count test xs + one_if (test o)
count-append test [] o = ground arith
count-append test (x ∷ xs) o = ground (arith, count-append test xs o)

same_scheduled :
    (scheduled : List ℕ) (run_id other : ℕ)
    → other ≡ run_id
    → is_scheduled scheduled other ≡ is_scheduled scheduled run_id
same_scheduled scheduled run_id other e = ap (is_scheduled scheduled) e

schedule_one-count :
    (db : Db) (now : ℕ) (scheduled : List ℕ) (c : Candidate) (run_id : ℕ)
    → count (about run_id) (schedule_one db now scheduled c).outbox
      ≡ count (about run_id) db.outbox
        + one_if (is_for run_id c && not (is_scheduled scheduled run_id))
unfolding schedule_one enqueue
schedule_one-count db now scheduled c run_id = ground (
  arith,
  count-append (about run_id) db.outbox (record {
    id = db.next_id;
    topic = OutboxTopic.advance_run;
    payload = record { run = c.run; step_id = none; tenant_id = none };
    tenant_id = some c.tenant_id;
    available_at = now + 0;
    attempts = 0;
  }),
  same_scheduled scheduled run_id c.run.run_id,
)

schedule_all-count :
    (db : Db) (now : ℕ) (scheduled : List ℕ) (cs : List Candidate) (run_id : ℕ)
    → (count (about run_id) (schedule_all db now scheduled cs).0.outbox
        ≡ count (about run_id) db.outbox
          + one_if (any (is_for run_id) cs && not (is_scheduled scheduled run_id)))
      × (is_scheduled (schedule_all db now scheduled cs).1 run_id
          ≡ (is_scheduled scheduled run_id || any (is_for run_id) cs))
unfolding schedule_all
schedule_all-count db now scheduled [] run_id = (ground arith, ground arith)
schedule_all-count db now scheduled (c ∷ cs) run_id =
    let rest =
      schedule_all-count (schedule_one db now scheduled c) now (noted scheduled c) cs run_id in
    let one = schedule_one-count db now scheduled c run_id in
    (ground (arith, rest, one), ground (arith, rest, one))

three_counts :
    (a b c : Bool) (n n1 n2 n3 : ℕ) (s1 s2 s3 : Bool)
    → (n1 ≡ n + one_if (a && not false)) × (s1 ≡ (false || a))
    → (n2 ≡ n1 + one_if (b && not s1)) × (s2 ≡ (s1 || b))
    → (n3 ≡ n2 + one_if (c && not s2)) × (s3 ≡ (s2 || c))
    → n3 ≡ n + one_if (a || (b || c))
three_counts a b c n n1 n2 n3 s1 s2 s3 h k l = ground arith

-- one message more about a run that is in one of the three answers
pub sweep-count :
    (db : Db) (now : ℕ) (tenant limit : Option ℕ) (run_id : ℕ)
    → count (about run_id) (sweep db now tenant limit).0.outbox
      ≡ count (about run_id) db.outbox
        + one_if (
            any (is_for run_id) (expired_leases_of db now tenant (get_or limit 100))
            || (any (is_for run_id) (overdue_runs_of db now tenant (get_or limit 100))
                || any (is_for run_id) (stranded_runs_of db now tenant (get_or limit 100))))
unfolding sweep expired_leases_of overdue_runs_of stranded_runs_of
sweep-count db now tenant limit run_id =
    let expired = expired_leases_of db now tenant (get_or limit 100) in
    let overdue = overdue_runs_of db now tenant (get_or limit 100) in
    let stranded = stranded_runs_of db now tenant (get_or limit 100) in
    let first = schedule_all db now [] expired in
    let second = schedule_all first.0 now first.1 overdue in
    three_counts (any (is_for run_id) expired) (any (is_for run_id) overdue)
      (any (is_for run_id) stranded) _ _ _ _ _ _ _ (schedule_all-count db now [] expired run_id)
      (schedule_all-count first.0 now first.1 overdue run_id)
      (schedule_all-count second.0 now second.1 stranded run_id)
