-- ===== src/Runner/Janitor/Rescue.antt =====
-- A run that lost its message gets one from the sweep (engine/janitor.ts, `sweep`).
use automa_build.Prelude.{
  ℕ, zero, suc, ◌≤◌, ◌<◌, ◌≡◌, ◌≢◌, ◌⊎◌, inl, inr, refl, true, All, keep, map, length, Bool-cases,
  Option-cases, Bool, false, ◌&&◌, Option, none, some, List, [], ◌∷◌, arith, any, count, ◌==◌,
  get_or,
}
use automa_build.Runner.Types.{OutboxRow, Db, RunStatus, RunRow, StepStatus, StepRow}
use automa_build.Runner.Repository.Rows.{step_of, ref_of, is_running}
use automa_build.Runner.Repository.Outbox.{take, in_scope}
use automa_build.Runner.Janitor.Once.{about, is_for, sweep-count}
use automa_build.Runner.Janitor.{sweep, stranded_runs_of, is_stranded, candidate, held_at}

-- If the step is the run's and is running, its lease is over.
abbrev pub IsIdle : ℕ → RunRow → StepRow → Type 0
IsIdle now r s =
    s.run_started_at ≡ r.started_at
    → s.run_id ≡ r.id
    → s.status ≡ StepStatus.running
    → (t : ℕ) → s.lease_expires_at ≡ some t
    → t < now

-- The run goes on, but no message mentions it and no step of it is under a lease.
pub record IsLost (db : Db) (now : ℕ) (r : RunRow) : Type 0 where
  pub active : (r.status ≡ RunStatus.queued) ⊎ (r.status ≡ RunStatus.running)
  pub unmentioned : All (λ (o : OutboxRow). o.payload.run.run_id ≢ r.id) db.outbox
  pub idle : All (IsIdle now r) db.steps

abbrev Among : RunRow → List RunRow → Type 0
Among r [] = ⊥
Among r (x ∷ xs) = (x ≡ r) ⊎ Among r xs

count-unmentioned :
    (run_id : ℕ) (xs : List OutboxRow)
    → All (λ (o : OutboxRow). o.payload.run.run_id ≢ run_id) xs
    → count (about run_id) xs ≡ 0
count-unmentioned run_id [] h = refl
count-unmentioned run_id (x ∷ xs) h = ground (arith, h.0, count-unmentioned run_id xs h.1)

any-unmentioned :
    (run_id : ℕ) (xs : List OutboxRow)
    → All (λ (o : OutboxRow). o.payload.run.run_id ≢ run_id) xs
    → any (λ (o : OutboxRow). o.payload.run.run_id == run_id) xs ≡ false
any-unmentioned run_id [] h = refl
any-unmentioned run_id (x ∷ xs) h = ground (arith, h.0, any-unmentioned run_id xs h.1)

any-idle :
    (now : ℕ) (r : RunRow) (xs : List StepRow)
    → All (IsIdle now r) xs
    → any
        (λ (s : StepRow).
          step_of (ref_of r) s && (is_running s.status && held_at s.lease_expires_at now))
        xs
      ≡ false
any-idle now r [] h = refl
any-idle now r (x ∷ xs) h =
    let rest = any-idle now r xs h.1 in
    elim (Bool-cases
      (step_of (ref_of r) x && (is_running x.status && held_at x.lease_expires_at now))) [
        | inr free ↦ ground (arith, rest)
        | inl leased ↦ elim (Option-cases x.lease_expires_at) [
          | inl never ↦ absurd (ground arith)
          | inr (t, at) ↦
              let over : t < now = h.0 (ground arith) (ground arith) (ground arith) t at in
              absurd (ground arith)
        ]
      ]

IsLost-is_stranded :
    (db : Db) (now : ℕ) (r : RunRow) → IsLost db now r → is_stranded db now r ≡ true
unfolding is_stranded
IsLost-is_stranded db now r h =
    ground (
      arith,
      h.active,
      any-unmentioned r.id db.outbox h.unmentioned,
      any-idle now r db.steps h.idle,
    )

any-listed :
    (test : RunRow → Bool) (r : RunRow) (n : ℕ) (xs : List RunRow)
    → test r ≡ true
    → Among r xs
    → length xs ≤ n
    → any (is_for r.id) (take n (map candidate (keep test xs))) ≡ true
any-listed test r n [] hit i few = absurd i
any-listed test r zero (x ∷ xs) hit i few = absurd (omega arith)
any-listed test r (suc n) (x ∷ xs) hit (inl e) few =
    let passes : test x ≡ true = rw e hit in rw passes (ground (arith, e))
any-listed test r (suc n) (x ∷ xs) hit (inr i) few = elim (Bool-cases (test x)) [
  | inl listed ↦ rw listed (ground (arith, any-listed test r n xs hit i (omega arith)))
  | inr other ↦ rw other (any-listed test r (suc n) xs hit i (omega arith))
]

-- The tenant that the sweep is for, if it is for one only.
abbrev pub IsFor : Option ℕ → RunRow → Type 0
IsFor tenant r = (tenant ≡ none) ⊎ (tenant ≡ some r.tenant_id)

-- A run that is queued or running, that no message mentions, and none of whose steps is running
-- under a lease that is not over, has exactly one message to advance it after a sweep that is for
-- all tenants or for the run's, whatever else the sweep finds of it, if the table has no more runs
-- than the limit (100 where none is given).
pub sweep-rescues :
    (db : Db) (now : ℕ) (tenant limit : Option ℕ) (r : RunRow)
    → Among r db.runs
    → IsLost db now r
    → IsFor tenant r
    → length db.runs ≤ get_or limit 100
    → count (about r.id) (sweep db now tenant limit).0.outbox ≡ 1
unfolding stranded_runs_of
sweep-rescues db now tenant limit r i lost scope few =
    let listed =
      any-listed (λ (x : RunRow). is_stranded db now x && in_scope tenant (some x.tenant_id)) r
        (get_or limit 100) db.runs (ground (arith, IsLost-is_stranded db now r lost, scope)) i
        few in
    ground (
      arith,
      sweep-count db now tenant limit r.id,
      count-unmentioned r.id db.outbox lost.unmentioned,
      listed,
    )
