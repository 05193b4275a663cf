-- ===== src/Runner/Soundness/Flights.antt =====
-- What a worker knows of the step that it has just claimed.
use automa_build.Prelude.{
  ℕ, ◌<◌, ◌≡◌, refl, sym, subst, Bool, true, ◌&&◌, some, List, [], ◌∷◌, arith, All, find, count,
  Option-cases, Bool-cases, inl, inr,
}
use automa_build.Runner.Types.{RunRow, StepRow, Db}
use automa_build.Runner.Repository.Rows.{step_is, claimable}
use automa_build.Runner.Repository.Runs.{get_run}
use automa_build.Runner.Repository.Steps.{
  ClaimInput, ClaimResult, claimed, taken, blocked, claim_step, to_claim, take_lease,
}
use automa_build.Runner.Executor.Deps.{Deps, RunStepInput}
use automa_build.Runner.Executor.Begin.{begin_step, begun, claim_input, executing}
use automa_build.Runner.Lease.Claim.{find-none_of_count, HasKey, claim_step-Claims}
use automa_build.Runner.Soundness.Rows.{IsSound, has_budget}
use automa_build.Runner.Soundness.Moves.{Moves}
use automa_build.Runner.Soundness.Finish.{HasLimits}
use automa_build.Runner.Soundness.Work.{begin_step-Moves}
use automa_build.Runner.Soundness.World.{
  World, IsFlying, All-lift, Moves-IsFlying, IsWellFormed, Moves-IsWellFormed,
}

find-All :
    (P : StepRow → Type 0) (test : StepRow → Bool) (xs : List StepRow) (s : StepRow)
    → All P xs
    → find test xs ≡ some s
    → P s × (test s ≡ true)
find-All P test [] s h e = absurd (ground arith)
find-All P test (x ∷ xs) s h e = elim (Bool-cases (test x)) [
  | inl hit ↦ subst (λ t. P t × (test t ≡ true)) (ground arith) (h.0, hit)
  | inr miss ↦ find-All P test xs s h.1 (ground arith)
]

All-both :
    (P Q : StepRow → Type 0) (xs : List StepRow) → All P xs → All Q xs → All (λ s. P s × Q s) xs
All-both P Q [] h k = tt
All-both P Q (x ∷ xs) h k = ((h.0, k.0), All-both P Q xs h.1 k.1)

-- Rows without the key have whatever limits.
limits_none :
    (started id : ℕ) (r : StepRow) (xs : List StepRow)
    → count (step_is started id) xs ≡ 0
    → All (λ s. step_is started id s ≡ true → HasLimits r s) xs
limits_none started id r [] h = tt
limits_none started id r (x ∷ xs) h =
    ((λ key. absurd (ground arith)), limits_none started id r xs (ground arith))

limits_unique :
    (started id : ℕ) (test : StepRow → Bool) (r : StepRow) (xs : List StepRow)
    → HasKey xs started id
    → find (λ s. step_is started id s && test s) xs ≡ some r
    → All (λ s. step_is started id s ≡ true → HasLimits r s) xs
limits_unique started id test r [] h e = tt
limits_unique started id test r (x ∷ xs) h e = elim (Bool-cases (step_is started id x && test x)) [
  | inl hit ↦
      let same : x ≡ r = ground arith in
      (
        (λ key. subst (λ t. HasLimits t x) same (refl, refl)),
        limits_none started id r xs (ground arith),
      )
  | inr miss ↦
      let found : find (λ s. step_is started id s && test s) xs ≡ some r = ground arith in
      (
        (λ key. absurd (ground (arith, find-none_of_count started id test xs))),
        limits_unique started id test r xs (ground arith) found,
      )
]

begun-claimed :
    (db : Db) (now : ℕ) (input : RunStepInput) (deps : Deps) (run run' : RunRow) (step : StepRow)
    (claim : Db × ClaimResult) (db' : Db)
    → begun db now input deps run claim ≡ (db', executing run' step)
    → (run ≡ run') × (claim ≡ (db', claimed step))
unfolding begun
begun-claimed db now input deps run run' step (d, claimed s) db' e = (ground arith, ground arith)
begun-claimed db now input deps run run' step (d, taken) db' e = absurd (ground arith)
begun-claimed db now input deps run run' step (d, blocked scope running limit) db' e =
    absurd (ground arith)

begin_step-claimed :
    (db : Db) (now : ℕ) (input : RunStepInput) (deps : Deps) (db' : Db) (run : RunRow)
    (step : StepRow)
    → begin_step db now input deps ≡ (db', executing run step)
    → claim_step db now (claim_input input deps run) ≡ (db', claimed step)
unfolding begin_step
begin_step-claimed db now input deps db' run step e = elim (Option-cases (get_run db input.run)) [
  | inl missing ↦ absurd (ground arith)
  | inr (r, hit) ↦
      let both =
        begun-claimed db now input deps r run step (claim_step db now (claim_input input deps r))
          db' (ground arith) in
      subst (λ x. claim_step db now (claim_input input deps x) ≡ (db', claimed step)) both.0 both.1
]

take_lease-limits :
    (now : ℕ) (input : ClaimInput) (r s : StepRow)
    → HasLimits r s
    → HasLimits (take_lease now input r) s
unfolding take_lease
take_lease-limits now input r s h = h

take_lease-budget :
    (now : ℕ) (input : ClaimInput) (r : StepRow)
    → claimable now r ≡ true
    → IsSound r
    → has_budget (take_lease now input r) ≡ true
unfolding take_lease claimable
take_lease-budget now input r c h = ground (arith, h.budget)

-- The worker that has claimed a step holds a copy with budget, under the limits of the row.
pub begin_step-IsWellFormed :
    (w : World) (now : ℕ) (input : RunStepInput) (deps : Deps) (db' : Db) (run : RunRow)
    (step : StepRow)
    → IsWellFormed w
    → begin_step w.db now input deps ≡ (db', executing run step)
    → IsWellFormed (record {
      db = db';
      flights = record { input = input; deps = deps; run = run; step = step } ∷ w.flights;
    })
begin_step-IsWellFormed w now input deps db' run step h e =
    let by = claim_input input deps run in
    let c = claim_step-Claims w.db now by (begin_step-claimed w.db now input deps db' run step e) in
    let row =
      find-All (λ s. IsSound s × (s.id < w.db.next_id)) (to_claim now by) w.db.steps c.row
        (All-both IsSound (λ (s : StepRow). s.id < w.db.next_id) w.db.steps h.rows h.issued)
        c.found in
    let moved : Moves w.db db' =
      subst (λ x. Moves w.db x.0) e (begin_step-Moves w.db now input deps h.rows) in
    let rest = Moves-IsWellFormed w moved h in
    let limits =
      limits_unique input.run.run_started_at input.step_id (claimable now) c.row w.db.steps
        (h.keys input.run.run_started_at input.step_id) c.found in
    let ready : claimable now c.row ≡ true = ground (arith, row.1) in
    let mine : c.row.id ≡ input.step_id = ground (arith, row.1) in
    let flying : IsFlying w.db (record { input = input; deps = deps; run = run; step = step }) =
      record {
        budget =
            subst (λ t. has_budget t ≡ true) (sym c.step)
              (take_lease-budget now by c.row ready row.0.0);
        issued = omega (arith, row.0.1);
        limits =
            All-lift w.db.steps
              (λ s k key.
                subst (λ t. HasLimits t s) (sym c.step) (take_lease-limits now by c.row s (k key)))
              limits;
      } in
    record {
      rows = rest.rows;
      issued = rest.issued;
      keys = rest.keys;
      flights = (Moves-IsFlying _ moved flying, rest.flights);
    }
