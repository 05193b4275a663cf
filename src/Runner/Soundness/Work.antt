-- ===== src/Runner/Soundness/Work.antt =====
-- What claiming a step and recording on it do to step rows.
use Prim.Native.String.{String}
use automa_build.Prelude.{
  ℕ, ◌+◌, ◌≡◌, ◌⊎◌, refl, true, Option, List, [], ◌∷◌, arith, All, find, Option-cases, inl, inr,
}
use automa_build.Runner.Types.{RunRef, RunRow, StepRow, Db, Json}
use automa_build.Runner.Repository.Steps.{
  ClaimInput, ClaimResult, claimed, taken, blocked, claim_step, claim_row, to_claim, take_lease,
  Holder, held_by, renew_lease, record_success, FailureRecord, record_failure, fail, mark_skipped,
  to_skip, skip, succeed,
}
use automa_build.Runner.Repository.Runs.{get_run}
use automa_build.Runner.Executor.Deps.{Deps, RunStepInput}
use automa_build.Runner.Executor.Begin.{begin_step, begun, claim_input}
use automa_build.Runner.Soundness.Rows.{
  IsSound, IsFair, take_lease-Keeps, succeed-Keeps, fail-Keeps, skip-Keeps, extend-Keeps,
}
use automa_build.Runner.Soundness.Moves.{
  Evolves-update, Moves, Moves-same, Moves-trans, Moves-IsSound,
}
use automa_build.Runner.Soundness.Quiet.{Quiet, Quiet-refl, Quiet-Moves}

pub any_row : (xs : List StepRow) → All (λ s. Unit {0}) xs
any_row [] = tt
any_row (x ∷ xs) = (tt, any_row xs)

claim_row-Moves :
    (db : Db) (now : ℕ) (input : ClaimInput)
    → All IsSound db.steps
    → Moves db (claim_row db now input).0
unfolding claim_row
claim_row-Moves db now input h = elim (Option-cases (find (to_claim now input) db.steps)) [
  | inl missing ↦ rw (missing, claim_row) (Moves-same refl (omega arith) h)
  | inr (s, hit) ↦
      rw (hit, claim_row)
        (record {
          rows =
              Evolves-update (λ s. Unit {0}) (to_claim now input) (take_lease now input) db.steps
                (λ s _ ready. take_lease-Keeps now input s (ground arith)) h (any_row db.steps);
          ids = omega arith;
        })
]

pub claim_step-either :
    (db : Db) (now : ℕ) (input : ClaimInput)
    → ((claim_step db now input).0 ≡ db) ⊎ (claim_step db now input ≡ claim_row db now input)
unfolding claim_step
claim_step-either db now input = ground arith

pub claim_step-Moves :
    (db : Db) (now : ℕ) (input : ClaimInput)
    → All IsSound db.steps
    → Moves db (claim_step db now input).0
claim_step-Moves db now input h = elim (claim_step-either db now input) [
  | inl same ↦ rw same (Moves-same refl (omega arith) h)
  | inr row ↦ rw row (claim_row-Moves db now input h)
]

pub begun-Quiet :
    (db : Db) (now : ℕ) (input : RunStepInput) (deps : Deps) (run : RunRow)
    (claim : Db × ClaimResult)
    → Quiet claim.0 (begun db now input deps run claim).0
unfolding begun
begun-Quiet db now input deps run (db', claimed s) = Quiet-refl
begun-Quiet db now input deps run (db', taken) = Quiet-refl
begun-Quiet db now input deps run (db', blocked scope running limit) = record {
  steps = refl;
  ids = omega arith;
}

pub begin_step-Moves :
    (db : Db) (now : ℕ) (input : RunStepInput) (deps : Deps)
    → All IsSound db.steps
    → Moves db (begin_step db now input deps).0
unfolding begin_step
begin_step-Moves db now input deps h = elim (Option-cases (get_run db input.run)) [
  | inl missing ↦ rw (missing, begin_step) (Moves-same refl (omega arith) h)
  | inr (run, hit) ↦
      let claim = claim_step-Moves db now (claim_input input deps run) h in
      rw (hit, begin_step)
        (Moves-trans claim (
          Quiet-Moves
            (begun-Quiet db now input deps run (claim_step db now (claim_input input deps run)))
            (Moves-IsSound claim)))
]

pub renew_lease-Moves :
    (db : Db) (now : ℕ) (h : Holder) (lease_ms : ℕ)
    → All IsSound db.steps
    → Moves db (renew_lease db now h lease_ms).0
unfolding renew_lease
renew_lease-Moves db now h lease_ms sound = record {
  rows =
      Evolves-update (λ s. Unit {0}) (held_by h) _ db.steps
        (λ s _ held. extend-Keeps (now + lease_ms) h s held) sound (any_row db.steps);
  ids = omega arith;
}

pub mark_skipped-Moves :
    (db : Db) (now : ℕ) (ref : RunRef) (nodes : List String) (reason : String)
    → All IsSound db.steps
    → Moves db (mark_skipped db now ref nodes reason).0
unfolding mark_skipped
mark_skipped-Moves db now ref nodes reason h = record {
  rows =
      Evolves-update (λ s. Unit {0}) (to_skip ref nodes) (skip now reason) db.steps
        (λ s _ chosen. skip-Keeps now reason s (ground arith)) h (any_row db.steps);
  ids = omega arith;
}

pub record_success-Moves :
    (db : Db) (now : ℕ) (by : Holder) (output : Option Json)
    → All IsSound db.steps
    → Moves db (record_success db now by output).0
unfolding record_success
record_success-Moves db now by output h = record {
  rows =
      Evolves-update (λ s. Unit {0}) (held_by by) (succeed now output) db.steps
        (λ s _ held. succeed-Keeps now output s) h (any_row db.steps);
  ids = omega arith;
}

pub record_failure-Moves :
    (db : Db) (now : ℕ) (by : Holder) (f : FailureRecord)
    → All IsSound db.steps
    → All (λ s. held_by by s ≡ true → IsFair f s) db.steps
    → Moves db (record_failure db now by f).0
unfolding record_failure
record_failure-Moves db now by f h fair = record {
  rows =
      Evolves-update (λ s. held_by by s ≡ true → IsFair f s) (held_by by) (fail now f) db.steps
        (λ s p held. fail-Keeps now f s (p held)) h fair;
  ids = omega arith;
}
