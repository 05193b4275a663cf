-- ===== src/Runner/Lease/Claim.antt =====
-- What a claim that succeeds has written (repository.ts, `claimStep`).
use automa_build.Prelude.{
  ℕ, ◌≤◌, ◌≡◌, inl, inr, refl, Bool, ◌&&◌, none, some, List, [], ◌∷◌, arith, find, count,
  Option-cases,
}
use automa_build.Runner.Types.{StepRow, Db}
use automa_build.Runner.Repository.Rows.{update_where, step_is}
use automa_build.Runner.Repository.Steps.{
  ClaimInput, claimed, claim_step, claim_row, to_claim, take_lease,
}

-- The primary key of step_executions.
abbrev pub HasKey : List StepRow → ℕ → ℕ → Type 0
HasKey steps started id = count (step_is started id) steps ≤ 1

module _ (started id : ℕ) where
  pub find-none_of_count :
      (test : StepRow → Bool) (xs : List StepRow)
      → count (step_is started id) xs ≡ 0
      → find (λ s. step_is started id s && test s) xs ≡ none
  find-none_of_count test [] h = refl
  find-none_of_count test (x ∷ xs) h = ground (arith, find-none_of_count test xs)

-- What a claim that succeeds has done.
pub record Claims (db : Db) (now : ℕ) (input : ClaimInput) (db' : Db) (s : StepRow) : Type 0 where
  pub row : StepRow
  pub found : find (to_claim now input) db.steps ≡ some row
  pub step : s ≡ take_lease now input row
  pub after :
      db' ≡ record db { steps = update_where (to_claim now input) (take_lease now input) db.steps }

claim_row-Claims :
    (db : Db) (now : ℕ) (input : ClaimInput) {db' : Db} {s : StepRow}
    → claim_row db now input ≡ (db', claimed s)
    → Claims db now input db' s
unfolding claim_row
claim_row-Claims db now input e = elim (Option-cases (find (to_claim now input) db.steps)) [
  | inl none_found ↦ absurd (ground arith)
  | inr (row, hit) ↦ record { row = row; found = hit; step = ground arith; after = ground arith }
]

pub claim_step-Claims :
    (db : Db) (now : ℕ) (input : ClaimInput) {db' : Db} {s : StepRow}
    → claim_step db now input ≡ (db', claimed s)
    → Claims db now input db' s
unfolding claim_step
claim_step-Claims db now input e = claim_row-Claims db now input (ground arith)
