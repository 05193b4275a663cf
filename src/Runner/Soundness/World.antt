-- ===== src/Runner/Soundness/World.antt =====
-- The database together with the attempts that are under way in the workers.
use automa_build.Prelude.{
  ℕ, ◌+◌, ◌≤◌, ◌<◌, ◌≡◌, refl, true, List, [], ◌∷◌, ◌++◌, arith, All, count, if◌then◌else◌,
}
use automa_build.Runner.Types.{RunRow, StepRow, Db}
use automa_build.Runner.Repository.Rows.{step_is}
use automa_build.Runner.Executor.Deps.{Deps, RunStepInput}
use automa_build.Runner.Lease.Claim.{HasKey}
use automa_build.Runner.Soundness.Rows.{IsSound, has_budget}
use automa_build.Runner.Soundness.Moves.{Evolves-All, Evolves-count, Moves, Moves-IsSound}
use automa_build.Runner.Soundness.Finish.{HasLimits}

-- An attempt between its claim and its last transaction: what the worker knows of it.
pub record Flight : Type 0 where
  pub input : RunStepInput
  pub deps : Deps
  pub run : RunRow
  pub step : StepRow

pub record World : Type 0 where
  pub db : Db
  pub flights : List Flight

-- The worker's copy of the step has budget left, and limits that the row has too.
pub record IsFlying (db : Db) (f : Flight) : Type 0 where
  pub budget : has_budget f.step ≡ true
  pub issued : f.input.step_id < db.next_id
  pub limits :
      All
        (λ s. step_is f.input.run.run_started_at f.input.step_id s ≡ true → HasLimits f.step s)
        db.steps

pub record IsWellFormed (w : World) : Type 0 where
  pub rows : All IsSound w.db.steps
  pub issued : All (λ (s : StepRow). s.id < w.db.next_id) w.db.steps
  pub keys : (started id : ℕ) → HasKey w.db.steps started id
  pub flights : All (IsFlying w.db) w.flights

pub All-lift {ℓ κ} :
    {A : Type ℓ} {P Q : A → Type κ} (xs : List A) → ((x : A) → P x → Q x) → All P xs → All Q xs
All-lift [] f h = tt
All-lift (x ∷ xs) f h = (f x h.0, All-lift xs f h.1)

pub All-append {ℓ κ} :
    {A : Type ℓ} (P : A → Type κ) (xs : List A) (x : A) → All P xs → P x → All P (xs ++ x ∷ [])
All-append P [] x h p = (p, tt)
All-append P (y ∷ ys) x h p = (h.0, All-append P ys x h.1 p)

pub Moves-IsFlying : {db db' : Db} (f : Flight) → Moves db db' → IsFlying db f → IsFlying db' f
Moves-IsFlying {db} {db'} f m h = record {
  budget = h.budget;
  issued = omega (arith, h.issued, m.ids);
  limits =
      Evolves-All
        (λ s. step_is f.input.run.run_started_at f.input.step_id s ≡ true → HasLimits f.step s)
        db.steps db'.steps
        (λ s t k fits key.
          ground (arith, k.same_start, k.same_id, k.same_attempts, k.same_deferrals))
        m.rows h.limits;
}

-- A transaction that inserts no step keeps the world in order.
pub Moves-IsWellFormed :
    (w : World) {db' : Db} → Moves w.db db' → IsWellFormed w → IsWellFormed (record w { db = db' })
Moves-IsWellFormed w {db'} m h = record {
  rows = Moves-IsSound m;
  issued =
      Evolves-All (λ (s : StepRow). s.id < db'.next_id) w.db.steps db'.steps
        (λ s t k i. ground (arith, k.same_id)) m.rows
        (All-lift w.db.steps (λ s i. omega (arith, m.ids)) h.issued);
  keys = λ started id.
      omega (arith, h.keys started id, Evolves-count started id w.db.steps db'.steps m.rows);
  flights = All-lift w.flights (λ f. Moves-IsFlying f m) h.flights;
}

count-append :
    (started id : ℕ) (xs : List StepRow) (r : StepRow)
    → count (step_is started id) (xs ++ r ∷ []) ≡ (
        if step_is started id r
        then count (step_is started id) xs + 1
        else count (step_is started id) xs)
count-append started id [] r = ground arith
count-append started id (x ∷ xs) r = ground (arith, count-append started id xs r)

count-fresh :
    (started id n : ℕ) (xs : List StepRow)
    → n ≤ id
    → All (λ (s : StepRow). s.id < n) xs
    → count (step_is started id) xs ≡ 0
count-fresh started id n [] h k = refl
count-fresh started id n (x ∷ xs) h k = ground (arith, count-fresh started id n xs h k.1, k.0)

-- the insertion of a row under a fresh id
abbrev pub grown : World → StepRow → World
grown w r = record w {
  db = record w.db { steps = w.db.steps ++ r ∷ []; next_id = w.db.next_id + 1 };
}

pub grown-IsWellFormed :
    (w : World) (r : StepRow)
    → r.id ≡ w.db.next_id
    → IsSound r
    → IsWellFormed w
    → IsWellFormed (grown w r)
grown-IsWellFormed w r fresh sound h = record {
  rows = All-append IsSound w.db.steps r h.rows sound;
  issued =
      All-append (λ (s : StepRow). s.id < w.db.next_id + 1) w.db.steps r
        (All-lift w.db.steps (λ s i. omega arith) h.issued) (omega arith);
  keys = λ started id. ground (
    arith,
    h.keys started id,
    count-append started id w.db.steps r,
    count-fresh started w.db.next_id w.db.next_id w.db.steps (omega arith) h.issued,
  );
  flights =
      All-lift w.flights
        (λ f k. record {
          budget = k.budget;
          issued = omega (arith, k.issued);
          limits =
              All-append
                (λ s.
                  step_is f.input.run.run_started_at f.input.step_id s ≡ true → HasLimits f.step s)
                w.db.steps r k.limits (λ key. absurd (ground (arith, k.issued)));
        })
        h.flights;
}
