-- ===== src/Runner/Orchestrator/Choice.antt =====
-- Which step `advanceRun` goes on with (repository.ts, `nextRunnableStep`).
use automa_build.Prelude.{
  ℕ, ◌≤◌, ◌≡◌, ◌⊎◌, Bool, true, false, Option, none, some, List, [], ◌∷◌, arith, All, keep, leb,
  if◌then◌else◌, Bool-cases, Option-cases, inl, inr,
}
use automa_build.Runner.Types.{RunRef, StepRow, Db}
use automa_build.Runner.Repository.Steps.{lowest, runnable, next_runnable_step}
use automa_build.Runner.Orchestrator.CanRun.{CanRun, runnable-CanRun}

-- `chosen` passes the test and no row of the list that passes it comes before `chosen`; with nothing
-- chosen, no row passes.
abbrev IsLowest : (StepRow → Bool) → List StepRow → Option StepRow → Type 0
IsLowest test xs none = All (λ s. test s ≡ false) xs
IsLowest test xs (some c) =
    (test c ≡ true) × All (λ (s : StepRow). test s ≡ true → c.topo_order ≤ s.topo_order) xs

-- how the head of the list changes the choice
abbrev before : StepRow → Option StepRow → Option StepRow
before s none = some s
before s (some t) = if leb s.topo_order t.topo_order then some s else some t

All-weaken :
    (P Q : StepRow → Type 0) (xs : List StepRow) → ((s : StepRow) → P s → Q s) → All P xs → All Q xs
All-weaken P Q [] f h = tt
All-weaken P Q (x ∷ xs) f h = (f x h.0, All-weaken P Q xs f h.1)

before-IsLowest :
    (test : StepRow → Bool) (x : StepRow) (xs : List StepRow) (c : Option StepRow)
    → test x ≡ true
    → IsLowest test xs c
    → IsLowest test (x ∷ xs) (before x c)
before-IsLowest test x xs none t h = (
  t,
  (
    (λ k. omega arith),
    All-weaken (λ s. test s ≡ false) (λ (s : StepRow). test s ≡ true → x.topo_order ≤ s.topo_order)
        xs (λ s miss hit. absurd (ground arith)) h,
  ),
)
before-IsLowest test x xs (some c) t h = elim (Bool-cases (leb x.topo_order c.topo_order)) [
  | inl first ↦ rw first (
    t,
    (
      (λ k. omega arith),
      All-weaken (λ (s : StepRow). test s ≡ true → c.topo_order ≤ s.topo_order)
          (λ (s : StepRow). test s ≡ true → x.topo_order ≤ s.topo_order) xs
          (λ s k hit. ground (arith, k hit)) h.1,
    ),
  )
  | inr later ↦ rw later (h.0, ((λ k. ground arith), h.1))
]

skip-IsLowest :
    (test : StepRow → Bool) (x : StepRow) (xs : List StepRow) (c : Option StepRow)
    → test x ≡ false
    → IsLowest test xs c
    → IsLowest test (x ∷ xs) c
skip-IsLowest test x xs none miss h = (miss, h)
skip-IsLowest test x xs (some c) miss h = (h.0, ((λ k. absurd (ground arith)), h.1))

lowest-IsLowest :
    (test : StepRow → Bool) (xs : List StepRow) → IsLowest test xs (lowest (keep test xs))
unfolding lowest
lowest-IsLowest test [] = tt
lowest-IsLowest test (x ∷ xs) = elim (Bool-cases (test x)) [
  | inl hit ↦
      rw hit (before-IsLowest test x xs (lowest (keep test xs)) hit (lowest-IsLowest test xs))
  | inr miss ↦
      rw miss (skip-IsLowest test x xs (lowest (keep test xs)) miss (lowest-IsLowest test xs))
]

abbrev pub Among : StepRow → List StepRow → Type 0
Among c [] = ⊥
Among c (x ∷ xs) = (x ≡ c) ⊎ Among c xs

-- `c` is the first row of the table, in the order of the flow, that has the property; with nothing
-- chosen, no row has it.
abbrev pub IsFirst : (StepRow → Type 0) → List StepRow → Option StepRow → Type 0
IsFirst P xs none = All (λ s. ¬ P s) xs
IsFirst P xs (some c) =
    Among c xs × P c × All (λ (s : StepRow). P s → c.topo_order ≤ s.topo_order) xs

lowest-Among :
    (test : StepRow → Bool) (xs : List StepRow) (c : StepRow)
    → lowest (keep test xs) ≡ some c
    → Among c xs
unfolding lowest
lowest-Among test [] c h = absurd (ground arith)
lowest-Among test (x ∷ xs) c h = elim (Bool-cases (test x)) [
  | inr miss ↦ inr (lowest-Among test xs c (rw miss at h))
  | inl hit ↦ elim (Option-cases (lowest (keep test xs))) [
    | inl nothing ↦ inl (ground arith)
    | inr (t, found) ↦ elim (Bool-cases (leb x.topo_order t.topo_order)) [
      | inl first ↦ inl (ground arith)
      | inr later ↦ inr (lowest-Among test xs c (ground arith))
    ]
  ]
]

-- The step that is chosen is a row of the table that may be worked on: it is the run's, it is
-- pending, or failed with a retry that is due, or running with a lease that is over, and no step
-- of the run before it has timed out, was cancelled or failed for good; and it is the first of all
-- such rows in the order of the flow. None is chosen only where there is no such row.
pub next_runnable_step-IsFirst :
    (db : Db) (now : ℕ) (ref : RunRef)
    → IsFirst (CanRun now db.steps ref) db.steps (next_runnable_step db now ref)
unfolding next_runnable_step
next_runnable_step-IsFirst db now ref =
    let test = runnable now db.steps ref in
    let chosen = lowest-IsLowest test db.steps in
    elim (Option-cases (lowest (keep test db.steps))) [
      | inl nothing ↦ rw nothing (
          All-weaken (λ s. test s ≡ false) (λ s. ¬ CanRun now db.steps ref s) db.steps
            (λ s miss can. absurd (ground (arith, (runnable-CanRun now db.steps ref s).1 can)))
            (rw nothing at chosen))
      | inr (c, found) ↦
          let best : IsLowest test db.steps (some c) = rw found at chosen in
          rw found (
            lowest-Among test db.steps c found,
            (runnable-CanRun now db.steps ref c).0 best.0,
            All-weaken (λ (s : StepRow). test s ≡ true → c.topo_order ≤ s.topo_order)
                (λ (s : StepRow). CanRun now db.steps ref s → c.topo_order ≤ s.topo_order) db.steps
                (λ s k can. k ((runnable-CanRun now db.steps ref s).1 can)) best.1,
          )
    ]
