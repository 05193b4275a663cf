-- ===== src/Runner/Executor/Run.antt =====
-- `runStep` of executor.ts from end to end.

use automa_build.Prelude.{ℕ, Option, some}
use automa_build.Runner.Types.{Db}
use automa_build.Runner.Executor.Deps.{Deps, RunStepInput, StepOutcome}
use automa_build.Runner.Executor.Begin.{stopped, executing, begin_step}
use automa_build.Runner.Executor.Execute.{execute}
use automa_build.Runner.Executor.Finish.{finish_step}

-- `claimed_at` and `now` are the database's time at the claim and at the end; `others` is what other
-- transactions make of the database in between.
unfoldable pub run_step :
    Db → (claimed_at now node_now : ℕ) → (Db → Db) → RunStepInput → Deps → Option (Db × StepOutcome)
unfolding begin_step execute finish_step
run_step db claimed_at now node_now others input deps =
    let (db', b) = begin_step db claimed_at input deps in
    elim b [
      | stopped outcome ↦ some (db', outcome)
      | executing run step ↦
          finish_step (others db') now node_now input deps run step (execute db' deps run step)
    ]
