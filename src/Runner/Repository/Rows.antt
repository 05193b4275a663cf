-- ===== src/Runner/Repository/Rows.antt =====
-- How the statements of repository.ts select rows and change them.
use automa_build.Prelude.{
  ℕ, Bool, true, false, ◌&&◌, ◌||◌, Option, none, some, List, [], ◌∷◌, ltb, leb, ◌==◌,
  if◌then◌else◌,
}
use automa_build.Runner.Types.{StepStatus, RunRef, RunRow, StepRow}

-- UPDATE … SET … WHERE …
abbrev pub update_where {ℓ} : {A : Type ℓ} → (A → Bool) → (A → A) → List A → List A
update_where test change [] = []
update_where test change (x ∷ xs) = (if test x then change x else x) ∷ update_where test change xs

abbrev pub run_is : RunRef → RunRow → Bool
run_is ref r = r.started_at == ref.run_started_at && r.id == ref.run_id

abbrev pub step_of : RunRef → StepRow → Bool
step_of ref s = s.run_started_at == ref.run_started_at && s.run_id == ref.run_id

-- the primary key of step_executions: (run_started_at, id)
abbrev pub step_is : ℕ → ℕ → StepRow → Bool
step_is run_started_at step_id s = s.run_started_at == run_started_at && s.id == step_id

abbrev pub ref_of : RunRow → RunRef
ref_of r = record { run_id = r.id; run_started_at = r.started_at }

abbrev pub is_pending : StepStatus → Bool
is_pending StepStatus.pending = true
is_pending _ = false

abbrev pub is_running : StepStatus → Bool
is_running StepStatus.running = true
is_running _ = false

abbrev pub is_failed : StepStatus → Bool
is_failed StepStatus.failed = true
is_failed _ = false

abbrev pub is_timed_out : StepStatus → Bool
is_timed_out StepStatus.timed_out = true
is_timed_out _ = false

abbrev pub is_cancelled : StepStatus → Bool
is_cancelled StepStatus.cancelled = true
is_cancelled _ = false

-- `t IS NOT NULL AND t <= now()`
abbrev pub due : Option ℕ → ℕ → Bool
due none now = false
due (some t) now = leb t now

-- `t IS NOT NULL AND t < now()`
abbrev pub lapsed : Option ℕ → ℕ → Bool
lapsed none now = false
lapsed (some t) now = ltb t now

-- `t IS NOT NULL AND t > now()`
abbrev pub live : Option ℕ → ℕ → Bool
live none now = false
live (some t) now = ltb now t

-- the condition that `nextRunnableStep` and `claimStep` share
unfoldable pub claimable : ℕ → StepRow → Bool
claimable now s =
    is_pending s.status
    || ((is_failed s.status && due s.next_attempt_at now)
        || (is_running s.status && lapsed s.lease_expires_at now))
