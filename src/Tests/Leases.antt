-- ===== src/Tests/Leases.antt =====
-- Two workers and one step.
use automa_build.Prelude.{◌≡◌, ◌≢◌, refl, none, some, [], arith}
use automa_build.Runner.Types.{Db, Json}
use automa_build.Runner.Repository.Steps.{
  claimed, claim_step, take_lease, running_for_tenant, running_for_flow,
}
use automa_build.Runner.Executor.Deps.{not_claimed}
use automa_build.Runner.Executor.Execute.{produced}
use automa_build.Runner.Executor.Finish.{finish_step}
use automa_build.Runner.Executor.Begin.{Begun, begin_step}
use automa_build.Runner.Janitor.{sweep, expired_leases_of, overdue_runs_of, stranded_runs_of}
use automa_build.Runner.Repository.Runs.{request_cancel}
use automa_build.Runner.Soundness.World.{World}
use automa_build.Runner.Soundness.Protocol.{at, cancelled, swept, turned_away}
use automa_build.Runner.Soundness.Exclusive.{here, on, claim_step-exclusive}
use automa_build.Runner.Lease.Takeover.{finish_step-stale}
use automa_build.Runner.Lease.Limits.{Within, claim_step-Within}
use automa_build.Tests.Fixture.{ref, fresh, step, run, flow, claim_by, limited, deps_of, first_step}

abbrev claimed_world : World
claimed_world = record { db = (claim_step fresh 1_000 (claim_by "w1")).0; flights = [] }

-- Then somebody asks for the run to be cancelled, the janitor sweeps, and a worker is turned away.
abbrev asked : World
asked = at claimed_world (request_cancel claimed_world.db 2_000 ref).0

abbrev swept_world : World
swept_world = at asked (sweep asked.db 50_000 none none).0

turned_away_world :
    begin_step swept_world.db 60_000 first_step (deps_of "w2")
    ≡ (swept_world.db, Begun.stopped not_claimed)
unfolding claim_step begin_step sweep expired_leases_of overdue_runs_of stranded_runs_of
    request_cancel
turned_away_world = refl

claim_step-exclusive_example :
    (claim_step swept_world.db 70_000 (claim_by "w3")).1 ≢ claimed (step 11 0 "lookup")
unfolding claim_step
claim_step-exclusive_example =
    claim_step-exclusive fresh 1_000 (claim_by "w1") claimed_world swept_world
      (take_lease 1_000 (claim_by "w1") (step 11 0 "lookup")) (omega arith) (omega arith) refl
      (on swept_world swept_world
        (on asked swept_world (on claimed_world asked here (cancelled 2_000 ref) tt)
          (swept 50_000 none none) tt)
        (turned_away 60_000 first_step (deps_of "w2") swept_world.db not_claimed turned_away_world)
        (λ started id. omega arith))
      70_000 (claim_by "w3") refl refl (omega arith) (step 11 0 "lookup")

claim_step-Within_example :
    Within (some 1) (running_for_tenant (claim_step fresh 1_000 limited).0 1_000 (some 7))
    × Within (some 2) (running_for_flow (claim_step fresh 1_000 limited).0 1_000 3)
unfolding claim_step
claim_step-Within_example =
    claim_step-Within fresh 1_000 3 limited (record { per_tenant = some 1; per_flow = some 2 })
      (claim_step fresh 1_000 limited).0 (take_lease 1_000 limited (step 11 0 "lookup"))
      (omega arith) refl refl refl

-- the second worker took the step over when the first one's lease had run out
abbrev taken_over : Db
taken_over = (claim_step (claim_step fresh 1_000 (claim_by "w1")).0 200_000 (claim_by "w2")).0

finish_step-stale_example :
    finish_step taken_over 210_000 210_000 first_step
      (deps_of "w1")
      run
      (step 11 0 "lookup")
      (produced flow (some (Json.str "late")))
    ≡ some (taken_over, not_claimed)
unfolding claim_step
finish_step-stale_example =
    finish_step-stale taken_over 210_000 first_step (deps_of "w1") refl 210_000 run
      (step 11 0 "lookup") (produced flow (some (Json.str "late"))) (λ e. cc)
