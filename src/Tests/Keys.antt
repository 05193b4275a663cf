-- ===== src/Tests/Keys.antt =====
-- Two requests with one key.
use automa_build.Prelude.{true, false, ◌≡◌, refl, some, [], ◌∷◌}
use automa_build.Runner.Types.{RunRow, Db}
use automa_build.Runner.Repository.Rows.{ref_of}
use automa_build.Runner.Repository.Runs.{CreateRunInput, create_run, get_run}
use automa_build.Runner.Repository.Runs.Once.{create_run-once}
use automa_build.Tests.Fixture.{ref}
use automa_build.Tests.Histories.{empty, plain_key, order, queued_run, created_db}

abbrev keyed_order : CreateRunInput
keyed_order = record order { idempotency_key = some "order-17" }

abbrev keyed_db : Db
keyed_db = record created_db {
  run_keys = record { tenant_id = 7; flow_id = 3; idempotency_key = "order-17"; run = ref } ∷ [];
}

create_run-once_example :
    (r : RunRow) × (ref_of r ≡ ref)
    × (create_run plain_key keyed_db keyed_db 900 keyed_order
        ≡ some (keyed_db, record { run = r; deduplicated = true }))
unfolding create_run get_run
create_run-once_example =
    create_run-once plain_key empty.db empty.db 100 keyed_order "order-17" keyed_db
      (record { run = record queued_run { step_count = 0 }; deduplicated = false }) keyed_db 900
      keyed_order refl refl refl refl refl refl refl
