-- ===== src/Tests/Histories.antt =====
-- A run from its creation to the first failure of its first step.
use automa_build.Prelude.{◌≡◌, inl, refl, true, false, none, some, [], ◌∷◌, arith, count}
use automa_build.Runner.ErrorClasses.{ErrorClass}
use automa_build.Runner.Classify.{FailureFacts, no_facts}
use automa_build.Runner.Retry.{on_attempt_failed, attempts, StepRetryState}
use automa_build.Runner.Types.{RunStatus, StepStatus, RunRow, StepRow, OutboxTopic, Db}
use automa_build.Runner.Repository.Runs.{StepKey, CreateRunInput, create_run}
use automa_build.Runner.Repository.Steps.{next_runnable_step}
use automa_build.Runner.Orchestrator.{advance_run, dispatched}
use automa_build.Runner.Orchestrator.CanRun.{CanRun}
use automa_build.Runner.Orchestrator.Choice.{IsFirst, next_runnable_step-IsFirst}
use automa_build.Runner.Orchestrator.Outcome.{Agrees, advance_run-Agrees}
use automa_build.Runner.Executor.Deps.{StepOutcome}
use automa_build.Runner.Executor.Begin.{Begun, begin_step}
use automa_build.Runner.Executor.Execute.{broke}
use automa_build.Runner.Executor.Finish.{finish_step, decide}
use automa_build.Runner.Executor.Continues.{
  GainsAdvance, finish_step-GainsAdvance, IsBuried, finish_step-IsBuried,
}
use automa_build.Runner.Janitor.{sweep, expired_leases_of, overdue_runs_of, stranded_runs_of}
use automa_build.Runner.Janitor.Once.{about}
use automa_build.Runner.Janitor.Rescue.{sweep-rescues}
use automa_build.Runner.Soundness.World.{Flight, World, IsWellFormed}
use automa_build.Runner.Soundness.Protocol.{
  at, created, advanced, began, Reachable, fresh as start, next, Reachable-IsWellFormed,
}
use automa_build.Tests.Fixture.{ref, run, step, db_of, flow, deps_of, first_step}

abbrev pub empty : World
empty = record {
  db = record { runs = []; steps = []; run_keys = []; outbox = []; dlq = []; next_id = 1 };
  flights = [];
}

abbrev pub plain_key : StepKey
plain_key run_id node_id iteration group = some node_id

abbrev pub order : CreateRunInput
order = record {
  tenant_id = 7;
  flow = flow;
  input = none;
  idempotency_key = none;
  run_timeout_ms = none;
  is_test = none;
}

abbrev pub queued_run : RunRow
queued_run = record run { status = RunStatus.queued }

abbrev pub created_db : Db
created_db = record {
  runs = queued_run ∷ [];
  steps = step 2 0 "lookup" ∷ step 3 1 "pay" ∷ step 4 2 "mail" ∷ [];
  run_keys = [];
  outbox =
      record {
        id = 5;
        topic = OutboxTopic.advance_run;
        payload = record { run = ref; step_id = none; tenant_id = none };
        tenant_id = some 7;
        available_at = 100;
        attempts = 0;
      }
      ∷ [];
  dlq = [];
  next_id = 6;
}

creates :
    create_run plain_key empty.db empty.db 100 order
    ≡ some (created_db, record { run = record queued_run { step_count = 0 }; deduplicated = false })
unfolding create_run
creates = refl

abbrev running_db : Db
running_db = (advance_run created_db created_db 110 110 ref).0

abbrev lookup_flight : Flight
lookup_flight = record {
  input = record { run = ref; step_id = 2; tenant_id = some 7 };
  deps = deps_of "w1";
  run = run;
  step = record (step 2 0 "lookup") {
    status = StepStatus.running;
    worker_id = some "w1";
    lease_expires_at = some 120_120;
    attempts_started = 1;
    started_at = some 120;
  };
}

abbrev flying_db : Db
flying_db = (begin_step running_db 120 lookup_flight.input lookup_flight.deps).0

begins :
    begin_step running_db 120 lookup_flight.input lookup_flight.deps
    ≡ (flying_db, Begun.executing run lookup_flight.step)
unfolding begin_step advance_run
begins = refl

abbrev flying : World
flying = record { db = flying_db; flights = lookup_flight ∷ [] }

flying-Reachable : Reachable flying
flying-Reachable =
    next (at empty running_db) flying
      (next (at empty created_db) (at empty running_db)
        (next empty (at empty created_db) (start empty refl refl) (
          created plain_key empty.db 100 order created_db
            (record { run = record queued_run { step_count = 0 }; deduplicated = false })
            (omega arith, (omega arith, (omega arith, tt))) creates))
        (advanced created_db 110 110 ref))
      (began 120 lookup_flight.input lookup_flight.deps flying_db run lookup_flight.step begins)

Reachable-IsWellFormed_example : IsWellFormed flying
Reachable-IsWellFormed_example = Reachable-IsWellFormed flying flying-Reachable

abbrev refused : FailureFacts
refused = record no_facts { http_status = some 503; response_received = true; request_sent = true }

finish_step-GainsAdvance_example :
    (db' : Db) × (outcome : StepOutcome) × (finish_step flying_db 130 130 lookup_flight.input
        (deps_of "w1")
        run
        lookup_flight.step
        (broke (some flow) refused "unavailable")
      ≡ some (db', outcome))
    × GainsAdvance flying_db lookup_flight.input db'
unfolding begin_step advance_run
finish_step-GainsAdvance_example =
    finish_step-GainsAdvance flying_db 130 lookup_flight.input (deps_of "w1") refl 130 run
      lookup_flight.step (broke (some flow) refused "unavailable") (λ e. cc)

advance_run-Agrees_example :
    Agrees created_db
      (advance_run created_db created_db 110 110 ref).0
      ref
      (advance_run created_db created_db 110 110 ref).1
advance_run-Agrees_example = advance_run-Agrees created_db created_db 110 110 ref refl

advances : (advance_run created_db created_db 110 110 ref).1 ≡ dispatched 2 "lookup"
unfolding advance_run
advances = refl

next_runnable_step-IsFirst_example :
    IsFirst
      (CanRun 110 created_db.steps ref)
      created_db.steps
      (next_runnable_step created_db 110 ref)
next_runnable_step-IsFirst_example = next_runnable_step-IsFirst created_db 110 ref

-- the second of three steps is paused for a confirmation, and the third is dispatched
abbrev paused_db : Db
paused_db = db_of (
    record (step 11 0 "lookup") { status = StepStatus.succeeded }
    ∷ record (step 12 1 "pay") { status = StepStatus.waiting_confirmation }
    ∷ step 13 2 "mail"
    ∷ [])

paused_goes_on : (advance_run paused_db paused_db 500 500 ref).1 ≡ dispatched 13 "mail"
unfolding advance_run
paused_goes_on = refl

-- a run whose message was lost
abbrev stranded_db : Db
stranded_db = record created_db { outbox = [] }

sweeps : count (about 1) (sweep stranded_db 900 none none).0.outbox ≡ 1
unfolding sweep expired_leases_of overdue_runs_of stranded_runs_of
sweeps = refl

sweep-rescues_example : count (about 1) (sweep stranded_db 900 none none).0.outbox ≡ 1
sweep-rescues_example =
    sweep-rescues stranded_db 900 none none queued_run (inl refl)
      (record {
        active = inl refl;
        unmentioned = tt;
        idle = (
          (λ a b e t lease. absurd (ground arith)),
          (
            (λ a b e t lease. absurd (ground arith)),
            ((λ a b e t lease. absurd (ground arith)), tt),
          ),
        );
      })
      (inl refl) (omega arith)

abbrev last_try : StepRow
last_try = record (step 11 0 "lookup") { attempts_consumed = 4; max_attempts = 5 }

abbrev ours : FailureFacts
ours = record no_facts { internal = true }

abbrev used_up : StepRetryState
used_up = record { attempts_started = 0; attempts_consumed = 5; deferrals = 0 }

-- the worker still runs the step, which has been tried four times before
abbrev last_db : Db
last_db = db_of (
    record last_try {
      status = StepStatus.running;
      worker_id = some "w1";
      lease_expires_at = some 120_000;
    }
    ∷ [])

finish_step-IsBuried_example : IsBuried last_db first_step last_try used_up (
    finish_step last_db 130 130 first_step
      (deps_of "w1")
      run
      last_try
      (broke (some flow) ours "bug"))
unfolding decide on_attempt_failed
finish_step-IsBuried_example =
    finish_step-IsBuried last_db 130 130 first_step (deps_of "w1") run last_try (some flow) ours
      "bug" used_up (attempts 5 ErrorClass.internal) refl (omega arith) refl
