-- ===== src/Runner/Soundness/Protocol.antt =====
-- All histories of the engine: its transactions in any order, by any number of workers. A worker that
-- dies leaves an attempt that is never ended; a message that is delivered twice begins one twice.
use Prim.Native.String.{String}
use automa_build.Prelude.{
  ℕ, ◌≤◌, ◌≡◌, ◌⊎◌, inl, inr, refl, subst, Option, some, List, [], ◌∷◌, arith, All,
}
use automa_build.Runner.Types.{RunRef, RunRow, StepRow, Db}
use automa_build.Runner.Repository.Outbox.{delete_outbox, defer_outbox}
use automa_build.Runner.Repository.Runs.{
  StepKey, CreateRunInput, CreateRunResult, create_run, request_cancel,
}
use automa_build.Runner.Repository.Steps.{Holder, renew_lease}
use automa_build.Runner.Orchestrator.{advance_run}
use automa_build.Runner.Executor.Deps.{Deps, RunStepInput, StepOutcome}
use automa_build.Runner.Executor.Begin.{begin_step, executing, stopped}
use automa_build.Runner.Executor.Execute.{Execution}
use automa_build.Runner.Executor.Finish.{finish_step}
use automa_build.Runner.Janitor.{sweep}
use automa_build.Runner.Resume.{ResumeResult, ok, resume_run, replay_dlq_entry}
use automa_build.Runner.Soundness.Moves.{Moves, Moves-same}
use automa_build.Runner.Soundness.Quiet.{advance_run-Quiet, sweep-Quiet, Quiet-Moves}
use automa_build.Runner.Soundness.Work.{begin_step-Moves, renew_lease-Moves}
use automa_build.Runner.Soundness.Finish.{finish_step-Moves}
use automa_build.Runner.Soundness.Restart.{resume_run-Moves, replay_dlq_entry-Moves}
use automa_build.Runner.Soundness.World.{Flight, World, IsFlying, IsWellFormed, Moves-IsWellFormed}
use automa_build.Runner.Soundness.Births.{IsRunnable, create_run-IsWellFormed}
use automa_build.Runner.Soundness.Flights.{begin_step-IsWellFormed}

abbrev pub at : World → Db → World
at w db = record w { db = db }

abbrev pub IsUnderWay : Flight → List Flight → Type 0
IsUnderWay f [] = ⊥
IsUnderWay f (g ∷ gs) = (g ≡ f) ⊎ IsUnderWay f gs

pub data Transition (w : World) : World → Type 0 where
  created :
      (step_key : StepKey) (before : Db) (now : ℕ) (input : CreateRunInput) (db' : Db)
      (result : CreateRunResult)
      → All IsRunnable input.flow.nodes
      → create_run step_key before w.db now input ≡ some (db', result)
      → Transition w (at w db')
  advanced :
      (before : Db) (now node_now : ℕ) (ref : RunRef)
      → Transition w (at w (advance_run before w.db now node_now ref).0)
  began :
      (now : ℕ) (input : RunStepInput) (deps : Deps) (db' : Db) (run : RunRow) (step : StepRow)
      → begin_step w.db now input deps ≡ (db', executing run step)
      → Transition w (record {
        db = db';
        flights = record { input = input; deps = deps; run = run; step = step } ∷ w.flights;
      })
  turned_away :
      (now : ℕ) (input : RunStepInput) (deps : Deps) (db' : Db) (outcome : StepOutcome)
      → begin_step w.db now input deps ≡ (db', stopped outcome)
      → Transition w (at w db')
  ended :
      (f : Flight) (now node_now : ℕ) (x : Execution) (db' : Db) (outcome : StepOutcome)
      → IsUnderWay f w.flights
      → finish_step w.db now node_now f.input f.deps f.run f.step x ≡ some (db', outcome)
      → Transition w (at w db')
  renewed :
      (now : ℕ) (h : Holder) (lease_ms : ℕ)
      → Transition w (at w (renew_lease w.db now h lease_ms).0)
  swept : (now : ℕ) (tenant limit : Option ℕ) → Transition w (at w (sweep w.db now tenant limit).0)
  cancelled : (now : ℕ) (ref : RunRef) → Transition w (at w (request_cancel w.db now ref).0)
  resumed :
      (step_key : StepKey) (now : ℕ) (ref : RunRef) (node : String) (db' : Db)
      (result : ResumeResult)
      → resume_run step_key w.db now ref node ≡ ok (db', result)
      → Transition w (at w db')
  replayed :
      (step_key : StepKey) (now entry_id : ℕ) (by : Option String) (db' : Db)
      (result : ResumeResult)
      → replay_dlq_entry step_key w.db now entry_id by ≡ ok (db', result)
      → Transition w (at w db')
  delivered : (ids : List ℕ) → Transition w (at w (delete_outbox w.db ids))
  put_off : (now id delay_ms : ℕ) → Transition w (at w (defer_outbox w.db now id delay_ms))

-- From a database without steps, in which no attempt is under way.
pub data Reachable : World → Type 0 where
  fresh : (w : World) → w.db.steps ≡ [] → w.flights ≡ [] → Reachable w
  next : (v w : World) → Reachable v → Transition v w → Reachable w

flying :
    (f : Flight) (fs : List Flight) (db : Db)
    → IsUnderWay f fs
    → All (IsFlying db) fs
    → IsFlying db f
flying f [] db i h = absurd i
flying f (g ∷ gs) db (inl e) h = subst (λ x. IsFlying db x) e h.0
flying f (g ∷ gs) db (inr i) h = flying f gs db i h.1

aside :
    (w : World) (db : Db)
    → db.steps ≡ w.db.steps
    → w.db.next_id ≤ db.next_id
    → IsWellFormed w
    → IsWellFormed (at w db)
aside w db e i h = Moves-IsWellFormed w (Moves-same e i h.rows) h

Transition-IsWellFormed : (v w : World) → Transition v w → IsWellFormed v → IsWellFormed w
unfolding request_cancel delete_outbox defer_outbox
Transition-IsWellFormed v _ (created step_key before now input db' result r e) h =
    create_run-IsWellFormed step_key v before now input db' result r h e
Transition-IsWellFormed v _ (advanced before now node_now ref) h =
    Moves-IsWellFormed v (Quiet-Moves (advance_run-Quiet before v.db now node_now ref) h.rows) h
Transition-IsWellFormed v _ (began now input deps db' run step e) h =
    begin_step-IsWellFormed v now input deps db' run step h e
Transition-IsWellFormed v _ (turned_away now input deps db' outcome e) h =
    Moves-IsWellFormed v
      (subst (λ x. Moves v.db x.0) e (begin_step-Moves v.db now input deps h.rows)) h
Transition-IsWellFormed v _ (ended f now node_now x db' outcome i e) h =
    let known = flying f v.flights v.db i h.flights in
    Moves-IsWellFormed v
      (finish_step-Moves v.db now node_now f.input f.deps f.run f.step x db' outcome known.budget
        known.limits h.rows e)
      h
Transition-IsWellFormed v _ (renewed now by lease_ms) h =
    Moves-IsWellFormed v (renew_lease-Moves v.db now by lease_ms h.rows) h
Transition-IsWellFormed v _ (swept now tenant limit) h =
    Moves-IsWellFormed v (Quiet-Moves (sweep-Quiet v.db now tenant limit) h.rows) h
Transition-IsWellFormed v _ (cancelled now ref) h =
    aside v (request_cancel v.db now ref).0 refl (omega arith) h
Transition-IsWellFormed v _ (resumed step_key now ref node db' result e) h =
    Moves-IsWellFormed v (resume_run-Moves step_key v.db now ref node db' result h.rows e) h
Transition-IsWellFormed v _ (replayed step_key now entry_id by db' result e) h =
    Moves-IsWellFormed v (replay_dlq_entry-Moves step_key v.db now entry_id by db' result h.rows e)
      h
Transition-IsWellFormed v _ (delivered ids) h =
    aside v (delete_outbox v.db ids) refl (omega arith) h
Transition-IsWellFormed v _ (put_off now id delay_ms) h =
    aside v (defer_outbox v.db now id delay_ms) refl (omega arith) h

fresh-IsWellFormed : (w : World) → w.db.steps ≡ [] → w.flights ≡ [] → IsWellFormed w
fresh-IsWellFormed w e k = record {
  rows = rw e tt;
  issued = rw e tt;
  keys = λ started id. rw e (omega arith);
  flights = rw k tt;
}

-- In every history, whatever the order of the transactions and whoever makes them: each step row has
-- its counters within its limits, has budget left while another attempt may be made of it, and has a
-- lease exactly while it runs, under some worker; no two rows have the same key; and every worker's
-- copy of the step that it works on has budget left and the limits of the row.
pub Reachable-IsWellFormed : (w : World) → Reachable w → IsWellFormed w
Reachable-IsWellFormed w (fresh _ e k) = fresh-IsWellFormed w e k
Reachable-IsWellFormed w (next v _ r t) = Transition-IsWellFormed v w t (Reachable-IsWellFormed v r)
