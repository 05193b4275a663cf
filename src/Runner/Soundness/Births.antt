-- ===== src/Runner/Soundness/Births.antt =====
-- The steps that a creation inserts (repository.ts, `createRun`).
use Prim.Native.String.{String}
use automa_build.Prelude.{
  ℕ, ◌+◌, ◌≤◌, ◌≡◌, refl, subst, some, List, [], ◌∷◌, ◌++◌, arith, All, get_or, any, Option-cases,
  Bool-cases, inl, inr,
}
use automa_build.Runner.Types.{FlowNode, FlowDefinition, RunRow, Db}
use automa_build.Runner.Repository.Rows.{ref_of}
use automa_build.Runner.Repository.Outbox.{enqueue}
use automa_build.Runner.Repository.Runs.{
  StepKey, CreateRunInput, CreateRunResult, new_step, insert_nodes, insert_steps, schedule_run,
  claim_key, insert_run, create_run, new_run, find_run_by_idempotency_key, key_is,
}
use automa_build.Runner.Soundness.Rows.{IsSound}
use automa_build.Runner.Soundness.Moves.{Moves-same}
use automa_build.Runner.Soundness.World.{
  World, IsWellFormed, Moves-IsWellFormed, grown, grown-IsWellFormed,
}

-- a node that may be tried at least once
abbrev pub IsRunnable : FlowNode → Type 0
IsRunnable node = 1 ≤ get_or node.max_attempts 5

new_step-IsSound :
    (run : RunRow) (node : FlowNode) (id order : ℕ) (key : String)
    → IsRunnable node
    → IsSound (new_step run node id order key)
unfolding new_step
new_step-IsSound run node id order key h = record {
  some_attempts = h;
  some_deferrals = omega arith;
  attempts_within = omega arith;
  deferrals_within = omega arith;
  budget = ground (arith, h);
  lease = refl;
  worker = refl;
}

abbrev with_db : World → Db → World
with_db w db = record w { db = db }

-- A change of the other tables keeps the world in order.
aside-IsWellFormed :
    (w : World) (db : Db)
    → db.steps ≡ w.db.steps
    → w.db.next_id ≤ db.next_id
    → IsWellFormed w
    → IsWellFormed (with_db w db)
aside-IsWellFormed w db e i h = Moves-IsWellFormed w (Moves-same e i h.rows) h

module _ (step_key : StepKey) where
  insert_nodes-IsWellFormed :
      (w : World) (run : RunRow) (order : ℕ) (nodes : List FlowNode) (db' : Db)
      → All IsRunnable nodes
      → IsWellFormed w
      → insert_nodes step_key w.db run order nodes ≡ some db'
      → IsWellFormed (with_db w db')
  unfolding insert_nodes new_step
  insert_nodes-IsWellFormed w run order [] db' r h e =
      subst (λ d. IsWellFormed (with_db w d)) (ground arith) h
  insert_nodes-IsWellFormed w run order (node ∷ nodes) db' r h e =
      elim (Option-cases (step_key run.id node.id 0 run.attempt_group)) [
        | inl bad ↦ absurd (ground arith)
        | inr (key, good) ↦
            insert_nodes-IsWellFormed (grown w (new_step run node w.db.next_id order key)) run
              (order + 1) nodes db' r.1
              (grown-IsWellFormed w (new_step run node w.db.next_id order key) refl
                (new_step-IsSound run node w.db.next_id order key r.0) h)
              (ground arith)
      ]

  insert_steps-IsWellFormed :
      (w : World) (run : RunRow) (flow : FlowDefinition) (db' : Db)
      → All IsRunnable flow.nodes
      → IsWellFormed w
      → insert_steps step_key w.db run flow ≡ some db'
      → IsWellFormed (with_db w db')
  unfolding insert_steps
  insert_steps-IsWellFormed w run flow db' r h e =
      elim (Option-cases (insert_nodes step_key w.db run 0 flow.nodes)) [
        | inl bad ↦ absurd (ground arith)
        | inr (d, done) ↦
            aside-IsWellFormed (with_db w d) db' (ground arith) (ground arith)
              (insert_nodes-IsWellFormed w run 0 flow.nodes d r h done)
      ]

  schedule_run-IsWellFormed :
      (w : World) (now : ℕ) (run : RunRow) (input : CreateRunInput) (db' : Db)
      (result : CreateRunResult)
      → All IsRunnable input.flow.nodes
      → IsWellFormed w
      → schedule_run step_key w.db now run input ≡ some (db', result)
      → IsWellFormed (with_db w db')
  unfolding schedule_run enqueue
  schedule_run-IsWellFormed w now run input db' result r h e =
      elim (Option-cases (insert_steps step_key w.db run input.flow)) [
        | inl bad ↦ absurd (ground arith)
        | inr (d, done) ↦
            aside-IsWellFormed (with_db w d) db' (ground arith) (ground arith)
              (insert_steps-IsWellFormed w run input.flow d r h done)
      ]

  claim_key-IsWellFormed :
      (w : World) (now : ℕ) (run : RunRow) (input : CreateRunInput) (key : String) (db' : Db)
      (result : CreateRunResult)
      → All IsRunnable input.flow.nodes
      → IsWellFormed w
      → claim_key step_key w.db now run input key ≡ some (db', result)
      → IsWellFormed (with_db w db')
  unfolding claim_key
  claim_key-IsWellFormed w now run input key db' result r h e =
      elim (Bool-cases (any (key_is input key) w.db.run_keys)) [
        | inl lost ↦ aside-IsWellFormed w db' (ground arith) (ground arith) h
        | inr won ↦
            schedule_run-IsWellFormed
              (with_db w (record w.db {
                run_keys =
                    w.db.run_keys
                    ++ record {
                      tenant_id = input.tenant_id;
                      flow_id = input.flow.id;
                      idempotency_key = key;
                      run = ref_of run;
                    }
                      ∷ [];
              }))
              now run input db' result r (aside-IsWellFormed w _ refl (omega arith) h)
              (ground arith)
      ]

  pub create_run-IsWellFormed :
      (w : World) (before : Db) (now : ℕ) (input : CreateRunInput) (db' : Db)
      (result : CreateRunResult)
      → All IsRunnable input.flow.nodes
      → IsWellFormed w
      → create_run step_key before w.db now input ≡ some (db', result)
      → IsWellFormed (with_db w db')
  unfolding create_run insert_run
  create_run-IsWellFormed w before now input db' result r h e =
      let run = new_run w.db now input in
      let inserted = insert_run w.db run in
      let in_order : IsWellFormed (with_db w inserted) =
        aside-IsWellFormed w inserted refl (omega arith) h in
      elim (Option-cases input.idempotency_key) [
        | inl unkeyed ↦
            schedule_run-IsWellFormed (with_db w inserted) now run input db' result r in_order
              (ground arith)
        | inr (key, keyed) ↦ elim (Option-cases (find_run_by_idempotency_key before input key)) [
          | inl new ↦
              claim_key-IsWellFormed (with_db w inserted) now run input key db' result r in_order
                (ground arith)
          | inr (old, found) ↦ aside-IsWellFormed w db' (ground arith) (ground arith) h
        ]
      ]
