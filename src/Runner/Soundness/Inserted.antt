-- ===== src/Runner/Soundness/Inserted.antt =====
-- The steps that a creation inserts have new ids, so they leave a guarded step alone.
use Prim.Native.String.{String}
use automa_build.Prelude.{
  ℕ, ◌+◌, ◌≡◌, refl, subst, some, List, [], ◌∷◌, ◌++◌, arith, any, Option-cases, Bool-cases, inl,
  inr,
}
use automa_build.Runner.Types.{FlowNode, RunRow, Db}
use automa_build.Runner.Repository.Rows.{ref_of}
use automa_build.Runner.Repository.Outbox.{enqueue}
use automa_build.Runner.Repository.Runs.{
  StepKey, CreateRunInput, CreateRunResult, new_step, insert_nodes, insert_steps, schedule_run,
  claim_key, insert_run, create_run, new_run, find_run_by_idempotency_key, key_is,
}
use automa_build.Runner.Repository.Steps.{Holder}
use automa_build.Runner.Soundness.Guarded.{IsGuarded, append-GuardedRows}
use automa_build.Runner.Soundness.Undisturbed.{quiet}

module _ (step_key : StepKey) (h : Holder) (until : ℕ) where
  insert_nodes-IsGuarded :
      (db : Db) (run : RunRow) (order : ℕ) (nodes : List FlowNode) (db' : Db)
      → IsGuarded h until db
      → insert_nodes step_key db run order nodes ≡ some db'
      → IsGuarded h until db'
  unfolding insert_nodes new_step
  insert_nodes-IsGuarded db run order [] db' g e = subst (λ d. IsGuarded h until d) (ground arith) g
  insert_nodes-IsGuarded db run order (node ∷ nodes) db' g e =
      elim (Option-cases (step_key run.id node.id 0 run.attempt_group)) [
        | inl bad ↦ absurd (ground arith)
        | inr (key, good) ↦
            let new = new_step run node db.next_id order key in
            insert_nodes-IsGuarded
              (record db { steps = db.steps ++ new ∷ []; next_id = db.next_id + 1 }) run (order + 1)
              nodes db'
              (record {
                rows = append-GuardedRows h until db.steps new (ground (arith, g.issued)) g.rows;
                issued = omega (arith, g.issued);
              })
              (ground arith)
      ]

  schedule_run-IsGuarded :
      (db : Db) (now : ℕ) (run : RunRow) (input : CreateRunInput) (db' : Db)
      (result : CreateRunResult)
      → IsGuarded h until db
      → schedule_run step_key db now run input ≡ some (db', result)
      → IsGuarded h until db'
  unfolding schedule_run insert_steps enqueue
  schedule_run-IsGuarded db now run input db' result g e =
      elim (Option-cases (insert_nodes step_key db run 0 input.flow.nodes)) [
        | inl bad ↦ absurd (ground arith)
        | inr (d, done) ↦
            quiet h until (ground arith) (ground arith)
              (insert_nodes-IsGuarded db run 0 input.flow.nodes d g done)
      ]

  claim_key-IsGuarded :
      (db : Db) (now : ℕ) (run : RunRow) (input : CreateRunInput) (key : String) (db' : Db)
      (result : CreateRunResult)
      → IsGuarded h until db
      → claim_key step_key db now run input key ≡ some (db', result)
      → IsGuarded h until db'
  unfolding claim_key
  claim_key-IsGuarded db now run input key db' result g e =
      elim (Bool-cases (any (key_is input key) db.run_keys)) [
        | inl lost ↦ quiet h until (ground arith) (ground arith) g
        | inr won ↦
            schedule_run-IsGuarded
              (record db {
                run_keys =
                    db.run_keys
                    ++ record {
                      tenant_id = input.tenant_id;
                      flow_id = input.flow.id;
                      idempotency_key = key;
                      run = ref_of run;
                    }
                      ∷ [];
              })
              now run input db' result (quiet h until refl (omega arith) g) (ground arith)
      ]

  pub create_run-IsGuarded :
      (before db : Db) (now : ℕ) (input : CreateRunInput) (db' : Db) (result : CreateRunResult)
      → IsGuarded h until db
      → create_run step_key before db now input ≡ some (db', result)
      → IsGuarded h until db'
  unfolding create_run insert_run
  create_run-IsGuarded before db now input db' result g e =
      let run = new_run db now input in
      let inserted = insert_run db run in
      let kept : IsGuarded h until inserted = quiet h until refl (omega arith) g in
      elim (Option-cases input.idempotency_key) [
        | inl unkeyed ↦ schedule_run-IsGuarded inserted now run input db' result kept (ground arith)
        | inr (key, keyed) ↦ elim (Option-cases (find_run_by_idempotency_key before input key)) [
          | inl new ↦ claim_key-IsGuarded inserted now run input key db' result kept (ground arith)
          | inr (old, found) ↦ quiet h until (ground arith) (ground arith) g
        ]
      ]
