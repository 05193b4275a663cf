-- ===== src/Runner/Repository/Runs/Once.antt =====
-- Requests with the same idempotency key (repository.ts, `createRun`).
use Prim.Native.String.{String}
use automa_build.Prelude.{
  ℕ, ◌+◌, ◌≡◌, ◌∙◌, refl, ap, Bool, true, false, none, some, List, [], ◌∷◌, ◌++◌, arith, any, find,
  length, str_eq, eq_iff, Option-cases, Bool-cases, inl, inr,
}
use automa_build.Runner.Types.{RunRef, RunRow, RunKeyRow, Db, FlowNode, FlowDefinition}
use automa_build.Runner.Repository.Rows.{update_where, run_is, ref_of}
use automa_build.Runner.Repository.Outbox.{enqueue}
use automa_build.Runner.Repository.Runs.{
  StepKey, CreateRunInput, CreateRunResult, get_run, key_is, find_run_by_idempotency_key, new_run,
  new_step, insert_run, insert_nodes, insert_steps, schedule_run, claim_key, create_run,
}

find-append {ℓ} :
    {A : Type ℓ} (test : A → Bool) (xs : List A) (x : A)
    → any test xs ≡ false
    → test x ≡ true
    → find test (xs ++ x ∷ []) ≡ some x
find-append test [] x h t = ground arith
find-append test (y ∷ ys) x h t = ground (arith, find-append test ys x)

any-find {ℓ} :
    {A : Type ℓ} (test : A → Bool) (xs : List A) → find test xs ≡ none → any test xs ≡ false
any-find test [] h = refl
any-find test (x ∷ xs) h = ground (arith, any-find test xs)

-- an update of rows by key finds the row again, changed
find-counted :
    (ref : RunRef) (f : RunRow → RunRow) (runs : List RunRow) (r : RunRow)
    → ((x : RunRow) → run_is ref (f x) ≡ run_is ref x)
    → find (run_is ref) runs ≡ some r
    → find (run_is ref) (update_where (run_is ref) f runs) ≡ some (f r)
find-counted ref f [] r k h = absurd (ground arith)
find-counted ref f (x ∷ xs) r k h = ground (arith, find-counted ref f xs r k, k x)

-- The steps are inserted without a change of the runs and the keys.
record Beside (db db' : Db) : Type 0 where
  pub runs : db'.runs ≡ db.runs
  pub run_keys : db'.run_keys ≡ db.run_keys

insert_nodes-Beside :
    (step_key : StepKey) (db : Db) (run : RunRow) (order : ℕ) (nodes : List FlowNode) (db' : Db)
    → insert_nodes step_key db run order nodes ≡ some db'
    → Beside db db'
unfolding insert_nodes
insert_nodes-Beside step_key db run order [] db' e = record {
  runs = ground arith;
  run_keys = ground arith;
}
insert_nodes-Beside step_key db run order (node ∷ nodes) db' e =
    elim (Option-cases (step_key run.id node.id 0 run.attempt_group)) [
      | inl bad ↦ absurd (ground arith)
      | inr (key, good) ↦
          let rest =
            insert_nodes-Beside step_key
              (record db {
                steps = db.steps ++ new_step run node db.next_id order key ∷ [];
                next_id = db.next_id + 1;
              })
              run (order + 1) nodes db' (ground arith) in
          record { runs = rest.runs; run_keys = rest.run_keys }
    ]

abbrev pub counted : FlowDefinition → RunRow → RunRow
counted flow r = record r { step_count = length flow.nodes }

-- What scheduling a run leaves: the keys as they were, and the run with its steps counted.
pub record Scheduled (db db' : Db) (run : RunRow) (flow : FlowDefinition) (result : CreateRunResult)
    : Type 0 where
  pub run_keys : db'.run_keys ≡ db.run_keys
  pub runs : db'.runs ≡ update_where (run_is (ref_of run)) (counted flow) db.runs
  pub same : result.run ≡ run

pub schedule_run-Scheduled :
    (step_key : StepKey) (db : Db) (now : ℕ) (run : RunRow) (input : CreateRunInput) (db' : Db)
    (result : CreateRunResult)
    → schedule_run step_key db now run input ≡ some (db', result)
    → Scheduled db db' run input.flow result
unfolding schedule_run insert_steps enqueue
schedule_run-Scheduled step_key db now run input db' result e =
    elim (Option-cases (insert_nodes step_key db run 0 input.flow.nodes)) [
      | inl bad ↦ absurd (ground arith)
      | inr (d, done) ↦
          let beside = insert_nodes-Beside step_key db run 0 input.flow.nodes d done in
          let after : db'.runs ≡ update_where (run_is (ref_of run)) (counted input.flow) d.runs =
            ground arith in
          record {
            run_keys = ground (arith, beside.run_keys);
            runs = after ∙ ap (update_where (run_is (ref_of run)) (counted input.flow)) beside.runs;
            same = ground arith;
          }
    ]

str_eq_refl : (s : String) → str_eq s s ≡ true
str_eq_refl s = ground (arith, eq_iff s s)

-- the row of run_idempotency that a creation writes
abbrev key_row : CreateRunInput → String → RunRow → RunKeyRow
key_row input key run = record {
  tenant_id = input.tenant_id;
  flow_id = input.flow.id;
  idempotency_key = key;
  run = ref_of run;
}

-- What a creation that was not deduplicated leaves: its key, and the run under it.
record Holds (db' : Db) (input : CreateRunInput) (key : String) (result : CreateRunResult)
    : Type 0 where
  pub kept : find (key_is input key) db'.run_keys ≡ some (key_row input key result.run)
  pub row : RunRow
  pub found : get_run db' (ref_of result.run) ≡ some row
  pub same : ref_of row ≡ ref_of result.run

claim_key-Holds :
    (step_key : StepKey) (db : Db) (now : ℕ) (run : RunRow) (input : CreateRunInput) (key : String)
    (db' : Db) (result : CreateRunResult)
    → find (run_is (ref_of run)) db.runs ≡ some run
    → claim_key step_key db now run input key ≡ some (db', result)
    → result.deduplicated ≡ false
    → Holds db' input key result
unfolding claim_key get_run
claim_key-Holds step_key db now run input key db' result there e once =
    elim (Bool-cases (any (key_is input key) db.run_keys)) [
      | inl lost ↦ absurd (ground arith)
      | inr won ↦
          let keyed = record db { run_keys = db.run_keys ++ key_row input key run ∷ [] } in
          let s = schedule_run-Scheduled step_key keyed now run input db' result (ground arith) in
          record {
            kept =
                rw (s.run_keys, s.same)
                  (find-append (key_is input key) db.run_keys (key_row input key run) won
                    (ground (arith, str_eq_refl key)));
            row = counted input.flow run;
            found =
                rw (s.runs, s.same)
                  (find-counted (ref_of run) (counted input.flow) db.runs run (λ x. refl) there);
            same = rw s.same refl;
          }
    ]

find-inserted :
    (db : Db) (run : RunRow)
    → find (run_is (ref_of run)) db.runs ≡ none
    → find (run_is (ref_of run)) (db.runs ++ run ∷ []) ≡ some run
find-inserted db run none_yet =
    find-append (run_is (ref_of run)) db.runs run (any-find (run_is (ref_of run)) db.runs none_yet)
      (ground arith)

create_run-Holds :
    (step_key : StepKey) (before db : Db) (now : ℕ) (input : CreateRunInput) (key : String)
    (db' : Db) (result : CreateRunResult)
    → input.idempotency_key ≡ some key
    → get_run db (record { run_id = db.next_id; run_started_at = now }) ≡ none
    → create_run step_key before db now input ≡ some (db', result)
    → result.deduplicated ≡ false
    → Holds db' input key result
unfolding create_run insert_run new_run get_run
create_run-Holds step_key before db now input key db' result keyed none_yet e once =
    elim (Option-cases (find_run_by_idempotency_key before input key)) [
      | inl new ↦
          claim_key-Holds step_key (insert_run db (new_run db now input)) now (new_run db now input)
            input key db' result (find-inserted db (new_run db now input) none_yet) (ground arith)
            once
      | inr (old, found) ↦ absurd (ground arith)
    ]

find-same {ℓ} :
    {A : Type ℓ} (test other : A → Bool) (xs : List A)
    → ((x : A) → test x ≡ other x)
    → find test xs ≡ find other xs
find-same test other [] k = refl
find-same test other (x ∷ xs) k = ground (arith, k x, find-same test other xs k)

find_run-Holds :
    (db' : Db) (input again : CreateRunInput) (key : String) (result : CreateRunResult)
    → (h : Holds db' input key result) → again.tenant_id ≡ input.tenant_id
    → again.flow.id ≡ input.flow.id
    → find_run_by_idempotency_key db' again key ≡ some h.row
unfolding find_run_by_idempotency_key
find_run-Holds db' input again key result h tenant flow =
    rw
      (
        find-same (key_is again key) (key_is input key) db'.run_keys (λ k. ground arith) ∙ h.kept,
        find_run_by_idempotency_key,
      )
      h.found

-- A second request with the tenant, the flow and the key of a run that was created (under a fresh id)
-- gets the first one's run back, marked as deduplicated, and changes nothing, if its first look sees
-- the database that the creation left.
pub create_run-once :
    (step_key : StepKey) (before db : Db) (now : ℕ) (input : CreateRunInput) (key : String)
    (db' : Db) (result : CreateRunResult) (later : Db) (later_now : ℕ) (again : CreateRunInput)
    → input.idempotency_key ≡ some key
    → get_run db (record { run_id = db.next_id; run_started_at = now }) ≡ none
    → create_run step_key before db now input ≡ some (db', result)
    → result.deduplicated ≡ false
    → again.idempotency_key ≡ some key
    → again.tenant_id ≡ input.tenant_id
    → again.flow.id ≡ input.flow.id
    → (r : RunRow) × (ref_of r ≡ ref_of result.run)
      × (create_run step_key db' later later_now again
          ≡ some (later, record { run = r; deduplicated = true }))
unfolding create_run
create_run-once step_key before db now input key db' result later later_now again keyed none_yet e
      once keyed_again tenant flow =
    let h = create_run-Holds step_key before db now input key db' result keyed none_yet e once in
    (
      h.row,
      h.same,
      rw (keyed_again, create_run, find_run-Holds db' input again key result h tenant flow) refl,
    )
