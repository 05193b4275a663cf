-- ===== src/Runner/Soundness/Exclusive.antt =====
-- A claim and the histories after it: nobody else gets the step while the lease lasts.
use automa_build.Prelude.{
  ℕ, ◌+◌, ◌≤◌, ◌<◌, ◌≡◌, ◌≢◌, refl, sym, subst, ◌&&◌, Bool-cases, true, false, some, List, [], ◌∷◌,
  arith, find, inl, inr,
}
use automa_build.Runner.Types.{StepRow, Db}
use automa_build.Runner.Repository.Rows.{step_is, claimable}
use automa_build.Runner.Repository.Outbox.{delete_outbox, defer_outbox}
use automa_build.Runner.Repository.Runs.{request_cancel}
use automa_build.Runner.Repository.Steps.{Holder, ClaimInput, claimed, claim_step, take_lease}
use automa_build.Runner.Executor.Finish.{holder}
use automa_build.Runner.Lease.Claim.{HasKey, claim_step-Claims}
use automa_build.Runner.Soundness.World.{World}
use automa_build.Runner.Soundness.Quiet.{advance_run-Quiet, sweep-Quiet}
use automa_build.Runner.Soundness.Protocol.{
  Transition, created, advanced, began, turned_away, ended, renewed, swept, cancelled, resumed,
  replayed, delivered, put_off,
}
use automa_build.Runner.Soundness.Guarded.{IsGuarded, GuardedRows, is_same, claim-GuardedRows}
use automa_build.Runner.Soundness.Undisturbed.{
  quiet, Quiet-IsGuarded, IsInTime, begin_step-IsGuarded, renew_lease-IsGuarded,
  finish_step-IsGuarded, not_claimable,
}
use automa_build.Runner.Soundness.Inserted.{create_run-IsGuarded}

-- What may happen while the worker works: everything but the worker's own report, a renewal of its
-- lease that ends before `until`, a resume, a replay, and attempts to begin the step after `until`.
abbrev pub Allows : Holder → ℕ → {v w : World} → Transition v w → Type 0
Allows h until (began now input deps db' run step e) =
    IsInTime h until now input.run.run_started_at input.step_id
Allows h until (turned_away now input deps db' outcome e) =
    IsInTime h until now input.run.run_started_at input.step_id
Allows h until (ended f now node_now x db' outcome i e) = is_same (holder f.input f.deps) h ≡ false
Allows h until (renewed now by lease_ms) = is_same by h ≡ true → until ≤ now + lease_ms
Allows h until (resumed step_key now ref node db' result e) = ⊥
Allows h until (replayed step_key now entry_id by db' result e) = ⊥
Allows h until _ = Unit

pub data Later (h : Holder) (until : ℕ) (v : World) : World → Type 0 where
  here : Later h until v v
  on :
      (u w : World)
      → Later h until v u
      → (t : Transition u w) → Allows h until t
      → Later h until v w

module _ (h : Holder) (until : ℕ) where
  Transition-IsGuarded :
      (v w : World) (t : Transition v w)
      → Allows h until t
      → IsGuarded h until v.db
      → IsGuarded h until w.db
  unfolding request_cancel delete_outbox defer_outbox
  Transition-IsGuarded v _ (created step_key before now input db' result r e) k g =
      create_run-IsGuarded step_key h until before v.db now input db' result g e
  Transition-IsGuarded v _ (advanced before now node_now ref) k g =
      Quiet-IsGuarded h until (advance_run-Quiet before v.db now node_now ref) g
  Transition-IsGuarded v _ (began now input deps db' run step e) k g =
      subst (λ x. IsGuarded h until x.0) e (begin_step-IsGuarded h until v.db now input deps k g)
  Transition-IsGuarded v _ (turned_away now input deps db' outcome e) k g =
      subst (λ x. IsGuarded h until x.0) e (begin_step-IsGuarded h until v.db now input deps k g)
  Transition-IsGuarded v _ (ended f now node_now x db' outcome i e) k g =
      finish_step-IsGuarded h until v.db now node_now f.input f.deps f.run f.step x db' outcome k e
        g
  Transition-IsGuarded v _ (renewed now by lease_ms) k g =
      renew_lease-IsGuarded h until v.db now by lease_ms k g
  Transition-IsGuarded v _ (swept now tenant limit) k g =
      Quiet-IsGuarded h until (sweep-Quiet v.db now tenant limit) g
  Transition-IsGuarded v _ (cancelled now ref) k g = quiet h until refl (omega arith) g
  Transition-IsGuarded v _ (resumed step_key now ref node db' result e) k g = absurd k
  Transition-IsGuarded v _ (replayed step_key now entry_id by db' result e) k g = absurd k
  Transition-IsGuarded v _ (delivered ids) k g = quiet h until refl (omega arith) g
  Transition-IsGuarded v _ (put_off now id delay_ms) k g = quiet h until refl (omega arith) g

  Later-IsGuarded :
      (v w : World) → Later h until v w → IsGuarded h until v.db → IsGuarded h until w.db
  Later-IsGuarded v w here g = g
  Later-IsGuarded v w (on u _ l t k) g = Transition-IsGuarded u w t k (Later-IsGuarded v u l g)

  no_claimable :
      (later : ℕ) (xs : List StepRow)
      → later ≤ until
      → GuardedRows h until xs
      → (row : StepRow)
      → find (λ s. step_is h.run_started_at h.step_id s && claimable later s) xs ≢ some row
  no_claimable later [] early g row found = absurd (ground arith)
  no_claimable later (x ∷ xs) early g row found =
      elim (Bool-cases (step_is h.run_started_at h.step_id x)) [
        | inr other ↦ no_claimable later xs early g.1 row (ground arith)
        | inl mine ↦
            let held = not_claimable h until later x early (g.0 mine) in
            no_claimable later xs early g.1 row (ground arith)
      ]

-- the worker that a claim makes the holder of the step
abbrev pub holder_of : ClaimInput → Holder
holder_of input = record {
  run_started_at = input.run_started_at;
  step_id = input.step_id;
  worker_id = input.worker_id;
}

claim_step-IsGuarded :
    (db : Db) (now : ℕ) (input : ClaimInput) (db' : Db) (s : StepRow)
    → HasKey db.steps input.run_started_at input.step_id
    → input.step_id < db.next_id
    → claim_step db now input ≡ (db', claimed s)
    → IsGuarded (holder_of input) (now + input.lease_ms) db'
unfolding take_lease
claim_step-IsGuarded db now input db' s key issued e =
    let c = claim_step-Claims db now input e in
    rw c.after (record {
      rows =
          claim-GuardedRows (holder_of input) (now + input.lease_ms) (claimable now)
            (take_lease now input) db.steps c.row (λ x. refl)
            (λ x. record { runs = refl; by_worker = refl; lasting = ground arith }) key c.found;
      issued = issued;
    })

-- Once a worker has claimed a step whose key is unique and has been issued, no claim of the same
-- step by anyone succeeds up to the end of the lease, whatever transactions come in between:
-- creations, advances, sweeps, cancellations, deliveries, the reports of other attempts, and
-- attempts to begin the step before the lease is over; but no resume or replay, no report by a
-- worker of that id on the step, and no renewal of its lease that ends earlier.
pub claim_step-exclusive :
    (db : Db) (now : ℕ) (input : ClaimInput) (v w : World) (s : StepRow)
    → HasKey db.steps input.run_started_at input.step_id
    → input.step_id < db.next_id
    → claim_step db now input ≡ (v.db, claimed s)
    → Later (holder_of input) (now + input.lease_ms) v w
    → (later : ℕ) (other : ClaimInput) → other.run_started_at ≡ input.run_started_at
    → other.step_id ≡ input.step_id
    → later ≤ now + input.lease_ms
    → (t : StepRow) → (claim_step w.db later other).1 ≢ claimed t
claim_step-exclusive db now input v w s key issued e history later other same_run same_step early t
      again =
    let until = now + input.lease_ms in
    let first : IsGuarded (holder_of input) until v.db =
      claim_step-IsGuarded db now input v.db s key issued e in
    let guarded = Later-IsGuarded (holder_of input) until v w history first in
    let c =
      claim_step-Claims w.db later other {db' = (claim_step w.db later other).0} {s = t}
        (ground (arith, again)) in
    no_claimable (holder_of input) until later w.db.steps early guarded.rows c.row
      (rw (sym same_run, sym same_step) c.found)
