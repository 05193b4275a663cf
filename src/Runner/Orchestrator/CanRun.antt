-- ===== src/Runner/Orchestrator/CanRun.antt =====
-- When a step may be worked on, without the tests of the query (repository.ts, `nextRunnableStep`).
use automa_build.Prelude.{
  ℕ, ◌≤◌, ◌<◌, ◌≡◌, ◌↔◌, refl, true, false, ◌&&◌, ◌==◌, ltb, none, some, List, [], ◌∷◌, arith, All,
  Bool-cases, Option-cases, inl, inr,
}
use automa_build.Runner.Types.{StepStatus, RunRef, StepRow}
use automa_build.Runner.Repository.Rows.{
  claimable, is_pending, is_failed, is_timed_out, is_cancelled,
}
use automa_build.Runner.Repository.Steps.{blocks, is_blocked, runnable}

-- WHERE status IN … with the times that each status asks for
pub data IsReady (now : ℕ) (s : StepRow) : Type 0 where
  never_started : s.status ≡ StepStatus.pending → IsReady now s
  retry_due :
      {t : ℕ} → s.status ≡ StepStatus.failed → s.next_attempt_at ≡ some t → t ≤ now → IsReady now s
  lease_over :
      {t : ℕ}
      → s.status ≡ StepStatus.running
      → s.lease_expires_at ≡ some t
      → t < now
      → IsReady now s

-- The chain does not go on behind the step.
pub data EndsChain (s : StepRow) : Type 0 where
  out_of_time : s.status ≡ StepStatus.timed_out → EndsChain s
  called_off : s.status ≡ StepStatus.cancelled → EndsChain s
  given_up : s.status ≡ StepStatus.failed → s.next_attempt_at ≡ none → EndsChain s

abbrev pub IsOf : RunRef → StepRow → Type 0
IsOf ref s = (s.run_started_at ≡ ref.run_started_at) × (s.run_id ≡ ref.run_id)

-- If `t` is a step of the run that ends the chain, `s` does not come after it.
abbrev pub IsNotBehind : RunRef → StepRow → StepRow → Type 0
IsNotBehind ref s t = IsOf ref t → EndsChain t → s.topo_order ≤ t.topo_order

-- The step may be worked on: it is the run's, it is ready, and no step of the run before it ends the
-- chain.
pub record CanRun (now : ℕ) (steps : List StepRow) (ref : RunRef) (s : StepRow) : Type 0 where
  pub of_run : IsOf ref s
  pub ready : IsReady now s
  pub free : All (IsNotBehind ref s) steps

claimable-IsReady : (now : ℕ) (s : StepRow) → claimable now s ≡ true → IsReady now s
unfolding claimable
claimable-IsReady now s h = elim (Bool-cases (is_pending s.status)) [
  | inl pending ↦ never_started (ground arith)
  | inr started ↦ elim (Bool-cases (is_failed s.status)) [
    | inl broken ↦ elim (Option-cases s.next_attempt_at) [
      | inl never ↦ absurd (ground arith)
      | inr (t, at) ↦ retry_due (ground arith) at (ground arith)
    ]
    | inr unbroken ↦ elim (Option-cases s.lease_expires_at) [
      | inl never ↦ absurd (ground arith)
      | inr (t, at) ↦ lease_over (ground arith) at (ground arith)
    ]
  ]
]

IsReady-claimable : (now : ℕ) (s : StepRow) → IsReady now s → claimable now s ≡ true
unfolding claimable
IsReady-claimable now s (never_started e) = ground arith
IsReady-claimable now s (retry_due e at due) = ground arith
IsReady-claimable now s (lease_over e at over) = ground arith

EndsChain-blocks : (s : StepRow) → EndsChain s → blocks s ≡ true
unfolding blocks
EndsChain-blocks s (out_of_time e) = ground arith
EndsChain-blocks s (called_off e) = ground arith
EndsChain-blocks s (given_up e never) = ground arith

blocks-EndsChain : (s : StepRow) → blocks s ≡ true → EndsChain s
unfolding blocks
blocks-EndsChain s h = elim (Bool-cases (is_timed_out s.status)) [
  | inl late ↦ out_of_time (ground arith)
  | inr in_time ↦ elim (Bool-cases (is_cancelled s.status)) [
    | inl off ↦ called_off (ground arith)
    | inr on ↦ elim (Option-cases s.next_attempt_at) [
      | inl never ↦ given_up (ground arith) never
      | inr (t, at) ↦ absurd (ground arith)
    ]
  ]
]

module _ (ref : RunRef) (s : StepRow) (of_run : IsOf ref s) where
  is_blocked-free :
      (steps : List StepRow) → is_blocked steps s ≡ false → All (IsNotBehind ref s) steps
  unfolding is_blocked
  is_blocked-free [] h = tt
  is_blocked-free (t ∷ ts) h = (
    (λ same ends. ground (arith, EndsChain-blocks t ends, of_run, same)),
    is_blocked-free ts (ground arith),
  )

  free-is_blocked :
      (steps : List StepRow) → All (IsNotBehind ref s) steps → is_blocked steps s ≡ false
  unfolding is_blocked
  free-is_blocked [] h = refl
  free-is_blocked (t ∷ ts) h =
      let rest = free-is_blocked ts h.1 in
      elim (Bool-cases (
        t.run_started_at == s.run_started_at
        && (t.run_id == s.run_id && (ltb t.topo_order s.topo_order && blocks t)))) [
          | inl hit ↦
              let first : s.topo_order ≤ t.topo_order =
                h.0 (ground arith, ground arith) (blocks-EndsChain t (ground arith)) in
              absurd (ground arith)
          | inr miss ↦ ground arith
        ]

pub runnable-CanRun :
    (now : ℕ) (steps : List StepRow) (ref : RunRef) (s : StepRow)
    → (runnable now steps ref s ≡ true) ↔ CanRun now steps ref s
unfolding runnable
runnable-CanRun now steps ref s = (
  (λ h.
      let mine : IsOf ref s = (ground arith, ground arith) in
      record {
        of_run = mine;
        ready = claimable-IsReady now s (ground arith);
        free = is_blocked-free ref s mine steps (ground arith);
      }),
  (λ h. ground (
    arith,
    h.of_run,
    IsReady-claimable now s h.ready,
    free-is_blocked ref s h.of_run steps h.free,
  )),
)
