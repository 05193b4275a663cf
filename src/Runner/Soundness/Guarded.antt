-- ===== src/Runner/Soundness/Guarded.antt =====
-- A step under the lease of one worker, and the statements of repository.ts that leave it there.
use automa_build.Prelude.{
  ℕ, ◌<◌, ◌≡◌, Bool, true, false, ◌&&◌, ◌==◌, Option, none, some, List, [], ◌∷◌, ◌++◌, leb, arith,
  All, find, count, str_eq, Bool-cases, inl, inr,
}
use automa_build.Runner.Types.{StepRow, Db}
use automa_build.Runner.Repository.Rows.{update_where, step_is, is_running}
use automa_build.Runner.Repository.Steps.{Holder}
use automa_build.Runner.Lease.Claim.{HasKey, find-none_of_count}

abbrev pub lasts : ℕ → Option ℕ → Bool
lasts until none = false
lasts until (some t) = leb until t

-- The worker runs the step, and its lease is not over before `until`.
pub record IsUnder (h : Holder) (until : ℕ) (s : StepRow) : Type 0 where
  pub runs : is_running s.status ≡ true
  pub by_worker : s.worker_id ≡ some h.worker_id
  pub lasting : lasts until s.lease_expires_at ≡ true

abbrev pub GuardedRows : Holder → ℕ → List StepRow → Type 0
GuardedRows h until steps =
    All (λ s. step_is h.run_started_at h.step_id s ≡ true → IsUnder h until s) steps

-- Every row with the step's key is under the lease, and the key has been issued.
pub record IsGuarded (h : Holder) (until : ℕ) (db : Db) : Type 0 where
  pub rows : GuardedRows h until db.steps
  pub issued : h.step_id < db.next_id

-- the same step, for the same worker
abbrev pub is_same : Holder → Holder → Bool
is_same by h =
    by.run_started_at == h.run_started_at
    && (by.step_id == h.step_id && str_eq h.worker_id by.worker_id)

module _ (h : Holder) (until : ℕ) where
  pub update-GuardedRows :
      (test : StepRow → Bool) (f : StepRow → StepRow) (xs : List StepRow)
      → ((s : StepRow)
          → step_is h.run_started_at h.step_id (f s) ≡ step_is h.run_started_at h.step_id s)
      → ((s : StepRow)
          → step_is h.run_started_at h.step_id s ≡ true
          → test s ≡ true
          → IsUnder h until s
          → IsUnder h until (f s))
      → GuardedRows h until xs
      → GuardedRows h until (update_where test f xs)
  update-GuardedRows test f [] same keep g = tt
  update-GuardedRows test f (x ∷ xs) same keep g = elim (Bool-cases (test x)) [
    | inl hit ↦ (
      rw hit (λ key. let mine = rw (same x) at key in keep x mine hit (g.0 mine)),
      update-GuardedRows test f xs same keep g.1,
    )
    | inr miss ↦ (rw miss g.0, update-GuardedRows test f xs same keep g.1)
  ]

  pub append-GuardedRows :
      (xs : List StepRow) (r : StepRow)
      → step_is h.run_started_at h.step_id r ≡ false
      → GuardedRows h until xs
      → GuardedRows h until (xs ++ r ∷ [])
  append-GuardedRows [] r other g = ((λ key. absurd (ground arith)), tt)
  append-GuardedRows (x ∷ xs) r other g = (g.0, append-GuardedRows xs r other g.1)

  none-GuardedRows :
      (xs : List StepRow)
      → count (step_is h.run_started_at h.step_id) xs ≡ 0
      → GuardedRows h until xs
  none-GuardedRows [] none_left = tt
  none-GuardedRows (x ∷ xs) none_left =
      ((λ key. absurd (ground arith)), none-GuardedRows xs (ground arith))

  -- A claim puts every row with its key under its lease.
  pub claim-GuardedRows :
      (test : StepRow → Bool) (f : StepRow → StepRow) (xs : List StepRow) (row : StepRow)
      → ((s : StepRow)
          → step_is h.run_started_at h.step_id (f s) ≡ step_is h.run_started_at h.step_id s)
      → ((s : StepRow) → IsUnder h until (f s))
      → HasKey xs h.run_started_at h.step_id
      → find (λ s. step_is h.run_started_at h.step_id s && test s) xs ≡ some row
      → GuardedRows h until
          (update_where (λ s. step_is h.run_started_at h.step_id s && test s) f xs)
  claim-GuardedRows test f [] row same under one found = absurd (ground arith)
  claim-GuardedRows test f (x ∷ xs) row same under one found =
      elim (Bool-cases (step_is h.run_started_at h.step_id x)) [
        | inl mine ↦ elim (Bool-cases (test x)) [
          | inl hit ↦
              rw (mine, hit)
                (
                  (λ key. under x),
                  update-GuardedRows (λ s. step_is h.run_started_at h.step_id s && test s) f xs same
                      (λ s key chosen u. under s) (none-GuardedRows xs (ground arith)),
                )
          | inr miss ↦
              absurd (
                ground
                  (arith, find-none_of_count h.run_started_at h.step_id test xs (ground arith)))
        ]
        | inr other ↦ rw other (
          (λ key. absurd (ground arith)),
          claim-GuardedRows test f xs row same under (ground arith) (ground arith),
        )
      ]
