-- ===== src/Runner/Soundness/Rows.antt =====
-- Sound step rows, and the changes that the engine makes to one.
use Prim.Native.String.{String}
use automa_build.Prelude.{
  ℕ, ◌≤◌, ◌≡◌, refl, ◌∙◌, Bool, true, false, ◌&&◌, ◌||◌, not, Option, some, arith, ltb, is_some,
  is_none,
}
use automa_build.Runner.Types.{StepRow, Json}
use automa_build.Runner.Repository.Rows.{is_pending, is_running, is_failed, claimable}
use automa_build.Runner.Repository.Steps.{
  ClaimInput, take_lease, Holder, held_by, succeed, FailureRecord, fail, skip,
}
use automa_build.Runner.Resume.{preserve, renew}

-- a step that another attempt may be made of
abbrev pub is_open : StepRow → Bool
is_open s =
    is_pending s.status
    || (is_running s.status || (is_failed s.status && is_some s.next_attempt_at))

abbrev pub has_budget : StepRow → Bool
has_budget s = ltb s.attempts_consumed s.max_attempts && ltb s.deferrals s.max_deferrals

-- The counters are within their limits, an open step has budget left for one more failure of either
-- kind, and a step has a lease exactly while it runs, under some worker.
pub record IsSound (s : StepRow) : Type 0 where
  pub some_attempts : 1 ≤ s.max_attempts
  pub some_deferrals : 1 ≤ s.max_deferrals
  pub attempts_within : s.attempts_consumed ≤ s.max_attempts
  pub deferrals_within : s.deferrals ≤ s.max_deferrals
  pub budget : (not (is_open s) || has_budget s) ≡ true
  pub lease : is_some s.lease_expires_at ≡ is_running s.status
  pub worker : (not (is_running s.status) || is_some s.worker_id) ≡ true

-- The changed row is sound and has the key and the limits of the old one.
pub record Keeps (s s' : StepRow) : Type 0 where
  pub same_start : s'.run_started_at ≡ s.run_started_at
  pub same_id : s'.id ≡ s.id
  pub same_attempts : s'.max_attempts ≡ s.max_attempts
  pub same_deferrals : s'.max_deferrals ≡ s.max_deferrals
  pub sound : IsSound s'

pub keeps :
    {s s' : StepRow}
    → s'.run_started_at ≡ s.run_started_at
    → s'.id ≡ s.id
    → s'.max_attempts ≡ s.max_attempts
    → s'.max_deferrals ≡ s.max_deferrals
    → IsSound s'
    → Keeps s s'
keeps a b c d e = record {
  same_start = a;
  same_id = b;
  same_attempts = c;
  same_deferrals = d;
  sound = e;
}

pub Keeps-refl : {s : StepRow} → IsSound s → Keeps s s
Keeps-refl h = keeps refl refl refl refl h

pub Keeps-trans : {s t u : StepRow} → Keeps s t → Keeps t u → Keeps s u
Keeps-trans h k =
    keeps (k.same_start ∙ h.same_start) (k.same_id ∙ h.same_id) (k.same_attempts ∙ h.same_attempts)
      (k.same_deferrals ∙ h.same_deferrals) k.sound

pub take_lease-Keeps :
    (now : ℕ) (input : ClaimInput) (s : StepRow)
    → claimable now s ≡ true
    → IsSound s
    → Keeps s (take_lease now input s)
unfolding take_lease claimable
take_lease-Keeps now input s c h = keeps refl refl refl refl (record {
  some_attempts = h.some_attempts;
  some_deferrals = h.some_deferrals;
  attempts_within = h.attempts_within;
  deferrals_within = h.deferrals_within;
  budget = ground (arith, h.budget);
  lease = refl;
  worker = refl;
})

pub succeed-Keeps :
    (now : ℕ) (output : Option Json) (s : StepRow) → IsSound s → Keeps s (succeed now output s)
unfolding succeed
succeed-Keeps now output s h = keeps refl refl refl refl (record {
  some_attempts = h.some_attempts;
  some_deferrals = h.some_deferrals;
  attempts_within = h.attempts_within;
  deferrals_within = h.deferrals_within;
  budget = refl;
  lease = refl;
  worker = refl;
})

-- What a recorded failure leaves open, it leaves with budget.
pub record IsFair (f : FailureRecord) (s : StepRow) : Type 0 where
  pub attempts_within : f.attempts_consumed ≤ s.max_attempts
  pub deferrals_within : f.deferrals ≤ s.max_deferrals
  pub closed_or_budget :
      ((is_none f.retry_delay_ms || not (is_failed f.status))
        || (ltb f.attempts_consumed s.max_attempts && ltb f.deferrals s.max_deferrals))
      ≡ true
  pub not_running : is_running f.status ≡ false
  pub not_pending : is_pending f.status ≡ false

pub fail-Keeps :
    (now : ℕ) (f : FailureRecord) (s : StepRow) → IsFair f s → IsSound s → Keeps s (fail now f s)
unfolding fail
fail-Keeps now f s k h = keeps refl refl refl refl (record {
  some_attempts = h.some_attempts;
  some_deferrals = h.some_deferrals;
  attempts_within = k.attempts_within;
  deferrals_within = k.deferrals_within;
  budget = ground (arith, k.closed_or_budget, k.not_running, k.not_pending);
  lease = ground (arith, k.not_running);
  worker = ground (arith, k.not_running);
})

pub skip-Keeps :
    (now : ℕ) (reason : String) (s : StepRow)
    → is_pending s.status ≡ true
    → IsSound s
    → Keeps s (skip now reason s)
unfolding skip
skip-Keeps now reason s p h = keeps refl refl refl refl (record {
  some_attempts = h.some_attempts;
  some_deferrals = h.some_deferrals;
  attempts_within = h.attempts_within;
  deferrals_within = h.deferrals_within;
  budget = refl;
  lease = ground (arith, h.lease);
  worker = refl;
})

pub preserve-Keeps : (s : StepRow) → IsSound s → Keeps s (preserve s)
unfolding preserve
preserve-Keeps s h = keeps refl refl refl refl (record {
  some_attempts = h.some_attempts;
  some_deferrals = h.some_deferrals;
  attempts_within = h.attempts_within;
  deferrals_within = h.deferrals_within;
  budget = refl;
  lease = refl;
  worker = refl;
})

pub renew-Keeps : (key : String) (s : StepRow) → IsSound s → Keeps s (renew key s)
unfolding renew
renew-Keeps key s h = keeps refl refl refl refl (record {
  some_attempts = h.some_attempts;
  some_deferrals = h.some_deferrals;
  attempts_within = omega arith;
  deferrals_within = omega arith;
  budget = ground (arith, h.some_attempts, h.some_deferrals);
  lease = refl;
  worker = refl;
})

pub extend-Keeps :
    (until : ℕ) (h : Holder) (s : StepRow)
    → held_by h s ≡ true
    → IsSound s
    → Keeps s (record s { lease_expires_at = some until })
extend-Keeps until h s held sound = keeps refl refl refl refl (record {
  some_attempts = sound.some_attempts;
  some_deferrals = sound.some_deferrals;
  attempts_within = sound.attempts_within;
  deferrals_within = sound.deferrals_within;
  budget = sound.budget;
  lease = ground arith;
  worker = sound.worker;
})
