-- ===== src/Runner/Retry/Budget.antt =====
-- What one failure does to a step's budget, and how long it waits (src/retry.ts, `onAttemptFailed`).
use automa_build.Prelude.{ℕ, suc, ◌+◌, ◌≤◌, ◌<◌, ◌≡◌, ◌⊎◌, Bool, Option, arith}
use automa_build.Runner.ErrorClasses.{ErrorClass, transient_network}
use automa_build.Runner.Backoff.{BackoffPolicy, Random}
use automa_build.Runner.Retry.{
  StepRetryState, AttemptFailure, RetryOutcome, retry, exhausted, terminal, on_attempt_failed,
}

-- Room for at least one more failure of either kind.
pub record HasBudget (policy : BackoffPolicy) (s : StepRetryState) : Type 0 where
  pub attempts_left : s.attempts_consumed < policy.max_attempts
  pub deferrals_left : s.deferrals < policy.max_deferrals

-- Both counters are within their limits.
pub record WithinLimits (policy : BackoffPolicy) (s : StepRetryState) : Type 0 where
  pub attempts_within : s.attempts_consumed ≤ policy.max_attempts
  pub deferrals_within : s.deferrals ≤ policy.max_deferrals

-- What each outcome says of the counters, from the state before the failure.
abbrev pub Accounts : BackoffPolicy → StepRetryState → RetryOutcome → Type 0
Accounts policy s (retry at delay source next reason) =
    HasBudget policy next
    × (next.attempts_consumed + next.deferrals ≡ suc (s.attempts_consumed + s.deferrals))
    × (s.attempts_consumed ≤ next.attempts_consumed)
    × (s.deferrals ≤ next.deferrals)
Accounts policy s (exhausted next why) =
    WithinLimits policy next
    × ((next.attempts_consumed ≡ policy.max_attempts) × (next.deferrals ≡ s.deferrals)
        ⊎ (next.deferrals ≡ policy.max_deferrals) × (next.attempts_consumed ≡ s.attempts_consumed))
Accounts policy s (terminal action next reason) = next ≡ s

accounts :
    (c : ErrorClass) (idempotent : Bool) (asked : Option ℕ) (s : StepRetryState) (now : ℕ)
    (random : Random) (policy : BackoffPolicy)
    → HasBudget policy s
    → Accounts policy s (
        on_attempt_failed s
          (record { error_class = c; idempotent = idempotent; retry_after_ms = asked })
          now
          random
          policy)
unfolding on_attempt_failed
accounts transient_network i asked s now random policy h = ground arith
accounts _ i asked s now random policy h = ground arith

-- From a state with budget left: a retry has charged exactly one counter by one and leaves budget in
-- both; an exhausted step has used up exactly one counter, to its limit, and left the other alone;
-- a terminal failure charges nothing.
pub on_attempt_failed-Accounts :
    (s : StepRetryState) (failure : AttemptFailure) (now : ℕ) (random : Random)
    (policy : BackoffPolicy)
    → HasBudget policy s
    → Accounts policy s (on_attempt_failed s failure now random policy)
unfolding on_attempt_failed
on_attempt_failed-Accounts s failure now random policy h =
    accounts failure.error_class failure.idempotent failure.retry_after_ms s now random policy h
