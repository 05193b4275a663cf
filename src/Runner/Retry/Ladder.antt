-- ===== src/Runner/Retry/Ladder.antt =====
-- Whole ladders of failures (src/retry.ts, `simulateLadder`).
use automa_build.Prelude.{
  ℕ, ◌+◌, ◌≤◌, ◌<◌, ◌≡◌, refl, true, Option, none, List, [], ◌∷◌, arith, length, get_or, All,
}
use automa_build.Runner.ErrorClasses.{Reason, decide_retry}
use automa_build.Runner.Backoff.{
  DelaySource, worst_case_ladder_ms, assert_policy_valid, BackoffPolicy, default_backoff, Random,
  IsRandom,
}
use automa_build.Runner.Backoff.Bounds.{
  window_of, rest_of_ladder, rest_of_ladder-step, worst_case-rest,
}
use automa_build.Runner.Retry.{
  StepRetryState, AttemptFailure, RetryOutcome, retry, exhausted, terminal, on_attempt_started,
  on_attempt_failed, after, simulate_from, simulate_ladder, initial_retry_state, Simulation,
}
use automa_build.Runner.Retry.Budget.{HasBudget, Accounts, on_attempt_failed-Accounts}

-- The failures and the budget already used make up less than the two limits together.
abbrev Fits : BackoffPolicy → StepRetryState → Simulation → Type 0
Fits policy s l =
    length l.outcomes + (s.attempts_consumed + s.deferrals)
    < policy.max_attempts + policy.max_deferrals

after-Fits :
    (o : RetryOutcome) (s : StepRetryState) (total : ℕ) (go : StepRetryState → ℕ → ℕ → Simulation)
    (policy : BackoffPolicy)
    → HasBudget policy s
    → Accounts policy s o
    → ((next : StepRetryState) (now delay : ℕ)
        → HasBudget policy next
        → Fits policy next (go next now delay))
    → Fits policy s (after o total go)
unfolding after
after-Fits (retry at delay source next reason) s total go policy h a k =
    omega (arith, k next at delay a.0)
after-Fits (exhausted next why) s total go policy h a k = omega arith
after-Fits (terminal action next why) s total go policy h a k = omega arith

HasBudget-started :
    {s : StepRetryState} {policy : BackoffPolicy}
    → HasBudget policy s
    → HasBudget policy (on_attempt_started s)
unfolding on_attempt_started
HasBudget-started h = record { attempts_left = h.attempts_left; deferrals_left = h.deferrals_left }

simulate_from-Fits :
    (failures : List AttemptFailure) (s : StepRetryState) (now total calls : ℕ)
    (random : ℕ → Random) (policy : BackoffPolicy)
    → HasBudget policy s
    → Fits policy s (simulate_from failures s now total calls random policy)
unfolding simulate_from on_attempt_started
simulate_from-Fits [] s now total calls random policy h = omega arith
simulate_from-Fits (failure ∷ rest) s now total calls random policy h =
    after-Fits (on_attempt_failed (on_attempt_started s) failure now (random calls) policy)
      (on_attempt_started s) total
      (λ next at delay. simulate_from rest next at (total + delay) (calls + 1) random policy) policy
      (HasBudget-started h)
      (on_attempt_failed-Accounts (on_attempt_started s) failure now (random calls) policy
        (HasBudget-started h))
      (λ next at delay. simulate_from-Fits rest next at (total + delay) (calls + 1) random policy)

simulate_from-bound :
    (failures : List AttemptFailure) (now : ℕ) (random : ℕ → Random) (policy : BackoffPolicy)
    → 0 < policy.max_attempts
    → 0 < policy.max_deferrals
    → length (simulate_from failures initial_retry_state now 0 0 random policy).outcomes
      < policy.max_attempts + policy.max_deferrals
simulate_from-bound failures now random policy h k = omega (
  arith,
  simulate_from-Fits failures initial_retry_state now 0 0 random policy
      (record { attempts_left = h; deferrals_left = k }),
)

-- However the attempts of a step fail, under a policy that `assertPolicyValid` lets through the
-- ladder ends: the number of failures that it takes is below the sum of the two limits.
pub simulate_ladder-length :
    (failures : List AttemptFailure) (random : ℕ → Random) (policy : Option BackoffPolicy)
    (start_at : Option ℕ)
    → assert_policy_valid (get_or policy default_backoff) ≡ none
    → length (simulate_ladder failures random policy start_at).outcomes
      < (get_or policy default_backoff).max_attempts + (get_or policy default_backoff).max_deferrals
unfolding simulate_ladder assert_policy_valid
simulate_ladder-length failures random policy start_at h =
    simulate_from-bound failures (get_or start_at 0) random (get_or policy default_backoff)
      (ground arith) (ground arith)

-- A failure that costs an attempt and comes with no Retry-After.
abbrev pub IsOrdinary : AttemptFailure → Type 0
IsOrdinary failure =
    let d = decide_retry failure.error_class failure.idempotent in
    (d.retry ≡ true) × (d.consumes_attempt ≡ true) × (failure.retry_after_ms ≡ none)

on_attempt_failed-ordinary :
    (s : StepRetryState) (failure : AttemptFailure) (now : ℕ) (random : Random)
    (policy : BackoffPolicy) {at delay : ℕ} {source : DelaySource} {next : StepRetryState}
    {reason : Reason}
    → IsOrdinary failure
    → IsRandom random
    → on_attempt_failed s failure now random policy ≡ retry at delay source next reason
    → (next.attempts_consumed ≡ s.attempts_consumed + 1)
      × (next.attempts_consumed < policy.max_attempts)
      × (delay ≤ window_of (s.attempts_consumed + 1) policy)
unfolding on_attempt_failed
on_attempt_failed-ordinary s failure now random policy h r e =
    ground (arith, r (window_of (s.attempts_consumed + 1) policy))

-- What one more round adds to the total delay.
after-delay :
    (o : RetryOutcome) (c total : ℕ) (go : StepRetryState → ℕ → ℕ → Simulation)
    (policy : BackoffPolicy)
    → ((at delay : ℕ) (source : DelaySource) (next : StepRetryState) (reason : Reason)
        → o ≡ retry at delay source next reason
        → (go next at delay).total_delay_ms ≤ total + rest_of_ladder policy c)
    → (after o total go).total_delay_ms ≤ total + rest_of_ladder policy c
unfolding after
after-delay (retry at delay source next reason) c total go policy k =
    k at delay source next reason refl
after-delay (exhausted next why) c total go policy k = omega arith
after-delay (terminal action next why) c total go policy k = omega arith

simulate_from-delay :
    (failures : List AttemptFailure) (s : StepRetryState) (now total calls : ℕ)
    (random : ℕ → Random) (policy : BackoffPolicy)
    → All IsOrdinary failures
    → ((i : ℕ) → IsRandom (random i))
    → (simulate_from failures s now total calls random policy).total_delay_ms
      ≤ total + rest_of_ladder policy s.attempts_consumed
unfolding simulate_from on_attempt_started
simulate_from-delay [] s now total calls random policy h r = omega arith
simulate_from-delay (failure ∷ rest) s now total calls random policy h r =
    after-delay (on_attempt_failed (on_attempt_started s) failure now (random calls) policy)
      s.attempts_consumed total
      (λ next at delay. simulate_from rest next at (total + delay) (calls + 1) random policy) policy
      λ at delay source next reason e.
        let step =
          on_attempt_failed-ordinary (on_attempt_started s) failure now (random calls) policy h.0
            (r calls) e in
        omega (
          arith,
          rest_of_ladder-step policy s.attempts_consumed next.attempts_consumed delay step.0 step.1
              step.2,
          simulate_from-delay rest next at (total + delay) (calls + 1) random policy h.1 r,
        )

-- With real failures only, and no Retry-After, the ladder waits no longer than `worstCaseLadderMs`
-- says, whatever the random numbers are.
pub simulate_ladder-worst_case :
    (failures : List AttemptFailure) (random : ℕ → Random) (policy : Option BackoffPolicy)
    (start_at : Option ℕ)
    → All IsOrdinary failures
    → ((i : ℕ) → IsRandom (random i))
    → (simulate_ladder failures random policy start_at).total_delay_ms
      ≤ worst_case_ladder_ms (get_or policy default_backoff)
unfolding simulate_ladder
simulate_ladder-worst_case failures random policy start_at h r = omega (
  arith,
  worst_case-rest (get_or policy default_backoff),
  simulate_from-delay failures initial_retry_state (get_or start_at 0) 0 0 random
      (get_or policy default_backoff) h r,
)
