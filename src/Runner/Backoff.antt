-- ===== src/Runner/Backoff.antt =====
-- packages/automa-durable-runner/src/backoff.ts
-- Counts and milliseconds are natural numbers. `random() * window`, rounded down, is one argument,
-- `scaled`: the source's random number is a float in [0, 1).
pub mod Bounds
use automa_build.Prelude.{
  ℕ, zero, suc, ◌+◌, ◌-◌, ◌*◌, ◌^◌, ◌≤◌, min, ◌&&◌, Option, none, some, ltb, leb, if◌then◌else◌,
}

pub record BackoffPolicy : Type 0 where
  pub base_ms : ℕ
  pub cap_ms : ℕ
  pub max_attempts : ℕ
  pub max_deferrals : ℕ

abbrev pub default_backoff : BackoffPolicy
default_backoff = record { base_ms = 1_000; cap_ms = 900_000; max_attempts = 5; max_deferrals = 20 }

-- `none` is the RangeError on an attempt below 1
unfoldable pub backoff_window_ms : ℕ → BackoffPolicy → Option ℕ
backoff_window_ms attempt policy =
    if ltb attempt 1
    then none
    else some (min policy.cap_ms (policy.base_ms * 2 ^ min (attempt - 1) 30))

pub data DelaySource : Type 0 where
  jitter retry_after retry_after_clamped : DelaySource

pub record RetryDelay : Type 0 where
  pub delay_ms : ℕ
  pub source : DelaySource

-- A random source, as `Math.floor(random() * window)` uses it.
abbrev pub Random : Type 0
Random = ℕ → ℕ

-- What the contract of `Random`, a float in [0, 1), gives for a product rounded down.
abbrev pub IsRandom : Random → Type 0
IsRandom r = (window : ℕ) → r window ≤ window

-- the part of `computeRetryDelay` below the jitter
choose_delay : BackoffPolicy → ℕ → Option ℕ → RetryDelay
choose_delay policy jittered none = record { delay_ms = jittered; source = jitter }
choose_delay policy jittered (some asked) =
    if ltb 0 asked && ltb policy.cap_ms asked
    then record { delay_ms = policy.cap_ms; source = retry_after_clamped }
    else if ltb 0 asked && ltb jittered asked
    then record { delay_ms = asked; source = retry_after }
    else record { delay_ms = jittered; source = jitter }

unfoldable pub compute_retry_delay : ℕ → BackoffPolicy → Random → Option ℕ → Option RetryDelay
unfolding backoff_window_ms choose_delay
compute_retry_delay attempt policy random asked = elim (backoff_window_ms attempt policy) [
  | none ↦ none
  | some window ↦ some (choose_delay policy (random window) asked)
]

unfoldable pub attempts_remaining : ℕ → BackoffPolicy → ℕ
attempts_remaining attempts_consumed policy = policy.max_attempts - attempts_consumed

-- the loop of `worstCaseLadderMs`: `rounds` attempts are left, the first of them `attempt`
pub ladder_from : ℕ → ℕ → BackoffPolicy → ℕ → ℕ
unfolding backoff_window_ms
ladder_from zero attempt policy total = total
ladder_from (suc rounds) attempt policy total =
    ladder_from rounds (attempt + 1) policy
      (elim (backoff_window_ms attempt policy) [ none ↦ total | some w ↦ total + w ])

unfoldable pub worst_case_ladder_ms : BackoffPolicy → ℕ
unfolding ladder_from
worst_case_ladder_ms policy = ladder_from (policy.max_attempts - 1) 1 policy 0

pub data PolicyError : Type 0 where
  base_not_positive cap_below_base no_attempts no_deferrals : PolicyError

-- `none` where `assertPolicyValid` returns, and otherwise what it throws
unfoldable pub assert_policy_valid : BackoffPolicy → Option PolicyError
assert_policy_valid policy =
    if leb policy.base_ms 0
    then some base_not_positive
    else if ltb policy.cap_ms policy.base_ms
    then some cap_below_base
    else if ltb policy.max_attempts 1
    then some no_attempts
    else if ltb policy.max_deferrals 1
    then some no_deferrals
    else none
