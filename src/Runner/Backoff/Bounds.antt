-- ===== src/Runner/Backoff/Bounds.antt =====
-- How long a retry waits (src/backoff.ts).
use automa_build.Prelude.{
  ℕ, zero, suc, ◌+◌, ◌*◌, ◌^◌, ◌-◌, ◌≤◌, ◌<◌, ◌≡◌, ap, min, Option, none, some, arith, get_or, ◌∙◌,
}
use automa_build.Runner.Backoff.{
  BackoffPolicy, Random, IsRandom, RetryDelay, jitter, retry_after, backoff_window_ms,
  compute_retry_delay, choose_delay, ladder_from, worst_case_ladder_ms,
}

-- the window of an attempt that is at least 1
abbrev pub window_of : ℕ → BackoffPolicy → ℕ
window_of attempt policy = min policy.cap_ms (policy.base_ms * 2 ^ min (attempt - 1) 30)

pub record IsBounded (attempt : ℕ) (policy : BackoffPolicy) (asked : Option ℕ) (d : RetryDelay)
    : Type 0 where
  pub capped : d.delay_ms ≤ policy.cap_ms
  pub not_below_asked : min (get_or asked 0) policy.cap_ms ≤ d.delay_ms
  pub jitter_within_window : d.source ≡ jitter → d.delay_ms ≤ window_of attempt policy
  pub longer_only_if_asked : d.source ≡ retry_after → asked ≡ some d.delay_ms

choose_delay-IsBounded :
    (attempt : ℕ) (policy : BackoffPolicy) (jittered : ℕ) (asked : Option ℕ)
    → jittered ≤ window_of attempt policy
    → IsBounded attempt policy asked (choose_delay policy jittered asked)
unfolding choose_delay
choose_delay-IsBounded attempt policy jittered none h = ground arith
choose_delay-IsBounded attempt policy jittered (some asked) h = ground arith

-- For an attempt from 1 on, a delay is computed. It never passes the cap, is never below what the
-- provider asked for as far as the cap allows, lies within the attempt's window where it is jitter,
-- and where it is the provider's it is exactly what was asked.
pub compute_retry_delay-IsBounded :
    (attempt : ℕ) (policy : BackoffPolicy) (random : Random) (asked : Option ℕ)
    → 1 ≤ attempt
    → IsRandom random
    → (d : RetryDelay) × (compute_retry_delay attempt policy random asked ≡ some d)
      × IsBounded attempt policy asked d
unfolding compute_retry_delay
compute_retry_delay-IsBounded attempt policy random asked h r = (
  choose_delay policy (random (window_of attempt policy)) asked,
  ground arith,
  choose_delay-IsBounded attempt policy (random (window_of attempt policy)) asked (r _),
)

pub ladder_from-add :
    (rounds attempt : ℕ) (policy : BackoffPolicy) (total : ℕ)
    → ladder_from rounds attempt policy total ≡ total + ladder_from rounds attempt policy 0
unfolding ladder_from
ladder_from-add zero attempt policy total = omega arith
ladder_from-add (suc rounds) attempt policy total = ground (
  arith,
  ladder_from-add rounds (attempt + 1) policy (total + window_of attempt policy),
  ladder_from-add rounds (attempt + 1) policy (window_of attempt policy),
  ladder_from-add rounds (attempt + 1) policy total,
)

-- What is left of the worst case once `c` attempts are consumed.
abbrev pub rest_of_ladder : BackoffPolicy → ℕ → ℕ
rest_of_ladder policy c = ladder_from (policy.max_attempts - 1 - c) (c + 1) policy 0

backoff_window_ms-suc :
    (c : ℕ) (policy : BackoffPolicy)
    → backoff_window_ms (c + 1) policy ≡ some (window_of (c + 1) policy)
unfolding backoff_window_ms
backoff_window_ms-suc c policy = ground arith

ladder_from-suc :
    (rounds c : ℕ) (policy : BackoffPolicy)
    → ladder_from (suc rounds) (c + 1) policy 0
      ≡ window_of (c + 1) policy + ladder_from rounds (c + 1 + 1) policy 0
unfolding ladder_from
ladder_from-suc rounds c policy =
    rw (backoff_window_ms-suc c policy)
      (ladder_from-add rounds (c + 1 + 1) policy (0 + window_of (c + 1) policy) ∙ omega arith)

-- One round of the ladder takes its delay out of what is left of the worst case.
pub rest_of_ladder-step :
    (policy : BackoffPolicy) (c c' delay : ℕ)
    → c' ≡ c + 1
    → c' < policy.max_attempts
    → delay ≤ window_of (c + 1) policy
    → delay + rest_of_ladder policy c' ≤ rest_of_ladder policy c
rest_of_ladder-step policy c c' delay e h k =
    let left : policy.max_attempts - 1 - c ≡ suc (policy.max_attempts - 1 - (c + 1)) =
      omega arith in
    rw (e, left) (omega (arith, ladder_from-suc (policy.max_attempts - 1 - (c + 1)) c policy))

pub worst_case-rest :
    (policy : BackoffPolicy) → worst_case_ladder_ms policy ≡ rest_of_ladder policy 0
unfolding worst_case_ladder_ms
worst_case-rest policy =
    ap (λ (r : ℕ). ladder_from r 1 policy 0) {x = policy.max_attempts - 1}
      {y = policy.max_attempts - 1 - 0} (omega arith)
