-- ===== src/Runner/Retry.antt =====
-- packages/automa-durable-runner/src/retry.ts
pub mod Budget
pub mod Ladder
use automa_build.Prelude.{
  ℕ, ◌+◌, max, Bool, ◌&&◌, not, Option, none, some, List, [], ◌∷◌, leb, ◌==◌, get_or, if◌then◌else◌,
}
use automa_build.Runner.ErrorClasses.{ErrorClass, ErrorAction, Reason, RetryDecision, decide_retry}
use automa_build.Runner.Backoff.{
  BackoffPolicy, default_backoff, DelaySource, Random, compute_retry_delay, attempts_remaining,
}

pub record StepRetryState : Type 0 where
  pub attempts_started : ℕ
  pub attempts_consumed : ℕ
  pub deferrals : ℕ

abbrev pub initial_retry_state : StepRetryState
initial_retry_state = record { attempts_started = 0; attempts_consumed = 0; deferrals = 0 }

-- What the `reason` of an exhausted step is printed from.
pub data Exhaustion : Type 0 where
  attempts : (limit : ℕ) → ErrorClass → Exhaustion
  deferred : (times limit : ℕ) → ErrorClass → Exhaustion

pub data RetryOutcome : Type 0 where
  retry : (next_attempt_at delay_ms : ℕ) → DelaySource → StepRetryState → Reason → RetryOutcome
  exhausted : StepRetryState → Exhaustion → RetryOutcome
  terminal : ErrorAction → StepRetryState → Reason → RetryOutcome

pub record AttemptFailure : Type 0 where
  pub error_class : ErrorClass
  pub idempotent : Bool
  pub retry_after_ms : Option ℕ

abbrev one_if : Bool → ℕ
one_if b = if b then 1 else 0

-- the counters after the failure
unfoldable pub charge : StepRetryState → RetryDecision → StepRetryState
charge s d = record s {
  attempts_consumed = s.attempts_consumed + one_if d.consumes_attempt;
  deferrals = s.deferrals + one_if (d.retry && not d.consumes_attempt);
}

-- The attempt that is passed on is at least 1, so `computeRetryDelay` does not throw.
schedule :
    StepRetryState → AttemptFailure → RetryDecision → ℕ → Random → BackoffPolicy → RetryOutcome
unfolding compute_retry_delay
schedule next failure d now random policy =
    let position = if d.consumes_attempt then next.attempts_consumed else next.deferrals in
    elim (compute_retry_delay (max 1 position) policy random failure.retry_after_ms) [
      | none ↦ terminal d.action next d.reason
      | some delay ↦ retry (now + delay.delay_ms) delay.delay_ms delay.source next d.reason
    ]

unfoldable pub on_attempt_failed :
    StepRetryState → AttemptFailure → ℕ → Random → BackoffPolicy → RetryOutcome
unfolding decide_retry charge schedule attempts_remaining
on_attempt_failed s failure now random policy =
    let d = decide_retry failure.error_class failure.idempotent in
    let next = charge s d in
    if not d.retry
    then terminal d.action next d.reason
    else if d.consumes_attempt && attempts_remaining next.attempts_consumed policy == 0
    then exhausted next (attempts policy.max_attempts failure.error_class)
    else if not d.consumes_attempt && leb policy.max_deferrals next.deferrals
    then exhausted next (deferred next.deferrals policy.max_deferrals failure.error_class)
    else schedule next failure d now random policy

unfoldable pub on_attempt_started : StepRetryState → StepRetryState
on_attempt_started s = record s { attempts_started = s.attempts_started + 1 }

pub record Simulation : Type 0 where
  pub outcomes : List RetryOutcome
  pub final_state : StepRetryState
  pub total_delay_ms : ℕ

-- The end of one round of the loop: a retry goes on, anything else breaks.
pub after : RetryOutcome → ℕ → (StepRetryState → (now delay_ms : ℕ) → Simulation) → Simulation
after (retry at delay source next reason) total go =
    let l = go next at delay in
    record l { outcomes = retry at delay source next reason ∷ l.outcomes }
after (exhausted s why) total go = record {
  outcomes = exhausted s why ∷ [];
  final_state = s;
  total_delay_ms = total;
}
after (terminal action s why) total go = record {
  outcomes = terminal action s why ∷ [];
  final_state = s;
  total_delay_ms = total;
}

-- `random i` is the source's i-th call of `random`; each retry makes one call.
pub simulate_from :
    List AttemptFailure → StepRetryState → ℕ → ℕ → ℕ → (ℕ → Random) → BackoffPolicy → Simulation
unfolding after
simulate_from [] s now total calls random policy = record {
  outcomes = [];
  final_state = s;
  total_delay_ms = total;
}
simulate_from (failure ∷ rest) s now total calls random policy =
    after (on_attempt_failed (on_attempt_started s) failure now (random calls) policy) total
      λ next at delay. simulate_from rest next at (total + delay) (calls + 1) random policy

unfoldable pub simulate_ladder :
    List AttemptFailure → (ℕ → Random) → Option BackoffPolicy → Option ℕ → Simulation
unfolding simulate_from
simulate_ladder failures random policy start_at =
    simulate_from failures initial_retry_state (get_or start_at 0) 0 0 random
      (get_or policy default_backoff)
