-- ===== src/Tests/Retries.antt =====
-- Failures, delays and ladders on concrete inputs.
use automa_build.Prelude.{
  ℕ, ◌+◌, ◌≤◌, ◌<◌, ◌≡◌, ◌⊎◌, refl, inr, true, false, none, some, [], ◌∷◌, arith, length,
}
use automa_build.Runner.ErrorClasses.{
  server_error, rate_limited, timeout, internal, decide_retry, pause_for_confirmation, escalated,
}
use automa_build.Runner.Backoff.{
  default_backoff, assert_policy_valid, IsRandom, RetryDelay, compute_retry_delay,
  worst_case_ladder_ms,
}
use automa_build.Runner.Backoff.Bounds.{IsBounded, compute_retry_delay-IsBounded}
use automa_build.Runner.Timeouts.{
  TimeoutConfig, Number, whole, infinity, not_positive, drain, drain_not_below_grace,
  default_timeouts, as_numbers, timeout_violations, step_deadline, remaining_call_budget_ms,
  remaining_call_budget_ms-fits,
}
use automa_build.Runner.Classify.{FailureFacts, no_facts, classify}
use automa_build.Runner.Classify.Safety.{
  IsRetry, unlisted_code_retries, lost_response_pauses, retry_needs_reason,
}
use automa_build.Runner.Retry.{
  AttemptFailure, initial_retry_state, on_attempt_failed, terminal, simulate_ladder,
}
use automa_build.Runner.Retry.Budget.{Accounts, on_attempt_failed-Accounts}
use automa_build.Runner.Retry.Ladder.{simulate_ladder-length, simulate_ladder-worst_case}

abbrev full : ℕ → ℕ
full window = window

full-IsRandom : IsRandom full
full-IsRandom window = omega arith

abbrev broken_server : AttemptFailure
broken_server = record { error_class = server_error; idempotent = true; retry_after_ms = none }

abbrev slow_down : AttemptFailure
slow_down = record { error_class = rate_limited; idempotent = false; retry_after_ms = some 5_000 }

default_worst_case : worst_case_ladder_ms default_backoff ≡ 15_000
unfolding worst_case_ladder_ms
default_worst_case = refl

on_attempt_failed-Accounts_example :
    Accounts default_backoff initial_retry_state
      (on_attempt_failed initial_retry_state slow_down 50 full default_backoff)
on_attempt_failed-Accounts_example =
    on_attempt_failed-Accounts initial_retry_state slow_down 50 full default_backoff
      (record { attempts_left = omega arith; deferrals_left = omega arith })

simulate_ladder-length_example :
    length
      (simulate_ladder
        (broken_server ∷ slow_down ∷ broken_server ∷ broken_server ∷ broken_server ∷ broken_server
          ∷ broken_server ∷ [])
        (λ i. full)
        none
        none).outcomes
    < 25
unfolding assert_policy_valid
simulate_ladder-length_example =
    simulate_ladder-length
      (broken_server ∷ slow_down ∷ broken_server ∷ broken_server ∷ broken_server ∷ broken_server
        ∷ broken_server ∷ [])
      (λ i. full) none none refl

simulate_ladder-worst_case_example :
    (simulate_ladder
      (broken_server ∷ broken_server ∷ broken_server ∷ broken_server ∷ [])
      (λ i. full)
      none
      none).total_delay_ms
    ≤ worst_case_ladder_ms default_backoff
unfolding decide_retry
simulate_ladder-worst_case_example =
    simulate_ladder-worst_case (broken_server ∷ broken_server ∷ broken_server ∷ broken_server ∷ [])
      (λ i. full) none none
      ((refl, refl, refl), ((refl, refl, refl), ((refl, refl, refl), ((refl, refl, refl), tt))))
      (λ i. full-IsRandom)

compute_retry_delay-IsBounded_example :
    (d : RetryDelay) × (compute_retry_delay 3 default_backoff full (some 20_000) ≡ some d)
    × IsBounded 3 default_backoff (some 20_000) d
compute_retry_delay-IsBounded_example =
    compute_retry_delay-IsBounded 3 default_backoff full (some 20_000) (omega arith) full-IsRandom

abbrev lost : FailureFacts
lost = record no_facts { code = some "ECONNRESET"; request_sent = true }

lost_response_pauses_example :
    on_attempt_failed initial_retry_state
      (record { error_class = classify lost; idempotent = false; retry_after_ms = none })
      50
      full
      default_backoff
    ≡ terminal pause_for_confirmation initial_retry_state (escalated timeout)
lost_response_pauses_example =
    lost_response_pauses lost initial_retry_state none 50 full default_backoff (record {
      no_status = refl;
      sent = refl;
      unanswered = refl;
      not_broken = refl;
      not_ours = refl;
      recognised = inr refl;
    })

abbrev unlisted : FailureFacts
unlisted = record no_facts { code = some "UND_ERR_BODY_TIMEOUT"; request_sent = true }

unlisted_code_retries_example : IsRetry initial_retry_state (
    on_attempt_failed initial_retry_state
      (record { error_class = classify unlisted; idempotent = false; retry_after_ms = none })
      50
      full
      default_backoff)
unlisted_code_retries_example =
    unlisted_code_retries unlisted initial_retry_state none 50 full default_backoff
      (record {
        no_status = refl;
        sent = refl;
        unanswered = refl;
        not_broken = refl;
        not_late = refl;
        unlisted = refl;
      })
      (omega arith)

abbrev refused : FailureFacts
refused = record no_facts { http_status = some 429; request_sent = true; response_received = true }

retry_needs_reason_example :
    (refused.http_status ≡ some 401)
    ⊎ ((refused.http_status ≡ some 403)
        ⊎ ((refused.http_status ≡ some 429)
            ⊎ ((classify refused ≡ internal)
                ⊎ ((refused.http_status ≡ none)
                    × ((refused.request_sent ≡ false) ⊎ (refused.response_received ≡ true))))))
unfolding classify decide_retry
retry_needs_reason_example = retry_needs_reason refused refl

-- A step may use up the whole drain, and an infinite drain is refused.
abbrev even : TimeoutConfig Number
even = record (as_numbers default_timeouts) { drain_ms = whole 60_000 }

abbrev endless : TimeoutConfig Number
endless = record (as_numbers default_timeouts) { drain_ms = infinity }

step_as_long_as_drain : timeout_violations even ≡ []
unfolding timeout_violations
step_as_long_as_drain = refl

endless_drain :
    timeout_violations endless ≡ not_positive drain infinity ∷ drain_not_below_grace ∷ []
unfolding timeout_violations
endless_drain = refl

remaining_call_budget_ms-fits_example :
    (50_000 + remaining_call_budget_ms 50_000 0 default_timeouts ≤ step_deadline 0 default_timeouts)
    × (remaining_call_budget_ms 50_000 0 default_timeouts ≤ 30_000)
    × (50_000 < step_deadline 0 default_timeouts
        → 0 < remaining_call_budget_ms 50_000 0 default_timeouts)
unfolding timeout_violations step_deadline
remaining_call_budget_ms-fits_example =
    remaining_call_budget_ms-fits 50_000 0 default_timeouts refl (omega arith)
