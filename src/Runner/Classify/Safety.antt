-- ===== src/Runner/Classify/Safety.antt =====
-- Which failures of a call that must not be repeated lead to another attempt (src/classify.ts with
-- src/error-classes.ts and src/retry.ts).
use automa_build.Prelude.{ℕ, suc, ◌<◌, ◌≡◌, ◌⊎◌, true, false, Option, none, some, arith}
use automa_build.Runner.ErrorClasses.{
  decide_retry, internal, timeout, pause_for_confirmation, escalated,
}
use automa_build.Runner.Backoff.{BackoffPolicy, Random}
use automa_build.Runner.Retry.{StepRetryState, RetryOutcome, retry, terminal, on_attempt_failed}
use automa_build.Runner.Classify.{FailureFacts, classify, is_transient_code}

-- A request that was written to the socket and got no answer, with an error code of the transient
-- list or our own deadline as the only other news.
pub record IsLostResponse (f : FailureFacts) : Type 0 where
  pub no_status : f.http_status ≡ none
  pub sent : f.request_sent ≡ true
  pub unanswered : f.response_received ≡ false
  pub not_broken : f.deterministically_broken ≡ false
  pub not_ours : f.internal ≡ false
  pub recognised : (f.deadline_exceeded ≡ true) ⊎ (is_transient_code f.code ≡ true)

-- Where a request was sent and got no answer, with our own deadline or a code of the transient
-- list to say so and nothing else, a call that is not idempotent is not retried: the step stops
-- for a confirmation and its counters stay as they are.
pub lost_response_pauses :
    (f : FailureFacts) (s : StepRetryState) (asked : Option ℕ) (now : ℕ) (random : Random)
    (policy : BackoffPolicy)
    → IsLostResponse f
    → on_attempt_failed s
        (record { error_class = classify f; idempotent = false; retry_after_ms = asked })
        now
        random
        policy
      ≡ terminal pause_for_confirmation s (escalated timeout)
unfolding classify on_attempt_failed
lost_response_pauses f s asked now random policy h = ground arith

-- A request that was written to the socket and got no answer, with nothing that says why but a code
-- that is not on the list of transient ones.
pub record IsUnlisted (f : FailureFacts) : Type 0 where
  pub no_status : f.http_status ≡ none
  pub sent : f.request_sent ≡ true
  pub unanswered : f.response_received ≡ false
  pub not_broken : f.deterministically_broken ≡ false
  pub not_late : f.deadline_exceeded ≡ false
  pub unlisted : is_transient_code f.code ≡ false

-- another attempt, that has charged one of the step's attempts
abbrev pub IsRetry : StepRetryState → RetryOutcome → Type 0
IsRetry s (retry at delay source next reason) = next.attempts_consumed ≡ suc s.attempts_consumed
IsRetry s outcome = ⊥

-- Where a request was sent and got no answer, before our own deadline and with a code that is not
-- on the transient list, or none, even a call that is not idempotent is retried, at the cost of an
-- attempt, as long as one is left after it.
pub unlisted_code_retries :
    (f : FailureFacts) (s : StepRetryState) (asked : Option ℕ) (now : ℕ) (random : Random)
    (policy : BackoffPolicy)
    → IsUnlisted f
    → suc s.attempts_consumed < policy.max_attempts
    → IsRetry s (
        on_attempt_failed s
          (record { error_class = classify f; idempotent = false; retry_after_ms = asked })
          now
          random
          policy)
unfolding classify on_attempt_failed
unlisted_code_retries f s asked now random policy h left =
    let c : classify f ≡ internal = ground arith in ground (arith, c)

-- Where a call that is not idempotent is tried again, the failure was answered with 401, 403 or 429,
-- or the request never left without an answer coming back, or it is put down to our own code.
pub retry_needs_reason :
    (f : FailureFacts)
    → (decide_retry (classify f) false).retry ≡ true
    → (f.http_status ≡ some 401)
      ⊎ ((f.http_status ≡ some 403)
          ⊎ ((f.http_status ≡ some 429)
              ⊎ ((classify f ≡ internal)
                  ⊎ ((f.http_status ≡ none)
                      × ((f.request_sent ≡ false) ⊎ (f.response_received ≡ true))))))
unfolding classify decide_retry
retry_needs_reason f h = ground arith
