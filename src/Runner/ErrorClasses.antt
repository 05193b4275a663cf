-- ===== src/Runner/ErrorClasses.antt =====
-- packages/automa-durable-runner/src/error-classes.ts
-- The texts of `description` and `reason` are kept as the value that they are printed from.
use automa_build.Prelude.{Bool, true, false, not, ◌&&◌, if◌then◌else◌}

pub data ErrorClass : Type 0 where
  transient_network rate_limited auth_expired auth_broken client_error : ErrorClass
  server_error timeout unknown_outcome internal poison : ErrorClass

pub data Retryability : Type 0 where
  always never conditional : Retryability

pub data ErrorAction : Type 0 where
  backoff respect_retry_after refresh_credentials fail_run fail_step : ErrorAction
  pause_for_confirmation dead_letter : ErrorAction

pub record ErrorClassSpec : Type 0 where
  pub class : ErrorClass
  pub retryable : Retryability
  pub consumes_attempt : Bool
  pub action : ErrorAction
  pub alerts : Bool

spec : ErrorClass → Retryability → Bool → ErrorAction → Bool → ErrorClassSpec
spec c r consumes a alerts = record {
  class = c;
  retryable = r;
  consumes_attempt = consumes;
  action = a;
  alerts = alerts;
}

-- `SPECS`; every class of the type has its row, so `specFor` cannot throw
unfoldable pub spec_for : ErrorClass → ErrorClassSpec
unfolding spec
spec_for transient_network = spec transient_network always true backoff false
spec_for rate_limited = spec rate_limited always false respect_retry_after false
spec_for auth_expired = spec auth_expired always false refresh_credentials false
spec_for auth_broken = spec auth_broken never false fail_run true
spec_for client_error = spec client_error never false fail_step false
spec_for server_error = spec server_error conditional true backoff false
spec_for timeout = spec timeout conditional true backoff false
spec_for unknown_outcome = spec unknown_outcome never false pause_for_confirmation true
spec_for internal = spec internal always true backoff true
spec_for poison = spec poison never false dead_letter true

-- What a `reason` text is made of.
pub data Reason : Type 0 where
  description : ErrorClass → Reason
  escalated : ErrorClass → Reason

pub record RetryDecision : Type 0 where
  pub retry : Bool
  pub consumes_attempt : Bool
  pub action : ErrorAction
  pub reason : Reason

abbrev pub is_conditional : Retryability → Bool
is_conditional conditional = true
is_conditional _ = false

abbrev pub is_never : Retryability → Bool
is_never never = true
is_never _ = false

abbrev is_pause : ErrorAction → Bool
is_pause pause_for_confirmation = true
is_pause _ = false

unfoldable pub decide_retry : ErrorClass → Bool → RetryDecision
unfolding spec_for
decide_retry error_class idempotent =
    let s = spec_for error_class in
    if is_conditional s.retryable && not idempotent
    then record {
      retry = false;
      consumes_attempt = false;
      action = (spec_for unknown_outcome).action;
      reason = escalated error_class;
    }
    else record {
      retry = not (is_never s.retryable);
      consumes_attempt = s.consumes_attempt;
      action = s.action;
      reason = description error_class;
    }

unfoldable pub is_terminal : ErrorClass → Bool
unfolding spec_for
is_terminal error_class =
    is_never (spec_for error_class).retryable && not (is_pause (spec_for error_class).action)
