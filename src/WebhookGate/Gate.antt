-- ===== src/WebhookGate/Gate.antt =====
-- packages/automa-webhook-gate/src/gate.ts. The verifiers of the schemes and the store are arguments;
-- `none` is the RangeError that is thrown.
pub mod Admission
pub mod Once
use automa_build.Prelude.{
  ℕ, Bool, false, not, Option, none, some, List, [], ◌∷◌, ltb, if◌then◌else◌, Text, units, has_text,
  upper, get_or,
}
use automa_build.WebhookGate.Common.{
  VerificationFailure, VerificationResult, verified, failed, VerifyInput, HeaderField,
  body_too_large, timestamp_outside_tolerance, malformed_timestamp, missing_timestamp,
  default_tolerance_seconds, default_max_body_bytes,
}
use automa_build.WebhookGate.Store.{
  DeliveryOutcome, DeliveryOutcome.accepted, rejected_signature, rejected_size, rejected_timestamp,
  ReplayStore,
}

pub data Scheme : Type 0 where
  stripe github slack standard tally hubspot token : Scheme

pub record EndpointConfig : Type 0 where
  pub endpoint_id : Text
  pub scheme : Scheme
  pub secrets : List Text
  pub tolerance_seconds : Option ℕ
  pub max_body_bytes : Option ℕ

pub record GateRequest : Type 0 where
  pub raw_body : Text
  pub headers : List HeaderField
  pub method : Option Text
  pub url : Option Text
  pub now : ℕ

pub data RejectReason : Type 0 where
  bad_method : Text → RejectReason
  bad_delivery : VerificationFailure → RejectReason

pub data GateResult : Type 0 where
  let_through : (dedup_key : Text) (timestamp : Option ℕ) (secret_index : ℕ) → GateResult
  seen_before : (dedup_key : Text) (originally_at : Option ℕ) → GateResult
  turned_away : (status : ℕ) (outcome : DeliveryOutcome) (reason : RejectReason) → GateResult

-- the answer to a delivery that does not verify
unfoldable pub refusal_of : VerificationFailure → GateResult
refusal_of body_too_large = turned_away 413 rejected_size (bad_delivery body_too_large)
refusal_of timestamp_outside_tolerance =
    turned_away 400 rejected_timestamp (bad_delivery timestamp_outside_tolerance)
refusal_of malformed_timestamp =
    turned_away 400 rejected_timestamp (bad_delivery malformed_timestamp)
refusal_of missing_timestamp = turned_away 400 rejected_timestamp (bad_delivery missing_timestamp)
refusal_of reason = turned_away 401 rejected_signature (bad_delivery reason)

unfoldable pub is_allowed_method : Text → Bool
unfolding units
is_allowed_method method = has_text (units "POST" ∷ units "PUT" ∷ []) method

-- `assertRetentionCoversTolerance`, where the retention is known
unfoldable pub forgets_too_soon : Option ℕ → ℕ → Bool
forgets_too_soon none tolerance = false
forgets_too_soon (some retention) tolerance = ltb retention tolerance

unfoldable pub tolerance_of : EndpointConfig → ℕ
tolerance_of endpoint = get_or endpoint.tolerance_seconds default_tolerance_seconds

unfoldable pub input_of : EndpointConfig → GateRequest → VerifyInput
unfolding tolerance_of
input_of endpoint request = record {
  raw_body = request.raw_body;
  headers = request.headers;
  secrets = endpoint.secrets;
  tolerance_seconds = some (tolerance_of endpoint);
  max_body_bytes = some (get_or endpoint.max_body_bytes default_max_body_bytes);
  now = request.now;
  method = request.method;
  url = request.url;
}

unfoldable pub method_of : GateRequest → Text
unfolding upper units
method_of request = upper (get_or request.method (units "POST"))

module _ {S : Type 0} (store : ReplayStore S) (retention_seconds : Option ℕ)
    (verifiers : Scheme → VerifyInput → Option VerificationResult) where
  -- the record of a delivery that verifies, and the answer
  unfoldable pub admit :
      S → EndpointConfig → GateRequest → Text → Option ℕ → ℕ → Option GateResult × S
  admit s endpoint request dedup_key timestamp secret_index =
      let (seen, after) = store.remember s (record {
        endpoint_id = endpoint.endpoint_id;
        dedup_key = dedup_key;
        outcome = DeliveryOutcome.accepted;
        received_at = request.now;
      }) in
      if not seen.first
      then (some (seen_before dedup_key seen.originally_at), after)
      else (some (let_through dedup_key timestamp secret_index), after)

  unfoldable pub gate : S → EndpointConfig → GateRequest → Option GateResult × S
  unfolding admit input_of is_allowed_method forgets_too_soon tolerance_of method_of refusal_of
  gate s endpoint request =
      if forgets_too_soon retention_seconds (tolerance_of endpoint)
      then (none, s)
      else if not (is_allowed_method (method_of request))
      then (some (turned_away 405 rejected_signature (bad_method (method_of request))), s)
      else elim (verifiers endpoint.scheme (input_of endpoint request)) [
        | none ↦ (none, s)
        | some (failed reason) ↦ (some (refusal_of reason), s)
        | some (verified dedup_key timestamp secret_index) ↦
            admit s endpoint request dedup_key timestamp secret_index
      ]
