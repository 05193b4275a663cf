-- ===== src/WebhookGate/Slack.antt =====
-- packages/automa-webhook-gate/src/verify/slack.ts. The HMAC is a parameter.
use automa_build.Prelude.{
  ℕ, not, Option, none, some, List, [], ◌∷◌, ◌++◌, map, if◌then◌else◌, Text, units, starts, drop,
  get_or, number, all_digits,
}
use automa_build.WebhookGate.Common.{
  VerificationResult, verified, failed, VerifyInput, header, preflight, check_tolerance,
  match_any_signature, in_time, out_of_time, range_error, default_tolerance_seconds,
  missing_signature, missing_timestamp, malformed_timestamp, unsupported_algorithm,
  signature_mismatch,
}

module _ (hmac : Text → Text → Text) where
  -- the signatures of the secrets over `v0:`, the timestamp as it was sent, and the body
  slack_candidates : VerifyInput → Text → List Text
  unfolding units
  slack_candidates input raw_timestamp =
      map (λ secret. hmac secret (units "v0:" ++ (raw_timestamp ++ b':' ∷ input.raw_body)))
        input.secrets

  match_slack : VerifyInput → Text → Text → Option ℕ → Option VerificationResult
  unfolding slack_candidates match_any_signature
  match_slack input raw_timestamp signature date =
      elim (match_any_signature (slack_candidates input raw_timestamp) (signature ∷ [])) [
        | none ↦ some (failed signature_mismatch)
        | some index ↦ some (verified signature date index)
      ]

  -- the timestamp and the signature after its prefix
  check_slack_time : VerifyInput → Text → Option VerificationResult
  unfolding header check_tolerance match_slack units number
  check_slack_time input signature =
      elim (header input.headers (units "x-slack-request-timestamp")) [
        | none ↦ some (failed missing_timestamp)
        | some raw_timestamp ↦
            if not (all_digits raw_timestamp)
            then some (failed malformed_timestamp)
            else elim (check_tolerance (number 10 0 raw_timestamp)
                (get_or input.tolerance_seconds default_tolerance_seconds) input.now) [
                  | range_error ↦ none
                  | out_of_time reason ↦ some (failed reason)
                  | in_time date ↦ match_slack input raw_timestamp signature date
                ]
      ]

  unfoldable pub verify_slack : VerifyInput → Option VerificationResult
  unfolding preflight header check_slack_time units
  verify_slack input = elim (preflight input) [
    | some reason ↦ some (failed reason)
    | none ↦ elim (header input.headers (units "x-slack-signature")) [
      | none ↦ some (failed missing_signature)
      | some presented ↦
          if not (starts (units "v0=") presented)
          then some (failed unsupported_algorithm)
          else check_slack_time input (drop 3 presented)
    ]
  ]
