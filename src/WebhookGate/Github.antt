-- ===== src/WebhookGate/Github.antt =====
-- packages/automa-webhook-gate/src/verify/github.ts. The HMAC is a parameter.
pub mod Key
use automa_build.Prelude.{
  Bool, false, not, none, some, List, [], ◌∷◌, map, if◌then◌else◌, Text, units, starts, drop,
  length, ◌==◌, is_some,
}
use automa_build.WebhookGate.Common.{
  VerificationFailure, VerificationResult, verified, failed, VerifyInput, header, preflight,
  match_any_signature, missing_signature, missing_timestamp, unsupported_algorithm,
  signature_mismatch,
}
use automa_build.WebhookGate.Stripe.{nth}

-- `x-github-delivery`, present and not empty
unfoldable pub has_delivery_id : VerifyInput → Bool
unfolding header units
has_delivery_id input = elim (header input.headers (units "x-github-delivery")) [
  | none ↦ false
  | some id ↦ not (length id == 0)
]

-- no SHA-256 signature: the reason depends on whether a SHA-1 one was sent
unfoldable pub without_sha256 : VerifyInput → VerificationFailure
unfolding header units
without_sha256 input =
    if is_some (header input.headers (units "x-hub-signature"))
    then unsupported_algorithm
    else missing_signature

module _ (hmac : Text → Text → Text) where
  -- the signatures of the secrets over the body alone
  unfoldable pub body_signatures : VerifyInput → List Text
  body_signatures input = map (λ secret. hmac secret input.raw_body) input.secrets

  unfoldable pub match_github : VerifyInput → Text → VerificationResult
  unfolding body_signatures match_any_signature nth
  match_github input signature =
      elim (match_any_signature (body_signatures input) (signature ∷ [])) [
        | none ↦ failed signature_mismatch
        | some index ↦ verified (nth (body_signatures input) index) none index
      ]

  unfoldable pub verify_github : VerifyInput → VerificationResult
  unfolding preflight header has_delivery_id without_sha256 match_github units
  verify_github input = elim (preflight input) [
    | some reason ↦ failed reason
    | none ↦ elim (header input.headers (units "x-hub-signature-256")) [
      | none ↦ failed (without_sha256 input)
      | some presented ↦
          if not (starts (units "sha256=") presented)
          then failed unsupported_algorithm
          else if not (has_delivery_id input)
          then failed missing_timestamp
          else match_github input (drop (length (units "sha256=")) presented)
    ]
  ]
