-- ===== src/WebhookGate/Stripe.antt =====
-- packages/automa-webhook-gate/src/verify/stripe.ts. The HMAC is a parameter; a timestamp is a whole
-- number, without the rounding of large ones to a double.
pub mod Key
use automa_build.Prelude.{
  ℕ, zero, suc, Option, none, some, List, [], ◌∷◌, ◌++◌, map, ◌==◌, if◌then◌else◌, Text, units,
  text_eq, split, get_or, show_number, number, all_digits, trim,
}
use automa_build.WebhookGate.Common.{
  VerificationResult, verified, failed, VerifyInput, header, preflight, check_tolerance,
  match_any_signature, in_time, out_of_time, range_error, default_tolerance_seconds,
  missing_signature, malformed_signature, signature_mismatch,
}

pub record StripeSignatureHeader : Type 0 where
  pub timestamp : Option ℕ
  pub v1 : List Text

-- the parts before and after the first `=`
cut_equals : Text → Option (Text × Text)
cut_equals [] = none
cut_equals (c ∷ cs) =
    if c == b'='
    then some ([], cs)
    else elim (cut_equals cs) [ none ↦ none | some (key, item) ↦ some (c ∷ key, item) ]

-- one part, put into what the parts before it gave; `none` is the early return
unfoldable pub read_part : StripeSignatureHeader → Text → Option StripeSignatureHeader
unfolding cut_equals trim number units
read_part h part = elim (cut_equals part) [
  | none ↦ none
  | some (before, after) ↦
      let key = trim before in
      let item = trim after in
      if text_eq key (units "t")
      then if all_digits item
        then some (record { timestamp = some (number 10 0 item); v1 = h.v1 })
        else none
      else if text_eq key (units "v1")
      then some (record { timestamp = h.timestamp; v1 = h.v1 ++ item ∷ [] })
      else some h
]

unfoldable pub read_parts : StripeSignatureHeader → List Text → Option StripeSignatureHeader
unfolding read_part
read_parts h [] = some h
read_parts h (part ∷ parts) = elim (read_part h part) [
  | none ↦ none
  | some next ↦ read_parts next parts
]

-- A header without a timestamp or without a signature is none.
unfoldable pub parse_stripe_signature : Text → Option (ℕ × List Text)
unfolding read_parts split
parse_stripe_signature value =
    elim (read_parts (record { timestamp = none; v1 = [] }) (split b',' value)) [
      | none ↦ none
      | some h ↦ elim h.timestamp [
        | none ↦ none
        | some timestamp ↦ elim h.v1 [ [] ↦ none | first ∷ more ↦ some (timestamp, first ∷ more) ]
      ]
    ]

-- `${timestamp}.` and the body
unfoldable pub signed_payload : ℕ → Text → Text
unfolding show_number
signed_payload timestamp raw_body = show_number 10 timestamp ++ b'.' ∷ raw_body

-- `candidates[index]`
unfoldable pub nth : List Text → ℕ → Text
nth [] i = []
nth (c ∷ cs) zero = c
nth (c ∷ cs) (suc i) = nth cs i

module _ (hmac : Text → Text → Text) where
  unfoldable pub candidates_for : VerifyInput → ℕ → List Text
  unfolding signed_payload
  candidates_for input timestamp =
      map (λ secret. hmac secret (signed_payload timestamp input.raw_body)) input.secrets

  -- the signatures of the header, once its timestamp has passed
  unfoldable pub match_stripe : VerifyInput → ℕ → List Text → Option ℕ → Option VerificationResult
  unfolding candidates_for match_any_signature nth
  match_stripe input timestamp presented date =
      elim (match_any_signature (candidates_for input timestamp) presented) [
        | none ↦ some (failed signature_mismatch)
        | some index ↦ some (verified (nth (candidates_for input timestamp) index) date index)
      ]

  -- `none` is the RangeError of a tolerance of zero.
  unfoldable pub verify_stripe : VerifyInput → Option VerificationResult
  unfolding preflight header parse_stripe_signature check_tolerance match_stripe units
  verify_stripe input = elim (preflight input) [
    | some reason ↦ some (failed reason)
    | none ↦ elim (header input.headers (units "stripe-signature")) [
      | none ↦ some (failed missing_signature)
      | some raw ↦ elim (parse_stripe_signature raw) [
        | none ↦ some (failed malformed_signature)
        | some (timestamp, presented) ↦
            elim (check_tolerance timestamp
              (get_or input.tolerance_seconds default_tolerance_seconds) input.now) [
                | range_error ↦ none
                | out_of_time reason ↦ some (failed reason)
                | in_time date ↦ match_stripe input timestamp presented date
              ]
      ]
    ]
  ]
