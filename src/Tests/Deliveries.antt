-- ===== src/Tests/Deliveries.antt =====
-- Webhook deliveries to an endpoint with two secrets, under a toy signature.
use automa_build.Prelude.{
  ℕ, ◌+◌, ◌*◌, ◌≤◌, ◌<◌, ◌≡◌, ◌≢◌, ◌⊎◌, ◌↔◌, refl, ap, true, Option, none, some, List, [], ◌∷◌,
  ◌++◌, arith, Text, units,
}
use automa_build.WebhookGate.Common.{
  VerifyInput, VerificationResult, verified, check_tolerance, is_finite, last_date,
}
use automa_build.WebhookGate.Common.Laws.{IsInTime, check_tolerance_iff}
use automa_build.WebhookGate.Stripe.{verify_stripe, match_stripe, candidates_for, signed_payload}
use automa_build.WebhookGate.Stripe.Key.{Vouched, verify_stripe-Vouched, match_stripe-two_keys}
use automa_build.WebhookGate.Slack.{verify_slack}
use automa_build.WebhookGate.Github.{verify_github}
use automa_build.WebhookGate.Github.Key.{Bound, verify_github-Bound}
use automa_build.WebhookGate.Store.Memory.{
  Seen, memory_store, recall, memory_store-IsLawful, key_of,
}
use automa_build.WebhookGate.Gate.{
  Scheme, stripe, EndpointConfig, GateRequest, let_through, seen_before, gate, input_of,
}
use automa_build.WebhookGate.Gate.Admission.{Means, gate-Means}
use automa_build.WebhookGate.Gate.Once.{Later.at_once, gate-once}

-- the secret in front of the message
abbrev sign : Text → Text → Text
sign secret message = secret ++ message

-- Every scheme is checked as Stripe's.
abbrev verifiers : Scheme → VerifyInput → Option VerificationResult
verifiers scheme input = verify_stripe sign input

abbrev shop : EndpointConfig
shop = record {
  endpoint_id = units "shop";
  scheme = stripe;
  secrets = units "a" ∷ units "b" ∷ [];
  tolerance_seconds = none;
  max_body_bytes = none;
}

abbrev signed_by_a : GateRequest
signed_by_a = record {
  raw_body = units "{}";
  headers = record { key = units "Stripe-Signature"; values = units "t=100, v1=a100.{}" ∷ [] } ∷ [];
  method = some (units "post");
  url = none;
  now = 160000;
}

abbrev key_a : Text
key_a = units "a100.{}"

abbrev remembered : List Seen
remembered = record { key = key_of (units "shop") key_a; at = 160000 } ∷ []

first_time :
    gate memory_store (some 86400) verifiers [] shop signed_by_a
    ≡ (some (let_through key_a (some 100000) 0), remembered)
unfolding gate verify_stripe memory_store units is_finite
first_time = refl

second_time :
    gate memory_store (some 86400) verifiers remembered shop signed_by_a
    ≡ (some (seen_before key_a (some 160000)), remembered)
unfolding gate verify_stripe memory_store units is_finite
second_time = refl

gate-Means_example :
    Means memory_store recall memory_store-IsLawful
      (some 86400)
      verifiers
      remembered
      shop
      signed_by_a
      (gate memory_store (some 86400) verifiers remembered shop signed_by_a)
unfolding units
gate-Means_example =
    gate-Means memory_store recall memory_store-IsLawful (some 86400) verifiers remembered shop
      signed_by_a refl

gate-once_example :
    gate memory_store (some 86400) verifiers remembered shop signed_by_a
    ≢ (some (let_through key_a (some 100000) 0), remembered)
unfolding units
gate-once_example =
    gate-once memory_store recall memory_store-IsLawful (some 86400) verifiers [] remembered
      remembered remembered shop shop signed_by_a signed_by_a key_a (some 100000) (some 100000) 0 0
      refl refl first_time at_once

abbrev delivery : VerifyInput
delivery = input_of shop signed_by_a

delivery_verifies : verify_stripe sign delivery ≡ some (verified key_a (some 100000) 0)
unfolding verify_stripe input_of units is_finite
delivery_verifies = refl

verify_stripe-Vouched_example : Vouched sign delivery key_a (some 100000) 0
verify_stripe-Vouched_example =
    verify_stripe-Vouched sign delivery key_a (some 100000) 0 delivery_verifies

abbrev first_unit : Text → ℕ
first_unit [] = 0
first_unit (c ∷ cs) = c

payloads_differ :
    sign (units "a") (signed_payload 100 delivery.raw_body)
    ≢ sign (units "b") (signed_payload 100 delivery.raw_body)
unfolding units signed_payload input_of
payloads_differ h = absurd (omega (arith, ap first_unit h))

match_stripe-two_keys_example :
    (match_stripe sign delivery 100 (candidates_for sign delivery 100) (some 100000)
      ≡ some (verified (sign (units "a") (signed_payload 100 delivery.raw_body)) (some 100000) 0))
    × (match_stripe sign delivery 100
          (sign (units "b") (signed_payload 100 delivery.raw_body) ∷ [])
          (some 100000)
        ≡ some (verified (sign (units "b") (signed_payload 100 delivery.raw_body)) (some 100000) 1))
unfolding input_of
match_stripe-two_keys_example =
    match_stripe-two_keys sign delivery 100 (some 100000) (units "a") (units "b") refl
      payloads_differ

thousand_is_finite : is_finite 1000 ≡ true
unfolding is_finite
thousand_is_finite = refl

check_tolerance_iff_example :
    IsInTime (check_tolerance 1000 300 1300000)
    ↔ ((1300000 ≤ 1000 * 1000 + 300 * 1000) × (1000 * 1000 ≤ 1300000 + 300 * 1000))
      ⊎ (last_date < 1000 * 1000)
check_tolerance_iff_example = check_tolerance_iff 1000 300 1300000 thousand_is_finite (omega arith)

abbrev slack_delivery : VerifyInput
slack_delivery = record {
  raw_body = units "{}";
  headers =
      record { key = units "X-Slack-Signature"; values = units "v0=av0:100:{}" ∷ [] }
      ∷ record { key = units "X-Slack-Request-Timestamp"; values = units "100" ∷ [] }
      ∷ [];
  secrets = units "b" ∷ units "a" ∷ [];
  tolerance_seconds = none;
  max_body_bytes = none;
  now = 160000;
  method = none;
  url = none;
}

slack_verifies :
    verify_slack sign slack_delivery ≡ some (verified (units "av0:100:{}") (some 100000) 1)
unfolding verify_slack units is_finite
slack_verifies = refl

abbrev github_delivery : VerifyInput
github_delivery = record {
  raw_body = units "{}";
  headers =
      record { key = units "X-Hub-Signature-256"; values = units "sha256=a{}" ∷ [] }
      ∷ record { key = units "X-GitHub-Delivery"; values = units "7" ∷ [] }
      ∷ [];
  secrets = units "b" ∷ units "a" ∷ [];
  tolerance_seconds = none;
  max_body_bytes = none;
  now = 160000;
  method = none;
  url = none;
}

github_verifies : verify_github sign github_delivery ≡ verified (units "a{}") none 1
unfolding verify_github units
github_verifies = refl

verify_github-Bound_example : Bound sign github_delivery (units "a{}") none 1
verify_github-Bound_example =
    verify_github-Bound sign github_delivery (units "a{}") none 1 github_verifies
