-- ===== src/WebhookGate/Stripe/Key.antt =====
-- The dedup key of `verifyStripe` (packages/automa-webhook-gate/src/verify/stripe.ts).
use automa_build.Prelude.{
  ℕ, suc, ◌+◌, ◌≡◌, ◌≢◌, ◌⊎◌, inl, inr, refl, ap, sym, subst, ◌∙◌, Option, none, some, List, [],
  ◌∷◌, arith, Text, units, has_text, text_eq, text_eq→≡, text_eq_refl, get_or, Bool-cases,
  Option-cases,
}
use automa_build.WebhookGate.Common.{
  VerificationFailure, VerificationResult, verified, failed, VerifyInput, header, preflight,
  ToleranceCheck, in_time, out_of_time, range_error, check_tolerance, match_any_signature,
  match_from, default_tolerance_seconds, signature_mismatch,
}
use automa_build.WebhookGate.Common.Laws.{FirstMatch, FirstMatch.head, FirstMatch.tail}
use automa_build.WebhookGate.Stripe.{
  parse_stripe_signature, signed_payload, nth, candidates_for, match_stripe, verify_stripe,
}

match_from-FirstMatch :
    (start i : ℕ) (candidates presented : List Text)
    → match_from start candidates presented ≡ some i
    → (j : ℕ) × (i ≡ start + j) × FirstMatch presented candidates j
unfolding match_from
match_from-FirstMatch start i [] presented h = cc
match_from-FirstMatch start i (c ∷ cs) presented h = elim (Bool-cases (has_text presented c)) [
  | inl e ↦ (0, ground (arith, e), head e)
  | inr e ↦
      let (j, same, m) = match_from-FirstMatch (suc start) i cs presented (rw e at h) in
      (suc j, omega (arith, same), tail e m)
]

pub match_any_signature-FirstMatch :
    (i : ℕ) (candidates presented : List Text)
    → match_any_signature candidates presented ≡ some i
    → FirstMatch presented candidates i
unfolding match_any_signature
match_any_signature-FirstMatch i candidates presented h =
    let (j, same, m) = match_from-FirstMatch 0 i candidates presented h in
    subst (λ (k : ℕ). FirstMatch presented candidates k) (sym (same ∙ omega arith)) m

abbrev key_in : Option VerificationResult → Text
key_in (some (verified key date index)) = key
key_in _ = []

abbrev date_in : Option VerificationResult → Option ℕ
date_in (some (verified key date index)) = date
date_in _ = none

abbrev index_in : Option VerificationResult → ℕ
index_in (some (verified key date index)) = index
index_in _ = 0

failed_not_verified :
    (reason : VerificationFailure) (key : Text) (date : Option ℕ) (index : ℕ)
    → some (failed reason) ≢ some (verified key date index)
failed_not_verified reason key date index h = cc

error_not_verified :
    (key : Text) (date : Option ℕ) (index : ℕ) → none ≢ some (verified key date index)
error_not_verified key date index h = cc

ToleranceCheck-cases :
    (c : ToleranceCheck)
    → ((d : Option ℕ) × (c ≡ in_time d))
      ⊎ ((r : VerificationFailure) × (c ≡ out_of_time r))
      ⊎ (c ≡ range_error)
ToleranceCheck-cases (in_time d) = inl (d, refl)
ToleranceCheck-cases (out_of_time r) = inr (inl (r, refl))
ToleranceCheck-cases range_error = inr (inr refl)

module _ (hmac : Text → Text → Text) where
  -- what a delivery that verifies rests on
  abbrev pub Vouched : VerifyInput → Text → Option ℕ → ℕ → Type 0
  Vouched input key date index =
      (raw : Text) × (timestamp : ℕ) × (presented : List Text) × (header input.headers
          (units "stripe-signature")
        ≡ some raw)
      × (parse_stripe_signature raw ≡ some (timestamp, presented))
      × (check_tolerance timestamp (get_or input.tolerance_seconds default_tolerance_seconds)
            input.now
          ≡ in_time date)
      × FirstMatch presented (candidates_for hmac input timestamp) index
      × (key ≡ nth (candidates_for hmac input timestamp) index)

  match_stripe_lem :
      (input : VerifyInput) (timestamp : ℕ) (presented : List Text) (date date' : Option ℕ)
      (key : Text) (index : ℕ)
      → match_stripe hmac input timestamp presented date ≡ some (verified key date' index)
      → FirstMatch presented (candidates_for hmac input timestamp) index
        × (key ≡ nth (candidates_for hmac input timestamp) index)
        × (date ≡ date')
  unfolding match_stripe
  match_stripe_lem input timestamp presented date date' key index h =
      elim (Option-cases (match_any_signature (candidates_for hmac input timestamp) presented)) [
        | inl e ↦
            absurd
              (failed_not_verified signature_mismatch key date' index (rw (e, match_stripe) at h))
        | inr (i, e) ↦
            let all = candidates_for hmac input timestamp in
            let same = rw (e, match_stripe) at h in
            let here = match_any_signature-FirstMatch i all presented e in
            let ei : i ≡ index = ap index_in same in
            (
              subst (λ (k : ℕ). FirstMatch presented all k) ei here,
              subst (λ (k : ℕ). key ≡ nth all k) ei (sym (ap key_in same)),
              ap date_in same,
            )
      ]

  -- A delivery that verifies carries a header with a timestamp that is in time; its dedup key is
  -- the signature that the secret of the given index makes of the timestamp and the body, the
  -- first of the secrets' signatures that is among those of the header.
  pub verify_stripe-Vouched :
      (input : VerifyInput) (key : Text) (date : Option ℕ) (index : ℕ)
      → verify_stripe hmac input ≡ some (verified key date index)
      → Vouched input key date index
  unfolding verify_stripe
  verify_stripe-Vouched input key date index h = elim (Option-cases (preflight input)) [
    | inr (reason, e) ↦
        absurd (failed_not_verified reason key date index (rw (e, verify_stripe) at h))
    | inl e ↦ elim (Option-cases (header input.headers (units "stripe-signature"))) [
      | inl f ↦ absurd (failed_not_verified _ key date index (rw (e, f, verify_stripe) at h))
      | inr (raw, f) ↦ elim (Option-cases (parse_stripe_signature raw)) [
        | inl g ↦ absurd (failed_not_verified _ key date index (rw (e, f, g, verify_stripe) at h))
        | inr ((timestamp, presented), g) ↦
            let tolerance = get_or input.tolerance_seconds default_tolerance_seconds in
            elim (ToleranceCheck-cases (check_tolerance timestamp tolerance input.now)) [
              | inr (inr k) ↦
                  absurd (error_not_verified key date index (rw (e, f, g, k, verify_stripe) at h))
              | inr (inl (reason, k)) ↦
                  absurd (
                    failed_not_verified reason key date index (rw (e, f, g, k, verify_stripe) at h))
              | inl (d, k) ↦
                  let (m, n, same) =
                    match_stripe_lem input timestamp presented d date key index
                      (rw (e, f, g, k, verify_stripe) at h) in
                  (raw, timestamp, presented, f, g, k ∙ ap in_time same, m, n)
            ]
      ]
    ]
  ]

  -- With two secrets in force whose signatures differ, a header that carries both gives another
  -- dedup key than the same header without the first of them: who captured it can choose.
  pub match_stripe-two_keys :
      (input : VerifyInput) (timestamp : ℕ) (date : Option ℕ) (old new : Text)
      → input.secrets ≡ old ∷ new ∷ []
      → hmac old (signed_payload timestamp input.raw_body)
        ≢ hmac new (signed_payload timestamp input.raw_body)
      → (match_stripe hmac input timestamp (candidates_for hmac input timestamp) date
          ≡ some (verified (hmac old (signed_payload timestamp input.raw_body)) date 0))
        × (match_stripe hmac input timestamp
              (hmac new (signed_payload timestamp input.raw_body) ∷ [])
              date
            ≡ some (verified (hmac new (signed_payload timestamp input.raw_body)) date 1))
  unfolding match_stripe candidates_for match_any_signature match_from nth
  match_stripe-two_keys input timestamp date old new s differ =
      let a = hmac old (signed_payload timestamp input.raw_body) in
      let b = hmac new (signed_payload timestamp input.raw_body) in
      rw s (
        rw (text_eq_refl a, match_stripe) refl,
        elim (Bool-cases (text_eq b a)) [
          | inl e ↦ absurd (differ (sym (text_eq→≡ b a e)))
          | inr e ↦ rw (e, text_eq_refl b, match_stripe) refl
        ],
      )
