-- ===== src/WebhookGate/Github/Key.antt =====
-- The dedup key of `verifyGitHub` (packages/automa-webhook-gate/src/verify/github.ts).
use automa_build.Prelude.{
  ℕ, ◌≡◌, ◌≢◌, inl, inr, refl, sym, ap, subst, ◌∙◌, true, Option, none, some, List, [], ◌∷◌, ◌++◌,
  arith, map, suc, Text, units, starts, drop, length, text_eq→≡, Bool-cases, Option-cases,
}
use automa_build.WebhookGate.Common.{
  VerificationFailure, VerificationResult, verified, failed, VerifyInput, header, preflight,
  match_any_signature,
}
use automa_build.WebhookGate.Common.Laws.{FirstMatch, FirstMatch.head, FirstMatch.tail}
use automa_build.WebhookGate.Stripe.{nth}
use automa_build.WebhookGate.Stripe.Key.{match_any_signature-FirstMatch}
use automa_build.WebhookGate.Github.{has_delivery_id, body_signatures, match_github, verify_github}

starts-drop : (prefix t : Text) → starts prefix t ≡ true → t ≡ prefix ++ drop (length prefix) t
starts-drop [] t h = refl
starts-drop (x ∷ xs) [] h = cc
starts-drop (x ∷ xs) (y ∷ ys) h = ground (arith, starts-drop xs ys)

FirstMatch-nth :
    (signature : Text) (candidates : List Text) (i : ℕ)
    → FirstMatch (signature ∷ []) candidates i
    → nth candidates i ≡ signature
unfolding nth
FirstMatch-nth signature (c ∷ cs) i (head h) = ground (arith, h, text_eq→≡ signature c)
FirstMatch-nth signature (x ∷ xs) k (tail {c} {cs} {i} h m) = FirstMatch-nth signature cs i m
FirstMatch-nth signature [] i m = elim m [ ]

-- the secret at the position
pub data At : List Text → ℕ → Text → Type 0 where
  here : {s : Text} {ss : List Text} → At (s ∷ ss) 0 s
  there : {x s : Text} {ss : List Text} {i : ℕ} → At ss i s → At (x ∷ ss) (suc i) s

-- One of the secrets, the one at `i`, makes this of the body.
abbrev pub IsMade : (Text → Text → Text) → VerifyInput → ℕ → Text → Type 0
IsMade hmac input i key =
    (secret : Text) × At input.secrets i secret × (key ≡ hmac secret input.raw_body)

FirstMatch-At :
    (make : Text → Text) (signature : Text) (secrets : List Text) (i : ℕ)
    → FirstMatch (signature ∷ []) (map make secrets) i
    → (secret : Text) × At secrets i secret × (signature ≡ make secret)
FirstMatch-At make signature (s ∷ ss) i (head h) =
    (s, here, ground (arith, h, text_eq→≡ signature (make s)))
FirstMatch-At make signature (s ∷ ss) k (tail {c} {cs} {i} h m) =
    let (secret, there_it_is, made) = FirstMatch-At make signature ss i m in
    (secret, there there_it_is, made)
FirstMatch-At make signature [] i m = elim m [ ]

failed_not_verified :
    (reason : VerificationFailure) (key : Text) (date : Option ℕ) (index : ℕ)
    → failed reason ≢ verified key date index
failed_not_verified reason key date index h = cc

abbrev key_in : VerificationResult → Text
key_in (verified key date index) = key
key_in (failed reason) = []

abbrev date_in : VerificationResult → Option ℕ
date_in (verified key date index) = date
date_in (failed reason) = none

abbrev index_in : VerificationResult → ℕ
index_in (verified key date index) = index
index_in (failed reason) = 0

module _ (hmac : Text → Text → Text) where
  -- the signature as it was presented is the key, and a secret makes it of the body alone
  abbrev pub Bound : VerifyInput → Text → Option ℕ → ℕ → Type 0
  Bound input key date index =
      (header input.headers (units "x-hub-signature-256") ≡ some (units "sha256=" ++ key))
      × IsMade hmac input index key
      × (has_delivery_id input ≡ true)
      × (date ≡ none)

  match_github_lem :
      (input : VerifyInput) (signature key : Text) (date : Option ℕ) (index : ℕ)
      → match_github hmac input signature ≡ verified key date index
      → (key ≡ signature) × IsMade hmac input index key × (date ≡ none)
  unfolding match_github body_signatures
  match_github_lem input signature key date index h =
      let all = body_signatures hmac input in
      elim (Option-cases (match_any_signature all (signature ∷ []))) [
        | inl e ↦ absurd (failed_not_verified _ key date index (rw (e, match_github) at h))
        | inr (i, e) ↦
            let same = rw (e, match_github) at h in
            let ek : nth all i ≡ key = ap key_in same in
            let ei : i ≡ index = ap index_in same in
            let first = match_any_signature-FirstMatch i all (signature ∷ []) e in
            let presented : key ≡ signature = sym ek ∙ FirstMatch-nth signature all i first in
            (
              presented,
              subst (λ (k : ℕ). IsMade hmac input k key) ei
                  (subst
                    (λ (x : Text).
                      (secret : Text) × At input.secrets i secret
                      × (x ≡ hmac secret input.raw_body))
                    (sym presented)
                    (FirstMatch-At (λ s. hmac s input.raw_body) signature input.secrets i first)),
              sym (ap date_in same),
            )
      ]

  -- A GitHub delivery that verifies presented its dedup key as the signature, the secret at the
  -- given index makes the key of the body alone, and a delivery id came with it: no other header
  -- changes the key.
  pub verify_github-Bound :
      (input : VerifyInput) (key : Text) (date : Option ℕ) (index : ℕ)
      → verify_github hmac input ≡ verified key date index
      → Bound input key date index
  unfolding verify_github
  verify_github-Bound input key date index h = elim (Option-cases (preflight input)) [
    | inr (reason, e) ↦
        absurd (failed_not_verified reason key date index (rw (e, verify_github) at h))
    | inl e ↦ elim (Option-cases (header input.headers (units "x-hub-signature-256"))) [
      | inl f ↦ absurd (failed_not_verified _ key date index (rw (e, f, verify_github) at h))
      | inr (presented, f) ↦ elim (Bool-cases (starts (units "sha256=") presented)) [
        | inr g ↦ absurd (failed_not_verified _ key date index (rw (e, f, g, verify_github) at h))
        | inl g ↦ elim (Bool-cases (has_delivery_id input)) [
          | inr k ↦
              absurd (failed_not_verified _ key date index (rw (e, f, g, k, verify_github) at h))
          | inl k ↦
              let rest = drop (length (units "sha256=")) presented in
              let (same, made, undated) =
                match_github_lem input rest key date index (rw (e, f, g, k, verify_github) at h) in
              (
                f
                    ∙ ap some (
                        starts-drop (units "sha256=") presented g
                        ∙ ap (λ (t : Text). units "sha256=" ++ t) (sym same)),
                made,
                k,
                undated,
              )
        ]
      ]
    ]
  ]
