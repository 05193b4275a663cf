-- ===== src/WebhookGate/Gate/Admission.antt =====
-- The answers of the gate of packages/automa-webhook-gate/src/gate.ts does to a store that keeps its promises.
use automa_build.Prelude.{
  ℕ, ◌≡◌, inl, inr, refl, false, Option, none, some, arith, Text, text_eq_refl, text_eq→≡,
  Bool-cases, Option-cases,
}
use automa_build.WebhookGate.Common.{
  missing_signature, malformed_signature, unsupported_algorithm, missing_timestamp,
  malformed_timestamp, timestamp_outside_tolerance, signature_mismatch, body_too_large,
  missing_secret, VerificationFailure, VerificationResult, verified, failed, VerifyInput,
}
use automa_build.WebhookGate.Store.{
  DeliveryOutcome, DeliveryRecord, ReplayStore, same_delivery, IsPlain, Lawful,
}
use automa_build.WebhookGate.Gate.{
  Scheme, EndpointConfig, GateRequest, GateResult, let_through, seen_before, turned_away,
  refusal_of, is_allowed_method, method_of, forgets_too_soon, tolerance_of, input_of, admit, gate,
}

module _ {S : Type 0} (store : ReplayStore S) (recall : S → Text → Text → Option ℕ)
    (law : Lawful store recall) (retention_seconds : Option ℕ)
    (verifiers : Scheme → VerifyInput → Option VerificationResult) where
  -- the record that a delivery leaves
  abbrev record_of : EndpointConfig → GateRequest → Text → DeliveryRecord
  record_of endpoint request key = record {
    endpoint_id = endpoint.endpoint_id;
    dedup_key = key;
    outcome = DeliveryOutcome.accepted;
    received_at = request.now;
  }

  -- an answer that lets nothing through
  abbrev IsRefusal : Option GateResult → Type 0
  IsRefusal (some (let_through key timestamp index)) = ⊥
  IsRefusal _ = Unit

  refusal_of-IsRefusal : (reason : VerificationFailure) → IsRefusal (some (refusal_of reason))
  unfolding refusal_of
  refusal_of-IsRefusal missing_signature = tt
  refusal_of-IsRefusal malformed_signature = tt
  refusal_of-IsRefusal unsupported_algorithm = tt
  refusal_of-IsRefusal missing_timestamp = tt
  refusal_of-IsRefusal malformed_timestamp = tt
  refusal_of-IsRefusal timestamp_outside_tolerance = tt
  refusal_of-IsRefusal signature_mismatch = tt
  refusal_of-IsRefusal body_too_large = tt
  refusal_of-IsRefusal missing_secret = tt

  -- How the gate ends: without the store, or with a delivery that verifies.
  data Course (s : S) (endpoint : EndpointConfig) (request : GateRequest)
      : Option GateResult × S → Type 0 where
    refuses : {o : Option GateResult} → IsRefusal o → Course s endpoint request (o, s)
    admits :
        {key : Text} {timestamp : Option ℕ} {index : ℕ}
        → verifiers endpoint.scheme (input_of endpoint request)
          ≡ some (verified key timestamp index)
        → Course s endpoint request
            (admit store retention_seconds verifiers s endpoint request key timestamp index)

  gate-Course :
      (s : S) (endpoint : EndpointConfig) (request : GateRequest)
      → Course s endpoint request (gate store retention_seconds verifiers s endpoint request)
  unfolding gate
  gate-Course s endpoint request =
      elim (Bool-cases (forgets_too_soon retention_seconds (tolerance_of endpoint))) [
        | inl e ↦ rw (e, gate) (refuses tt)
        | inr e ↦ elim (Bool-cases (is_allowed_method (method_of request))) [
          | inr f ↦ rw (e, f, gate) (refuses tt)
          | inl f ↦ elim (Option-cases (verifiers endpoint.scheme (input_of endpoint request))) [
            | inl g ↦ rw (e, f, g, gate) (refuses tt)
            | inr (failed reason, g) ↦ rw (e, f, g, gate) (refuses (refusal_of-IsRefusal reason))
            | inr (verified key timestamp index, g) ↦ rw (e, f, g, gate) (admits g)
          ]
        ]
      ]

  admit-new :
      (s : S) (endpoint : EndpointConfig) (request : GateRequest) (key : Text)
      (timestamp : Option ℕ) (index : ℕ)
      → recall s endpoint.endpoint_id key ≡ none
      → admit store retention_seconds verifiers s endpoint request key timestamp index ≡ (
        some (let_through key timestamp index),
        (store.remember s (record_of endpoint request key)).1,
      )
  unfolding admit
  admit-new s endpoint request key timestamp index h =
      rw (law.remember_answer s (record_of endpoint request key), h, admit) refl

  admit-old :
      (s : S) (endpoint : EndpointConfig) (request : GateRequest) (key : Text)
      (timestamp : Option ℕ) (index at : ℕ)
      → recall s endpoint.endpoint_id key ≡ some at
      → admit store retention_seconds verifiers s endpoint request key timestamp index
        ≡ (some (seen_before key (some at)), (store.remember s (record_of endpoint request key)).1)
  unfolding admit
  admit-old s endpoint request key timestamp index at h =
      rw (law.remember_answer s (record_of endpoint request key), h, admit) refl

  -- what is known where a delivery was let through
  abbrev pub Admitted : S → EndpointConfig → GateRequest → Text → Option ℕ → ℕ → S → Type 0
  Admitted s endpoint request key timestamp index after =
      (verifiers endpoint.scheme (input_of endpoint request) ≡ some (verified key timestamp index))
      × (recall s endpoint.endpoint_id key ≡ none)
      × (recall after endpoint.endpoint_id key ≡ some request.now)
      × ((e k : Text)
          → IsPlain e
          → same_delivery endpoint.endpoint_id key e k ≡ false
          → recall after e k ≡ recall s e k)

  -- what a course means for each answer that lets something through
  abbrev pub Means : S → EndpointConfig → GateRequest → Option GateResult × S → Type 0
  Means s endpoint request (some (let_through key timestamp index), after) =
      Admitted s endpoint request key timestamp index after
  Means s endpoint request (o, after) = (e k : Text) → IsPlain e → recall after e k ≡ recall s e k

  Refusal-Means :
      (s : S) (endpoint : EndpointConfig) (request : GateRequest) (o : Option GateResult)
      → IsRefusal o
      → Means s endpoint request (o, s)
  Refusal-Means s endpoint request none n = λ e k q. refl
  Refusal-Means s endpoint request (some (seen_before key at)) n = λ e k q. refl
  Refusal-Means s endpoint request (some (turned_away status outcome reason)) n = λ e k q. refl
  Refusal-Means s endpoint request (some (let_through key timestamp index)) n = elim n [ ]

  Course-Means :
      (s : S) (endpoint : EndpointConfig) (request : GateRequest) (r : Option GateResult × S)
      → IsPlain endpoint.endpoint_id
      → Course s endpoint request r
      → Means s endpoint request r
  Course-Means s endpoint request r p (refuses {o} n) = Refusal-Means s endpoint request o n
  Course-Means s endpoint request r p (admits {key} {timestamp} {index} v) =
      let d = record_of endpoint request key in
      elim (Option-cases (recall s endpoint.endpoint_id key)) [
        | inl h ↦ rw (admit-new s endpoint request key timestamp index h) (
          v,
          h,
          ground (
            arith,
            h,
            law.remember_recall s d endpoint.endpoint_id key p p,
            text_eq_refl endpoint.endpoint_id,
            text_eq_refl key,
          ),
          λ e k q f. ground (arith, f, law.remember_recall s d e k p q),
        )
        | inr (at, h) ↦ rw (admit-old s endpoint request key timestamp index at h) (λ e k q.
            ground (
              arith,
              h,
              law.remember_recall s d e k p q,
              text_eq→≡ endpoint.endpoint_id e,
              text_eq→≡ key k,
            ))
      ]

  -- Under such a store, a delivery is let through only where its verifier vouched for it and the
  -- store recalled nothing of it; then the store recalls its moment, and of every other delivery
  -- what it did before. With any other answer it recalls of every delivery what it did.
  pub gate-Means :
      (s : S) (endpoint : EndpointConfig) (request : GateRequest)
      → IsPlain endpoint.endpoint_id
      → Means s endpoint request (gate store retention_seconds verifiers s endpoint request)
  gate-Means s endpoint request p =
      Course-Means s endpoint request (gate store retention_seconds verifiers s endpoint request) p
        (gate-Course s endpoint request)
