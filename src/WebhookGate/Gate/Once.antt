-- ===== src/WebhookGate/Gate/Once.antt =====
-- Histories of the gate of packages/automa-webhook-gate/src/gate.ts and its store.
use automa_build.Prelude.{
  ℕ, ◌≤◌, ◌≡◌, ◌≢◌, inl, inr, sym, subst, ◌∙◌, false, Option, none, some, arith, Text, text_eq→≡,
  Bool-cases,
}
use automa_build.WebhookGate.Common.{VerificationResult, VerifyInput}
use automa_build.WebhookGate.Store.{ReplayStore, same_delivery, IsPlain, Lawful}
use automa_build.WebhookGate.Gate.{
  Scheme, EndpointConfig, GateRequest, GateResult, let_through, seen_before, turned_away, gate,
}
use automa_build.WebhookGate.Gate.Admission.{Means, Admitted, gate-Means}

value_differs : (at : ℕ) → none ≢ some at
value_differs at h = cc

module _ {S : Type 0} (store : ReplayStore S) (recall : S → Text → Text → Option ℕ)
    (law : Lawful store recall) (retention_seconds : Option ℕ)
    (verifiers : Scheme → VerifyInput → Option VerificationResult) where
  -- What may happen to the store after a moment, short of forgetting one delivery: any requests, and
  -- the release of others and the pruning of what is older.
  pub data Later (endpoint_id key : Text) (at : ℕ) (s : S) : S → Type 0 where
    at_once : Later endpoint_id key at s s
    delivered :
        {before : S} (endpoint : EndpointConfig) (request : GateRequest)
        → IsPlain endpoint.endpoint_id
        → Later endpoint_id key at s before
        → Later endpoint_id key at s
            (gate store retention_seconds verifiers before endpoint request).1
    released :
        {before : S} (e k : Text)
        → IsPlain e
        → same_delivery e k endpoint_id key ≡ false
        → Later endpoint_id key at s before
        → Later endpoint_id key at s (store.release before e k)
    pruned :
        {before : S} (older_than : ℕ)
        → older_than ≤ at
        → Later endpoint_id key at s before
        → Later endpoint_id key at s (store.prune before older_than)

  Means-recall :
      (s : S) (endpoint : EndpointConfig) (request : GateRequest) (r : Option GateResult × S)
      (endpoint_id key : Text) (at : ℕ)
      → IsPlain endpoint_id
      → recall s endpoint_id key ≡ some at
      → Means store recall law retention_seconds verifiers s endpoint request r
      → recall r.1 endpoint_id key ≡ some at
  Means-recall s endpoint request (some (let_through k t i), after) e key at p h (v, n, m, o) =
      elim (Bool-cases (same_delivery endpoint.endpoint_id k e key)) [
        | inl same ↦
            absurd (ground (arith, same, h, n, text_eq→≡ endpoint.endpoint_id e, text_eq→≡ k key))
        | inr other ↦ o e key p other ∙ h
      ]
  Means-recall s endpoint request (some (seen_before k t), after) e key at p h m = m e key p ∙ h
  Means-recall s endpoint request (some (turned_away c o r), after) e key at p h m = m e key p ∙ h
  Means-recall s endpoint request (none, after) e key at p h m = m e key p ∙ h

  Later-recall :
      (endpoint_id key : Text) (at : ℕ) (s s' : S)
      → IsPlain endpoint_id
      → recall s endpoint_id key ≡ some at
      → Later endpoint_id key at s s'
      → recall s' endpoint_id key ≡ some at
  Later-recall e key at s s' p h at_once = h
  Later-recall e key at s s' p h (delivered {before} endpoint request q l) =
      Means-recall before endpoint request
        (gate store retention_seconds verifiers before endpoint request) e key at p
        (Later-recall e key at s before p h l)
        (gate-Means store recall law retention_seconds verifiers before endpoint request q)
  Later-recall e key at s s' p h (released {before} e' k' q other l) =
      law.release_recall before e' k' e key q p ∙ rw other (Later-recall e key at s before p h l)
  Later-recall e key at s s' p h (pruned {before} older_than q l) =
      law.prune_recall before older_than at e key (Later-recall e key at s before p h l) q

  -- Under a store that keeps what a store promises and ids without NUL, once a delivery was let
  -- through, no request to its endpoint is let through under its key again, whatever requests
  -- arrive in between and whatever else is released or pruned, until the delivery itself is
  -- released or records as recent as it are pruned.
  pub gate-once :
      (s after later last : S) (endpoint endpoint' : EndpointConfig)
      (request request' : GateRequest) (key : Text) (timestamp timestamp' : Option ℕ)
      (index index' : ℕ)
      → IsPlain endpoint.endpoint_id
      → endpoint'.endpoint_id ≡ endpoint.endpoint_id
      → gate store retention_seconds verifiers s endpoint request
        ≡ (some (let_through key timestamp index), after)
      → Later endpoint.endpoint_id key request.now after later
      → gate store retention_seconds verifiers later endpoint' request'
        ≢ (some (let_through key timestamp' index'), last)
  gate-once s after later last endpoint endpoint' request request' key timestamp timestamp' index
        index' p same h l g =
      let first : Admitted store recall law retention_seconds verifiers s endpoint request key
          timestamp index after =
        subst
          (λ (r : Option GateResult × S).
            Means store recall law retention_seconds verifiers s endpoint request r)
          h (gate-Means store recall law retention_seconds verifiers s endpoint request p) in
      let p' : IsPlain endpoint'.endpoint_id = rw same p in
      let again : Admitted store recall law retention_seconds verifiers later endpoint' request' key
          timestamp' index' last =
        subst
          (λ (r : Option GateResult × S).
            Means store recall law retention_seconds verifiers later endpoint' request' r)
          g (gate-Means store recall law retention_seconds verifiers later endpoint' request' p') in
      let kept = Later-recall endpoint.endpoint_id key request.now after later p first.2 l in
      value_differs request.now
        (sym (subst (λ (e : Text). recall later e key ≡ none) same again.1) ∙ kept)
