-- ===== src/WebhookGate/Store.antt =====
-- packages/automa-webhook-gate/src/replay: the interface of a replay store, and the one in memory.
pub mod Memory
use automa_build.Prelude.{
  ℕ, ◌≤◌, ◌≡◌, Bool, true, false, ◌&&◌, Option, none, some, if◌then◌else◌, Text, text_eq, has_unit,
  is_none,
}

pub data DeliveryOutcome : Type 0 where
  accepted duplicate rejected_signature rejected_size rejected_timestamp : DeliveryOutcome

abbrev pub is_accepted : DeliveryOutcome → Bool
is_accepted accepted = true
is_accepted _ = false

pub record DeliveryRecord : Type 0 where
  pub endpoint_id : Text
  pub dedup_key : Text
  pub outcome : DeliveryOutcome
  pub received_at : ℕ

pub record RecordResult : Type 0 where
  pub first : Bool
  pub originally_at : Option ℕ

-- `ReplayStore`, with its state passed along
pub record ReplayStore (S : Type 0) : Type 0 where
  pub remember : S → DeliveryRecord → RecordResult × S
  pub release : S → Text → Text → S
  pub prune : S → ℕ → S

abbrev pub same_delivery : Text → Text → Text → Text → Bool
same_delivery e k e' k' = text_eq e e' && text_eq k k'

-- an endpoint's id has no NUL in it
abbrev pub IsPlain : Text → Type 0
IsPlain e = has_unit 0 e ≡ false

-- What a store promises: it recalls the moment of the first accepted record of each delivery, until
-- the delivery is released or pruned.
pub record Lawful {S : Type 0} (store : ReplayStore S) (recall : S → Text → Text → Option ℕ)
    : Type 0 where
  pub remember_answer :
      (s : S) (d : DeliveryRecord)
      → (store.remember s d).0 ≡ (
          if is_accepted d.outcome
          then record {
            first = is_none (recall s d.endpoint_id d.dedup_key);
            originally_at = recall s d.endpoint_id d.dedup_key;
          }
          else record { first = true; originally_at = none })
  pub remember_recall :
      (s : S) (d : DeliveryRecord) (e k : Text)
      → IsPlain d.endpoint_id
      → IsPlain e
      → recall (store.remember s d).1 e k ≡ (
          if is_accepted d.outcome
            && same_delivery d.endpoint_id d.dedup_key e k
            && is_none (recall s e k)
          then some d.received_at
          else recall s e k)
  pub release_recall :
      (s : S) (e k e' k' : Text)
      → IsPlain e
      → IsPlain e'
      → recall (store.release s e k) e' k'
        ≡ (if same_delivery e k e' k' then none else recall s e' k')
  pub prune_recall :
      (s : S) (older_than at : ℕ) (e k : Text)
      → recall s e k ≡ some at
      → older_than ≤ at
      → recall (store.prune s older_than) e k ≡ some at
