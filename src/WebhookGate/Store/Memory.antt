-- ===== src/WebhookGate/Store/Memory.antt =====
-- packages/automa-webhook-gate/src/replay/memory.ts. A `Map` is the list of its entries in the order
-- of insertion; the constructor's refusal in production and the count that `prune` returns are left out.
use automa_build.Prelude.{
  ℕ, ◌≤◌, ◌≡◌, refl, true, false, not, ◌&&◌, Option, none, some, List, [], ◌∷◌, ◌++◌, arith,
  if◌then◌else◌, Text, text_eq, text_eq→≡, is_none, keep, ltb, Option-cases, ap, inl, inr,
  text_eq_refl,
}
use automa_build.WebhookGate.Store.{
  is_accepted, DeliveryRecord, RecordResult, ReplayStore, same_delivery, IsPlain, Lawful,
}

pub record Seen : Type 0 where
  pub key : Text
  pub at : ℕ

unfoldable pub key_of : Text → Text → Text
key_of endpoint_id dedup_key = endpoint_id ++ 0 ∷ dedup_key

-- `#seen.get(key)`
unfoldable pub find_seen : Text → List Seen → Option ℕ
find_seen key [] = none
find_seen key (x ∷ xs) = if text_eq x.key key then some x.at else find_seen key xs

-- `#seen.delete(key)`
unfoldable pub delete_key : Text → List Seen → List Seen
delete_key key seen = keep (λ x. not (text_eq x.key key)) seen

unfoldable pub remember_delivery : List Seen → DeliveryRecord → RecordResult × List Seen
unfolding find_seen key_of
remember_delivery seen d =
    let key = key_of d.endpoint_id d.dedup_key in
    if not (is_accepted d.outcome)
    then (record { first = true; originally_at = none }, seen)
    else elim (find_seen key seen) [
      | some at ↦ (record { first = false; originally_at = some at }, seen)
      | none ↦ (
        record { first = true; originally_at = none },
        seen ++ record { key = key; at = d.received_at } ∷ [],
      )
    ]

unfoldable pub release_delivery : List Seen → Text → Text → List Seen
unfolding delete_key key_of
release_delivery seen endpoint_id dedup_key = delete_key (key_of endpoint_id dedup_key) seen

unfoldable pub prune_older : List Seen → ℕ → List Seen
prune_older seen older_than = keep (λ x. not (ltb x.at older_than)) seen

unfoldable pub memory_store : ReplayStore (List Seen)
unfolding remember_delivery release_delivery prune_older
memory_store = record {
  remember = remember_delivery;
  release = release_delivery;
  prune = prune_older;
}

-- what the store recalls of a delivery
unfoldable pub recall : List Seen → Text → Text → Option ℕ
unfolding find_seen key_of
recall seen endpoint_id dedup_key = find_seen (key_of endpoint_id dedup_key) seen

-- The separator tells the two ids apart.
key_of-same :
    (e k e' k' : Text)
    → IsPlain e
    → IsPlain e'
    → text_eq (key_of e k) (key_of e' k') ≡ same_delivery e k e' k'
unfolding key_of
key_of-same [] k [] k' p q = refl
key_of-same [] k (y ∷ e') k' p q = ground arith
key_of-same (x ∷ e) k [] k' p q = ground arith
key_of-same (x ∷ e) k (y ∷ e') k' p q = ground (arith, key_of-same e k e' k')

find_seen-append :
    (key key' : Text) (at : ℕ) (seen : List Seen)
    → find_seen key (seen ++ record { key = key'; at = at } ∷ [])
      ≡ (if is_none (find_seen key seen) && text_eq key' key then some at else find_seen key seen)
unfolding find_seen
find_seen-append key key' at [] = ground arith
find_seen-append key key' at (x ∷ xs) = ground (arith, find_seen-append key key' at xs)

ap2_text : (a b a' b' : Text) → a ≡ a' → b ≡ b' → text_eq a b ≡ text_eq a' b'
ap2_text a b a' b' p q = cc

find_seen-delete_key :
    (gone key : Text) (seen : List Seen)
    → find_seen key (delete_key gone seen) ≡ (if text_eq gone key then none else find_seen key seen)
unfolding find_seen delete_key
find_seen-delete_key gone key [] = ground arith
find_seen-delete_key gone key (x ∷ xs) = ground (
  arith,
  find_seen-delete_key gone key xs,
  text_eq→≡ x.key gone,
  text_eq→≡ x.key key,
  text_eq→≡ gone key,
  text_eq_refl key,
  ap (λ (t : Text). text_eq t key) {x = x.key} {y = gone},
  ap2_text x.key gone key key,
)

find_seen-prune_older :
    (older_than at : ℕ) (key : Text) (seen : List Seen)
    → find_seen key seen ≡ some at
    → older_than ≤ at
    → find_seen key (prune_older seen older_than) ≡ some at
unfolding find_seen prune_older
find_seen-prune_older older_than at key [] h p = cc
find_seen-prune_older older_than at key (x ∷ xs) h p =
    ground (arith, find_seen-prune_older older_than at key xs)

remember_delivery-answer :
    (s : List Seen) (d : DeliveryRecord)
    → (remember_delivery s d).0 ≡ (
        if is_accepted d.outcome
        then record {
          first = is_none (recall s d.endpoint_id d.dedup_key);
          originally_at = recall s d.endpoint_id d.dedup_key;
        }
        else record { first = true; originally_at = none })
unfolding remember_delivery recall
remember_delivery-answer s d =
    elim (Option-cases (find_seen (key_of d.endpoint_id d.dedup_key) s)) [
      | inl e ↦ rw (e, remember_delivery, recall) (ground arith)
      | inr (at, e) ↦ rw (e, remember_delivery, recall) (ground arith)
    ]

remember_delivery-recall :
    (s : List Seen) (d : DeliveryRecord) (e k : Text)
    → IsPlain d.endpoint_id
    → IsPlain e
    → recall (remember_delivery s d).1 e k ≡ (
        if is_accepted d.outcome
          && same_delivery d.endpoint_id d.dedup_key e k
          && is_none (recall s e k)
        then some d.received_at
        else recall s e k)
unfolding remember_delivery recall
remember_delivery-recall s d e k p q =
    let kd = key_of d.endpoint_id d.dedup_key in
    let ke = key_of e k in
    elim (Option-cases (find_seen kd s)) [
      | inl f ↦ ground (
        arith,
        f,
        find_seen-append ke kd d.received_at s,
        key_of-same d.endpoint_id d.dedup_key e k p q,
      )
      | inr (at, f) ↦ ground (
        arith,
        f,
        key_of-same d.endpoint_id d.dedup_key e k p q,
        text_eq→≡ kd ke,
        ap (λ (t : Text). find_seen t s) {x = kd} {y = ke},
      )
    ]

-- The store in memory keeps what a store promises: it recalls the moment of the first accepted
-- record of each delivery, answers by it, forgets what is released, and keeps through pruning what
-- is recent enough.
pub memory_store-IsLawful : Lawful memory_store recall
unfolding memory_store release_delivery recall
memory_store-IsLawful = record {
  remember_answer = remember_delivery-answer;
  remember_recall = remember_delivery-recall;
  release_recall = λ s e k e' k' p q.
      ground (arith, find_seen-delete_key (key_of e k) (key_of e' k') s, key_of-same e k e' k' p q);
  prune_recall = λ s older_than at e k h p. find_seen-prune_older older_than at (key_of e k) s h p;
}
