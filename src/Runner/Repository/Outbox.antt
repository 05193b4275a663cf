-- ===== src/Runner/Repository/Outbox.antt =====
-- The outbox of repository.ts: messages that wait for their time.
use automa_build.Prelude.{
  ℕ, zero, suc, ◌+◌, Bool, true, false, ◌&&◌, ◌||◌, Option, none, some, List, [], ◌∷◌, ◌++◌, leb,
  ◌==◌, if◌then◌else◌, get_or, keep,
}
use automa_build.Runner.Types.{OutboxTopic, Payload, OutboxRow, Db}
use automa_build.Runner.Repository.Rows.{update_where}

-- `none` for no delay is the NULL of the source: available now
unfoldable pub enqueue : Db → ℕ → OutboxTopic → Payload → Option ℕ → Option ℕ → Db
enqueue db now topic payload tenant_id delay_ms = record db {
  outbox =
      db.outbox
      ++ record {
        id = db.next_id;
        topic = topic;
        payload = payload;
        tenant_id = tenant_id;
        available_at = now + get_or delay_ms 0;
        attempts = 0;
      }
        ∷ [];
  next_id = db.next_id + 1;
}

-- `$n::uuid IS NULL OR tenant_id = $n`
abbrev pub in_scope : Option ℕ → Option ℕ → Bool
in_scope none tenant = true
in_scope (some t) none = false
in_scope (some t) (some u) = u == t

insert_by_id : OutboxRow → List OutboxRow → List OutboxRow
insert_by_id r [] = r ∷ []
insert_by_id r (q ∷ qs) = if leb r.id q.id then r ∷ q ∷ qs else q ∷ insert_by_id r qs

order_by_id : List OutboxRow → List OutboxRow
unfolding insert_by_id
order_by_id [] = []
order_by_id (r ∷ rs) = insert_by_id r (order_by_id rs)

abbrev pub take {ℓ} : {A : Type ℓ} → ℕ → List A → List A
take zero xs = []
take (suc n) [] = []
take (suc n) (x ∷ xs) = x ∷ take n xs

-- A row that another relay has locked is skipped: `locked` says which rows are.
unfoldable pub claim_outbox_batch : Db → ℕ → (OutboxRow → Bool) → ℕ → Option ℕ → List OutboxRow
unfolding order_by_id
claim_outbox_batch db now locked limit tenant_id = take limit (
    order_by_id (
      keep
        (λ (r : OutboxRow).
          leb r.available_at now
          && in_scope tenant_id r.tenant_id
          && (if locked r then false else true))
        db.outbox))

abbrev has_id : List ℕ → ℕ → Bool
has_id [] n = false
has_id (i ∷ is) n = i == n || has_id is n

unfoldable pub delete_outbox : Db → List ℕ → Db
delete_outbox db ids = record db {
  outbox = keep (λ (r : OutboxRow). if has_id ids r.id then false else true) db.outbox;
}

unfoldable pub defer_outbox : Db → ℕ → ℕ → ℕ → Db
defer_outbox db now id delay_ms = record db {
  outbox =
      update_where (λ (r : OutboxRow). r.id == id)
        (λ r. record r { attempts = r.attempts + 1; available_at = now + delay_ms }) db.outbox;
}
