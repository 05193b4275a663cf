-- ===== src/Runner/Repository.antt =====
-- packages/automa-durable-runner/src/engine/repository.ts
-- Each statement of SQL is a function on the database: a condition on rows, and what it writes. `now`
-- is the transaction's `now()`. A function of the source that makes several statements makes them in
-- one transaction, and is one function here.
pub mod Rows
pub mod Outbox
pub mod Runs
pub mod Steps
pub mod Dlq
