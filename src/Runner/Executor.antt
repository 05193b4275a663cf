-- ===== src/Runner/Executor.antt =====
-- packages/automa-durable-runner/src/engine/executor.ts
-- `runStep` makes three transactions with the handler's call between them. Here they are `begin_step`,
-- `execute` and `finish_step`; `run_step` is their sequence, with whatever others commit in between.
-- The handlers and the flow store are code of the application: they are fields of `Deps`.
pub mod Deps
pub mod Begin
pub mod Execute
pub mod Finish
pub mod Run
pub mod Continues
