-- ===== src/Tests/Replays.antt =====
-- A dead letter is replayed, and then replayed again.
use automa_build.Prelude.{◌≡◌, refl, none, some, [], ◌∷◌}
use automa_build.Runner.ErrorClasses.{ErrorClass}
use automa_build.Runner.Types.{RunStatus, StepStatus, DlqRow, DlqReason, Db}
use automa_build.Runner.Resume.{Result, ok, err, already_replayed, ResumeResult, replay_dlq_entry}
use automa_build.Runner.Resume.Once.{replay_dlq_entry-once}
use automa_build.Tests.Fixture.{ref, run, step, db_of}
use automa_build.Tests.Histories.{plain_key}

abbrev letter : DlqRow
letter = record {
  id = 15;
  tenant_id = 7;
  run = ref;
  step_id = 12;
  flow_version_id = 4;
  node_id = "pay";
  reason = DlqReason.attempts_exhausted;
  error_class = ErrorClass.server_error;
  error_message = "unavailable";
  step_kind = "http";
  idempotency_key = "pay";
  input = none;
  replayed_at = none;
  replayed_run_id = none;
  resolved_by = none;
}

abbrev failed_db : Db
failed_db =
    record (db_of (
      record (step 11 0 "lookup") { status = StepStatus.succeeded }
      ∷ record (step 12 1 "pay") { status = StepStatus.failed; attempts_consumed = 5 }
      ∷ step 13 2 "mail"
      ∷ [])) { runs = record run { status = RunStatus.failed } ∷ []; dlq = letter ∷ [] }

abbrev db_after : Result (Db × ResumeResult) → Db
db_after (ok (db, r)) = db
db_after (err x) = failed_db

abbrev result_of : Result (Db × ResumeResult) → ResumeResult
result_of (ok (db, r)) = r
result_of (err x) = record { run = none; attempt_group = 0; skipped = []; reset = [] }

abbrev replay : Result (Db × ResumeResult)
replay = replay_dlq_entry plain_key failed_db 500 15 none

kept_and_reset : (result_of replay).skipped ≡ "lookup" ∷ []
unfolding replay_dlq_entry
kept_and_reset = refl

replay_dlq_entry-once_example :
    replay_dlq_entry plain_key (db_after replay) 900 15 (some "operator") ≡ err already_replayed
unfolding replay_dlq_entry
replay_dlq_entry-once_example =
    replay_dlq_entry-once plain_key failed_db 500 15 none (db_after replay) (result_of replay)
      (db_after replay) 900 (some "operator") refl refl
