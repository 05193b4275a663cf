-- ===== src/Runner/Repository/Dlq.antt =====
-- The dead letters of repository.ts.
use automa_build.Prelude.{◌+◌, [], ◌∷◌, ◌++◌}
use automa_build.Runner.Types.{DlqRow, Db}

-- The entry is given with any id; the table's default sets it.
unfoldable pub write_dlq_entry : Db → DlqRow → Db
write_dlq_entry db entry = record db {
  dlq = db.dlq ++ record entry { id = db.next_id } ∷ [];
  next_id = db.next_id + 1;
}
