-- ===== src/Tests/Endings.antt =====
-- A run that has succeeded is cancelled and advanced once more.
use automa_build.Prelude.{refl, some, inr, none, [], ◌∷◌}
use automa_build.Runner.Types.{RunStatus, RunRow, Db}
use automa_build.Runner.Repository.Runs.{get_run, request_cancel}
use automa_build.Runner.Orchestrator.{advance_run}
use automa_build.Runner.Orchestrator.Stale.{IsStopped, advance_run-overwrites}
use automa_build.Runner.Soundness.World.{World}
use automa_build.Runner.Soundness.Protocol.{at, cancelled, advanced, swept}
use automa_build.Runner.Janitor.{sweep}
use automa_build.Runner.Soundness.Endings.{HasEnded}
use automa_build.Runner.Soundness.NoReturn.{here, on, Leads-HasEnded}
use automa_build.Tests.Fixture.{ref, run, fresh}

abbrev over : World
over = record {
  db = record fresh { runs = record run { status = RunStatus.succeeded } ∷ [] };
  flights = [];
}

abbrev asked : World
asked = at over (request_cancel over.db 600 ref).0

abbrev advanced_again : World
advanced_again = at asked (advance_run asked.db asked.db 610 610 ref).0

abbrev much_later : World
much_later = at advanced_again (sweep advanced_again.db 900_000 none none).0

Leads-HasEnded_example : HasEnded much_later.db.runs ref RunStatus.succeeded
Leads-HasEnded_example =
    Leads-HasEnded ref RunStatus.succeeded over much_later
      (on advanced_again much_later
        (on asked advanced_again (on over asked here (cancelled 600 ref) refl tt)
          (advanced asked.db 610 610 ref) refl refl)
        (swept 900_000 none none) refl tt)
      (record run { status = RunStatus.succeeded }, refl, refl, refl)

-- A second delivery read the run while it went on; meanwhile the run has succeeded.
abbrev going : RunRow
going = record run { deadline_at = some 700 }

abbrev earlier : Db
earlier = record fresh { runs = going ∷ [] }

advance_run-overwrites_example : IsStopped (advance_run earlier over.db 800 800 ref).0 ref
unfolding get_run
advance_run-overwrites_example =
    advance_run-overwrites earlier over.db 800 800 ref going
      (record run { status = RunStatus.succeeded }) refl refl (inr refl) refl
