-- ===== src/Runner/Soundness/NoReturn.antt =====
-- Histories in which no operator resumes a run, and the runs that have ended in them.
use automa_build.Prelude.{◌≡◌, ◌∙◌, sym, ap, Bool, true, false, arith}
use automa_build.Runner.Types.{RunStatus, RunRef}
use automa_build.Runner.Repository.Outbox.{delete_outbox, defer_outbox}
use automa_build.Runner.Repository.Runs.{get_run}
use automa_build.Runner.Repository.Steps.{renew_lease}
use automa_build.Runner.Soundness.World.{World}
use automa_build.Runner.Soundness.Protocol.{
  Transition, created, advanced, began, turned_away, ended, renewed, swept, cancelled, resumed,
  replayed, delivered, put_off,
}
use automa_build.Runner.Soundness.Endings.{HasEnded, advance_run-HasEnded, request_cancel-HasEnded}
use automa_build.Runner.Soundness.Aftermath.{
  begin_step-runs, sweep-runs, finish_step-HasEnded, create_run-HasEnded,
}

-- Each advance writes the run as it read it: the row that `getRun` saw is still the row of the run when
-- the later statements of the transaction meet it.
abbrev pub IsCurrent : {v w : World} → Transition v w → Type 0
IsCurrent {v} (advanced before now node_now ref) = get_run before ref ≡ get_run v.db ref
IsCurrent _ = Unit

abbrev pub is_restart : {v w : World} → Transition v w → Bool
is_restart (resumed step_key now key node db' result e) = true
is_restart (replayed step_key now entry_id by db' result e) = true
is_restart _ = false

-- A history without a resume or a replay, in which no other transaction changes a run between the read
-- and the write of an advance.
pub data Leads (v : World) : World → Type 0 where
  here : Leads v v
  on :
      (u w : World)
      → Leads v u
      → (t : Transition u w) → is_restart t ≡ false
      → IsCurrent t
      → Leads v w

Transition-HasEnded :
    (ref : RunRef) (status : RunStatus) (v w : World) (t : Transition v w)
    → is_restart t ≡ false
    → IsCurrent t
    → HasEnded v.db.runs ref status
    → HasEnded w.db.runs ref status
unfolding renew_lease delete_outbox defer_outbox
Transition-HasEnded ref status v _ (created step_key before now input db' result r e) k c h =
    create_run-HasEnded ref status step_key before v.db now input db' result e h
Transition-HasEnded ref status v _ (advanced before now node_now key) k c h =
    advance_run-HasEnded before v.db now node_now key ref status c h
Transition-HasEnded ref status v _ (began now input deps db' run step e) k c h =
    let same : db'.runs ≡ v.db.runs =
      ap (λ x. x.0.runs) (sym e) ∙ begin_step-runs v.db now input deps in
    rw same h
Transition-HasEnded ref status v _ (turned_away now input deps db' outcome e) k c h =
    let same : db'.runs ≡ v.db.runs =
      ap (λ x. x.0.runs) (sym e) ∙ begin_step-runs v.db now input deps in
    rw same h
Transition-HasEnded ref status v _ (ended f now node_now x db' outcome i e) k c h =
    finish_step-HasEnded ref status v.db now node_now f.input f.deps f.run f.step x db' outcome e h
Transition-HasEnded ref status v _ (renewed now by lease_ms) k c h = h
Transition-HasEnded ref status v _ (swept now tenant limit) k c h =
    rw (sweep-runs v.db now tenant limit) h
Transition-HasEnded ref status v _ (cancelled now key) k c h =
    request_cancel-HasEnded v.db now key ref status h
Transition-HasEnded ref status v _ (resumed step_key now key node db' result e) k c h =
    absurd (ground arith)
Transition-HasEnded ref status v _ (replayed step_key now entry_id by db' result e) k c h =
    absurd (ground arith)
Transition-HasEnded ref status v _ (delivered ids) k c h = h
Transition-HasEnded ref status v _ (put_off now id delay_ms) k c h = h

-- A run that has ended keeps the status that it ended with through every history in which nobody
-- resumes a run or replays a dead letter, and in which each advance still finds the run's row as
-- it read it: no late worker, creation, cancellation or sweep changes how it ended, nor a second
-- delivery whose read comes after the end.
pub Leads-HasEnded :
    (ref : RunRef) (status : RunStatus) (v w : World)
    → Leads v w
    → HasEnded v.db.runs ref status
    → HasEnded w.db.runs ref status
Leads-HasEnded ref status v w here h = h
Leads-HasEnded ref status v w (on u _ l t k c) h =
    Transition-HasEnded ref status u w t k c (Leads-HasEnded ref status v u l h)
