-- ===== src/Runner/Repository/Steps.antt =====
-- The steps of repository.ts: finding the next one, claiming it, recording how it ended.
use Prim.Native.String.{String}
use automa_build.Prelude.{
  ℕ, ◌+◌, ◌-◌, Bool, false, ◌&&◌, ◌||◌, not, Option, none, some, List, [], ◌∷◌, ltb, leb, ◌==◌,
  if◌then◌else◌, find, any, keep, count, is_none, includes, str_eq,
}
use automa_build.Runner.ErrorClasses.{ErrorClass}
use automa_build.Runner.Types.{StepStatus, RunRef, StepRow, Db, Json}
use automa_build.Runner.Repository.Rows.{
  update_where, step_of, step_is, is_pending, is_running, is_failed, is_timed_out, is_cancelled,
  live, claimable,
}

-- ORDER BY topo_order
insert_step : StepRow → List StepRow → List StepRow
insert_step s [] = s ∷ []
insert_step s (t ∷ ts) = if leb s.topo_order t.topo_order then s ∷ t ∷ ts else t ∷ insert_step s ts

unfoldable pub order_steps : List StepRow → List StepRow
unfolding insert_step
order_steps [] = []
order_steps (s ∷ ss) = insert_step s (order_steps ss)

unfoldable pub list_steps : Db → RunRef → List StepRow
unfolding order_steps
list_steps db ref = order_steps (keep (step_of ref) db.steps)

-- ORDER BY topo_order LIMIT 1
unfoldable pub lowest : List StepRow → Option StepRow
lowest [] = none
lowest (s ∷ ss) = elim (lowest ss) [
  | none ↦ some s
  | some t ↦ if leb s.topo_order t.topo_order then some s else some t
]

-- a status behind which the chain does not go on
unfoldable pub blocks : StepRow → Bool
blocks b =
    is_timed_out b.status
    || (is_cancelled b.status || (is_failed b.status && is_none b.next_attempt_at))

-- the `NOT EXISTS` of `nextRunnableStep`, negated
unfoldable pub is_blocked : List StepRow → StepRow → Bool
unfolding blocks
is_blocked steps s =
    any
      (λ (b : StepRow).
        b.run_started_at == s.run_started_at
        && (b.run_id == s.run_id && (ltb b.topo_order s.topo_order && blocks b)))
      steps

unfoldable pub runnable : ℕ → List StepRow → RunRef → StepRow → Bool
unfolding claimable is_blocked
runnable now steps ref s = step_of ref s && (claimable now s && not (is_blocked steps s))

unfoldable pub next_runnable_step : Db → ℕ → RunRef → Option StepRow
unfolding runnable lowest
next_runnable_step db now ref = lowest (keep (runnable now db.steps ref) db.steps)

pub record ConcurrencyLimits : Type 0 where
  pub per_tenant : Option ℕ
  pub per_flow : Option ℕ

pub record ClaimInput : Type 0 where
  pub run_started_at : ℕ
  pub step_id : ℕ
  pub worker_id : String
  pub lease_ms : ℕ
  pub tenant_id : Option ℕ
  pub flow_id : Option ℕ
  pub limits : Option ConcurrencyLimits

pub data Scope : Type 0 where
  tenant flow : Scope

pub data ClaimResult : Type 0 where
  claimed : StepRow → ClaimResult
  taken : ClaimResult
  blocked : Scope → (running limit : ℕ) → ClaimResult

-- a step under a live lease
abbrev pub in_flight : ℕ → StepRow → Bool
in_flight now s = is_running s.status && live s.lease_expires_at now

-- A tenant that is not given is the NULL of `tenant_id = $1`, which no row meets.
abbrev pub of_tenant : Option ℕ → StepRow → Bool
of_tenant none s = false
of_tenant (some t) s = s.tenant_id == t

unfoldable pub running_for_tenant : Db → ℕ → Option ℕ → ℕ
running_for_tenant db now t = count (λ s. of_tenant t s && in_flight now s) db.steps

unfoldable pub running_for_flow : Db → ℕ → ℕ → ℕ
running_for_flow db now f = count (λ (s : StepRow). s.flow_id == f && in_flight now s) db.steps

check_flow : Db → ℕ → Option ℕ → Option ℕ → Option (Scope × ℕ × ℕ)
unfolding running_for_flow
check_flow db now (some f) (some limit) =
    if leb limit (running_for_flow db now f)
    then some (flow, running_for_flow db now f, limit)
    else none
check_flow db now f limit = none

-- The advisory lock makes the counts and the claim one step among the claims of a tenant.
unfoldable pub check_limits : Db → ℕ → ClaimInput → ConcurrencyLimits → Option (Scope × ℕ × ℕ)
unfolding running_for_tenant check_flow
check_limits db now input limits = elim limits.per_tenant [
  | none ↦ check_flow db now input.flow_id limits.per_flow
  | some limit ↦
      if leb limit (running_for_tenant db now input.tenant_id)
      then some (tenant, running_for_tenant db now input.tenant_id, limit)
      else check_flow db now input.flow_id limits.per_flow
]

-- what the UPDATE of `claimStep` writes
unfoldable pub take_lease : ℕ → ClaimInput → StepRow → StepRow
take_lease now input s = record s {
  status = StepStatus.running;
  worker_id = some input.worker_id;
  lease_expires_at = some (now + input.lease_ms);
  attempts_started = s.attempts_started + 1;
  started_at = elim s.started_at [ none ↦ some now | some t ↦ some t ];
}

abbrev pub to_claim : ℕ → ClaimInput → StepRow → Bool
to_claim now input s = step_is input.run_started_at input.step_id s && claimable now s

unfoldable pub claim_row : Db → ℕ → ClaimInput → Db × ClaimResult
unfolding take_lease claimable
claim_row db now input = elim (find (to_claim now input) db.steps) [
  | none ↦ (db, taken)
  | some s ↦ (
    record db { steps = update_where (to_claim now input) (take_lease now input) db.steps },
    claimed (take_lease now input s),
  )
]

unfoldable pub claim_step : Db → ℕ → ClaimInput → Db × ClaimResult
unfolding claim_row check_limits
claim_step db now input = elim input.limits [
  | none ↦ claim_row db now input
  | some limits ↦ elim (check_limits db now input limits) [
    | none ↦ claim_row db now input
    | some (scope, running, limit) ↦ (db, blocked scope running limit)
  ]
]

-- Who reports on a step: the row's key and the worker.
pub record Holder : Type 0 where
  pub run_started_at : ℕ
  pub step_id : ℕ
  pub worker_id : String

abbrev worker_is : String → Option String → Bool
worker_is w none = false
worker_is w (some v) = str_eq v w

-- `… AND worker_id = $3 AND status = 'running'`
abbrev pub held_by : Holder → StepRow → Bool
held_by h s =
    step_is h.run_started_at h.step_id s
    && (worker_is h.worker_id s.worker_id && is_running s.status)

unfoldable pub renew_lease : Db → ℕ → Holder → ℕ → Db × Bool
renew_lease db now h lease_ms = (
  record db {
    steps =
        update_where (held_by h) (λ s. record s { lease_expires_at = some (now + lease_ms) })
          db.steps;
  },
  any (held_by h) db.steps,
)

-- Time since the first claim; the database's clock does not run back.
abbrev pub elapsed : ℕ → Option ℕ → Option ℕ
elapsed now none = none
elapsed now (some t) = some (now - t)

unfoldable pub succeed : ℕ → Option Json → StepRow → StepRow
succeed now output s = record s {
  status = StepStatus.succeeded;
  output = output;
  finished_at = some now;
  duration_ms = elapsed now s.started_at;
  lease_expires_at = none;
  next_attempt_at = none;
}

unfoldable pub record_success : Db → ℕ → Holder → Option Json → Db × Bool
unfolding succeed
record_success db now h output = (
  record db { steps = update_where (held_by h) (succeed now output) db.steps },
  any (held_by h) db.steps,
)

pub record FailureRecord : Type 0 where
  pub status : StepStatus
  pub attempts_consumed : ℕ
  pub deferrals : ℕ
  pub retry_delay_ms : Option ℕ
  pub error_class : ErrorClass
  pub error_message : String
  pub http_status : Option ℕ

unfoldable pub fail : ℕ → FailureRecord → StepRow → StepRow
fail now f s = record s {
  status = f.status;
  attempts_consumed = f.attempts_consumed;
  deferrals = f.deferrals;
  next_attempt_at = elim f.retry_delay_ms [ none ↦ none | some ms ↦ some (now + ms) ];
  error_class = some f.error_class;
  error_code = none;
  error_message = some f.error_message;
  http_status = f.http_status;
  finished_at = some now;
  duration_ms = elapsed now s.started_at;
  lease_expires_at = none;
}

unfoldable pub record_failure : Db → ℕ → Holder → FailureRecord → Db × Bool
unfolding fail
record_failure db now h f =
    (record db { steps = update_where (held_by h) (fail now f) db.steps }, any (held_by h) db.steps)

abbrev pub to_skip : RunRef → List String → StepRow → Bool
to_skip ref node_ids s = step_of ref s && (includes node_ids s.node_id && is_pending s.status)

unfoldable pub skip : ℕ → String → StepRow → StepRow
skip now reason s = record s {
  status = StepStatus.skipped;
  finished_at = some now;
  error_message = some reason;
}

-- With no ids the source returns at once, and no row is touched either.
unfoldable pub mark_skipped : Db → ℕ → RunRef → List String → String → Db × ℕ
unfolding skip
mark_skipped db now ref node_ids reason = (
  record db { steps = update_where (to_skip ref node_ids) (skip now reason) db.steps },
  count (to_skip ref node_ids) db.steps,
)
