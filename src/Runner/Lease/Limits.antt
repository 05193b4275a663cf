-- ===== src/Runner/Lease/Limits.antt =====
-- Claims under concurrency limits (repository.ts, `claimStep` and `checkLimits`).
use automa_build.Prelude.{
  ℕ, suc, ◌≤◌, ◌≡◌, refl, Bool, ◌&&◌, Option, none, some, List, [], ◌∷◌, arith, count, ◌==◌,
}
use automa_build.Runner.Types.{StepRow, Db}
use automa_build.Runner.Repository.Rows.{update_where, step_is, claimable}
use automa_build.Runner.Repository.Steps.{
  ClaimInput, ConcurrencyLimits, claimed, claim_step, check_limits, take_lease, running_for_tenant,
  running_for_flow, of_tenant, in_flight,
}
use automa_build.Runner.Lease.Claim.{HasKey, claim_step-Claims}

abbrev pub Within : Option ℕ → ℕ → Type 0
Within none n = Unit
Within (some limit) n = n ≤ limit

module _ (started id : ℕ) (p test : StepRow → Bool) (f : StepRow → StepRow) where
  count-untouched :
      (xs : List StepRow)
      → count (step_is started id) xs ≡ 0
      → count p (update_where (λ s. step_is started id s && test s) f xs) ≡ count p xs
  count-untouched [] h = refl
  count-untouched (x ∷ xs) h = ground (arith, count-untouched xs)

  -- an update of one row adds one row at most to any count
  count-update_one :
      (xs : List StepRow)
      → HasKey xs started id
      → count p (update_where (λ s. step_is started id s && test s) f xs) ≤ suc (count p xs)
  count-update_one [] h = omega arith
  count-update_one (x ∷ xs) h = ground (arith, count-update_one xs, count-untouched xs)

claim_step-room :
    (db : Db) (now flow : ℕ) (input : ClaimInput) (limits : ConcurrencyLimits) {db' : Db}
    {s : StepRow}
    → input.limits ≡ some limits
    → input.flow_id ≡ some flow
    → claim_step db now input ≡ (db', claimed s)
    → Within limits.per_tenant (suc (running_for_tenant db now input.tenant_id))
      × Within limits.per_flow (suc (running_for_flow db now flow))
unfolding claim_step check_limits
claim_step-room db now flow input limits has_limits has_flow e = ground arith

-- After a claim that was given limits, and that names the flow, the steps under a live lease are
-- within both: those of the tenant within the tenant's limit, those of the flow within the flow's.
pub claim_step-Within :
    (db : Db) (now flow : ℕ) (input : ClaimInput) (limits : ConcurrencyLimits) (db' : Db)
    (s : StepRow)
    → HasKey db.steps input.run_started_at input.step_id
    → input.limits ≡ some limits
    → input.flow_id ≡ some flow
    → claim_step db now input ≡ (db', claimed s)
    → Within limits.per_tenant (running_for_tenant db' now input.tenant_id)
      × Within limits.per_flow (running_for_flow db' now flow)
unfolding running_for_tenant running_for_flow
claim_step-Within db now flow input limits db' s key has_limits has_flow e =
    let c = claim_step-Claims db now input e in
    let room = claim_step-room db now flow input limits has_limits has_flow e in
    let tenant_count =
      count-update_one input.run_started_at input.step_id
        (λ t. of_tenant input.tenant_id t && in_flight now t) (claimable now) (take_lease now input)
        db.steps key in
    let flow_count =
      count-update_one input.run_started_at input.step_id
        (λ (t : StepRow). t.flow_id == flow && in_flight now t) (claimable now)
        (take_lease now input) db.steps key in
    rw c.after (ground (arith, room, tenant_count), ground (arith, room, flow_count))
