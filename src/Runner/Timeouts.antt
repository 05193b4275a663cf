-- ===== src/Runner/Timeouts.antt =====
-- packages/automa-durable-runner/src/timeouts.ts
-- A violation stands for its text. Milliseconds that are configured are numbers of JavaScript: whole
-- ones, below 0 or not, infinity and NaN; without fractions and minus infinity.
use automa_build.Prelude.{
  ℕ, ◌+◌, ◌-◌, ◌≤◌, ◌<◌, ◌≡◌, min, Bool, true, false, not, ◌||◌, List, [], ◌∷◌, arith, leb, ltb,
  if◌then◌else◌,
}

-- `A` is a number of JavaScript, or a natural number where the configuration is in order.
pub record TimeoutConfig (A : Type 0) : Type 0 where
  pub http_call_ms : A
  pub expression_ms : A
  pub step_attempt_ms : A
  pub run_ms : A
  pub drain_ms : A
  pub grace_ms : A

abbrev pub default_timeouts : TimeoutConfig ℕ
default_timeouts = record {
  http_call_ms = 30_000;
  expression_ms = 250;
  step_attempt_ms = 60_000;
  run_ms = 900_000;
  drain_ms = 90_000;
  grace_ms = 120_000;
}

-- `minus n` is -(n + 1).
pub data Number : Type 0 where
  minus : ℕ → Number
  whole : ℕ → Number
  infinity nan : Number

abbrev pub is_finite_number : Number → Bool
is_finite_number infinity = false
is_finite_number nan = false
is_finite_number _ = true

-- `a > b`
abbrev pub above : Number → Number → Bool
above nan b = false
above a nan = false
above infinity infinity = false
above infinity b = true
above a infinity = false
above (whole m) (whole n) = ltb n m
above (whole m) (minus n) = true
above (minus m) (whole n) = false
above (minus m) (minus n) = ltb m n

-- `a >= b`
abbrev pub at_least : Number → Number → Bool
at_least nan b = false
at_least a nan = false
at_least infinity b = true
at_least a infinity = false
at_least (whole m) (whole n) = leb n m
at_least (whole m) (minus n) = true
at_least (minus m) (whole n) = false
at_least (minus m) (minus n) = leb m n

pub data Field : Type 0 where
  http_call expression step_attempt run drain grace : Field

pub data Violation : Type 0 where
  not_positive : Field → Number → Violation
  above_ceiling : Field → Number → ℕ → Violation
  call_not_below_attempt expression_not_below_attempt attempt_not_below_run : Violation
  attempt_above_drain drain_not_below_grace : Violation

abbrev violation_if : Bool → Violation → List Violation → List Violation
violation_if b v vs = if b then v ∷ vs else vs

-- `!Number.isFinite(value) || value <= 0`
abbrev not_positive_if : Field → Number → List Violation → List Violation
not_positive_if field value =
    violation_if (not (is_finite_number value) || at_least (whole 0) value)
      (not_positive field value)

abbrev ceiling_if : Field → Number → ℕ → List Violation → List Violation
ceiling_if field value ceiling =
    violation_if (above value (whole ceiling)) (above_ceiling field value ceiling)

-- the violations in the order in which the source pushes them; it throws if there is one
unfoldable pub timeout_violations : TimeoutConfig Number → List Violation
timeout_violations c = not_positive_if http_call c.http_call_ms (
    not_positive_if expression c.expression_ms (
      not_positive_if step_attempt c.step_attempt_ms (
        not_positive_if run c.run_ms
          (not_positive_if drain c.drain_ms (not_positive_if grace c.grace_ms (ceilings c))))))
  where
    layers : TimeoutConfig Number → List Violation
    layers d = violation_if (at_least d.http_call_ms d.step_attempt_ms) call_not_below_attempt (
        violation_if (at_least d.expression_ms d.step_attempt_ms) expression_not_below_attempt (
          violation_if (at_least d.step_attempt_ms d.run_ms) attempt_not_below_run (
            violation_if (above d.step_attempt_ms d.drain_ms) attempt_above_drain
              (violation_if (at_least d.drain_ms d.grace_ms) drain_not_below_grace []))))

    ceilings : TimeoutConfig Number → List Violation
    ceilings d = ceiling_if http_call d.http_call_ms 120_000 (
        ceiling_if expression d.expression_ms 1_000 (
          ceiling_if step_attempt d.step_attempt_ms 300_000
            (ceiling_if run d.run_ms 3_600_000 (layers d))))

-- the same configuration, as the check reads it
abbrev pub as_numbers : TimeoutConfig ℕ → TimeoutConfig Number
as_numbers c = record {
  http_call_ms = whole c.http_call_ms;
  expression_ms = whole c.expression_ms;
  step_attempt_ms = whole c.step_attempt_ms;
  run_ms = whole c.run_ms;
  drain_ms = whole c.drain_ms;
  grace_ms = whole c.grace_ms;
}

unfoldable pub step_deadline : ℕ → TimeoutConfig ℕ → ℕ
step_deadline started_at config = started_at + config.step_attempt_ms

-- The subtraction on ℕ stops at 0, as the `Math.max(0, …)` round it does.
unfoldable pub remaining_call_budget_ms : ℕ → ℕ → TimeoutConfig ℕ → ℕ
unfolding step_deadline
remaining_call_budget_ms now step_started_at config =
    min config.http_call_ms (step_deadline step_started_at config - now)

-- Of the layering, what the budget of a call rests on.
call_positive : (c : TimeoutConfig ℕ) → timeout_violations (as_numbers c) ≡ [] → 0 < c.http_call_ms
unfolding timeout_violations
call_positive c h = ground arith

-- A call that is given its budget has ended when the step's deadline fires, and a configured step
-- whose budget is not used up gets time for it: the budget is 0 only from the deadline on.
pub remaining_call_budget_ms-fits :
    (now step_started_at : ℕ) (c : TimeoutConfig ℕ)
    → timeout_violations (as_numbers c) ≡ []
    → now ≤ step_deadline step_started_at c
    → (now + remaining_call_budget_ms now step_started_at c ≤ step_deadline step_started_at c)
      × (remaining_call_budget_ms now step_started_at c ≤ c.http_call_ms)
      × (now < step_deadline step_started_at c → 0 < remaining_call_budget_ms now step_started_at c)
unfolding remaining_call_budget_ms
remaining_call_budget_ms-fits now step_started_at c v h =
    let positive = call_positive c v in (omega arith, omega arith, (λ k. omega arith))
