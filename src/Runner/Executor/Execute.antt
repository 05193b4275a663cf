-- ===== src/Runner/Executor/Execute.antt =====
-- The second part of `runStep` in executor.ts: find the flow, call the handler. A message is kept
-- without the values that the source puts into it.

use Prim.Native.String.{String}
use automa_build.Prelude.{
  Bool, true, false, Option, none, some, List, [], ◌∷◌, if◌then◌else◌, find, str_eq,
}
use automa_build.Runner.Classify.{FailureFacts, no_facts}
use automa_build.Runner.Types.{StepStatus, Json, FlowNode, FlowDefinition, RunRow, StepRow, Db}
use automa_build.Runner.Repository.Steps.{list_steps}
use automa_build.Runner.Executor.Deps.{Handled, returned, step_failure, threw, Deps}

pub data FlowFound : Type 0 where
  found : FlowDefinition → FlowFound
  unavailable : FlowFound
  -- neither `flow` nor `flows` was given: an exception that leaves the step running
  misconfigured : FlowFound

abbrev found_or : FlowFound → Option FlowDefinition → FlowFound
found_or other none = other
found_or other (some f) = found f

unfoldable pub flow_for : Deps → RunRow → FlowFound
flow_for deps run = elim deps.flows [
  | some flows ↦ found_or unavailable (flows run.flow_version_id)
  | none ↦ found_or misconfigured deps.flow
]

unfoldable pub node_for : FlowDefinition → StepRow → FlowNode
node_for flow step = elim (find (λ (n : FlowNode). str_eq n.id step.node_id) flow.nodes) [
  | some node ↦ node
  | none ↦ record {
    id = step.node_id;
    kind = step.step_kind;
    idempotent = false;
    config = none;
    max_attempts = none;
  }
]

abbrev is_resolvable : StepStatus → Bool
is_resolvable StepStatus.succeeded = true
is_resolvable StepStatus.skipped_resumed = true
is_resolvable _ = false

-- A later step of the same node overwrites an earlier one's output: the reader takes the last entry.
unfoldable pub upstream_of : List StepRow → List (String × Option Json)
upstream_of [] = []
upstream_of (s ∷ ss) =
    if is_resolvable s.status then (s.node_id, s.output) ∷ upstream_of ss else upstream_of ss

-- What the handler's call came to, and the flow that it ran in.
pub data Execution : Type 0 where
  produced : FlowDefinition → Option Json → Execution
  broke : Option FlowDefinition → FailureFacts → (message : String) → Execution
  escaped : Execution

handled : FlowDefinition → Handled → Execution
handled flow (returned output) = produced flow output
handled flow (step_failure facts message) = broke (some flow) facts message
handled flow (threw message) = broke (some flow) (record no_facts { internal = true }) message

-- `db` is read after the claim, for the outputs of earlier steps.
unfoldable pub execute : Db → Deps → RunRow → StepRow → Execution
unfolding flow_for node_for upstream_of list_steps handled
execute db deps run step = elim (flow_for deps run) [
  | misconfigured ↦ escaped
  | unavailable ↦
      broke none (record no_facts { deterministically_broken = true })
        "flow version is not available"
  | found flow ↦ elim (deps.handlers step.step_kind) [
    | none ↦
        broke (some flow) (record no_facts { deterministically_broken = true })
          "no handler registered for step kind"
    | some handler ↦ handled flow (
        handler (record {
          run = run;
          step = step;
          node = node_for flow step;
          idempotency_key = step.idempotency_key;
          upstream = upstream_of (
              list_steps db
                (record { run_id = step.run_id; run_started_at = step.run_started_at }));
          deadline_ms = deps.timeouts.step_attempt_ms;
        }))
  ]
]
