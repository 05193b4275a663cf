-- ===== src/Lib.antt =====
-- A verification library for AutomaBuild's packages: the durable execution engine
-- (packages/automa-durable-runner), outbound requests (packages/automa-safe-fetch), signed deliveries
-- (packages/automa-webhook-gate), and the graph that a flow is drawn as (packages/automa-flow-canvas).
--
-- The engine runs a flow as a row per run and a row per step in PostgreSQL. A relay takes messages
-- from an outbox and calls `advanceRun` (which step is next, or how has the run ended?) or `runStep`
-- (claim a step under a lease, call its handler, record what came of it, and enqueue the next
-- `advance_run`). Failures are classified, and a table decides on retries, delays and dead letters. A
-- janitor puts back the messages of runs that lost theirs, and an operator resumes stopped runs.
--
-- `safeFetch` refuses addresses that a flow must not reach. Each URL, the first and each redirect, is
-- checked for its shape and host name, all DNS records of the name are checked against the block list,
-- and the connection goes to one of the checked addresses. A webhook gate verifies the signature of a
-- delivery over its raw body, and only then asks a replay store whether it is the first of its key. The
-- canvas refuses a connection that would close a cycle while it is being drawn. The packages do not
-- call one another; the application puts them together.
--
-- Files, and the code under packages/automa-durable-runner/src that each is about:
--   Runner/ErrorClasses   error-classes.ts: the table of classes, `decideRetry`
--   Runner/Backoff        backoff.ts, random.ts: windows, delays; its child is on their bounds
--   Runner/Retry          retry.ts: `onAttemptFailed`, `simulateLadder`; children on budgets and ladders
--   Runner/Timeouts       timeouts.ts: the layered configuration and its budgets
--   Runner/Classify       classify.ts: facts of a failure to its class
--   Runner/Branching      branching.ts: `reachableFrom`, `stepsToSkip`
--   Runner/Types          types.ts: statuses and rows; `Db` is the database, a list per table
--   Runner/Repository     engine/repository.ts: a function per statement, with its WHERE clauses
--   Runner/Orchestrator   engine/orchestrator.ts: `advanceRun`, its choice of a step, its answers
--   Runner/Executor       engine/executor.ts: `runStep`, its three parts in a file each, and what follows
--   Runner/Janitor        engine/janitor.ts: `sweep`
--   Runner/Resume         engine/resume.ts: `resumeRun`, `replayDlqEntry`
--   Runner/Lease          repository.ts with executor.ts: who may work on a step, and how many at once
--   Runner/Soundness      all operations together, as the steps of a history (`Protocol`)
-- under packages/automa-safe-fetch/src:
--   SafeFetch/Ip          ip.ts: addresses and their texts; children print, read back, count bytes
--   SafeFetch/Cidr        ip.ts: ranges; its child compares them with prefixes of bits
--   SafeFetch/Encoded     ip.ts: `detectEncodedIpLiteral`
--   SafeFetch/Errors      errors.ts
--   SafeFetch/Blocklist   blocklist.ts; children on what a list permits, its parsing, its defaults
--   SafeFetch/Url         url.ts: `validateUrl`
--   SafeFetch/Resolve     resolve.ts: `resolveAndValidate`
--   SafeFetch/Request     safe-fetch.ts: requests, headers, the pinned look-up
--   SafeFetch/Fetch       safe-fetch.ts: the redirect loop; children on its rounds, the addresses it
--                         dials, the credentials it sends, and the cap on a body
-- under packages/automa-webhook-gate/src:
--   WebhookGate/Common    verify/common.ts: headers, limits, tolerance, matching
--   WebhookGate/Stripe    verify/stripe.ts; its child is on the dedup key
--   WebhookGate/Slack     verify/slack.ts
--   WebhookGate/Github    verify/github.ts; its child is on the dedup key
--   WebhookGate/Store     replay/store.ts: the interface and its laws; replay/memory.ts
--   WebhookGate/Gate      gate.ts; children on one answer, and on histories of requests
-- under packages/automa-flow-canvas/src:
--   FlowCanvas/Graph      core/graph.ts: `descendants`, `canConnect`; store/graph-store.ts: `connect`,
--                         `removeNode`; children on cycles and on the ends of edges
--   Prelude               names of the libraries, list functions, texts as UTF-16 code units, numerals
--   Tests                 runs on concrete inputs
--
-- A transaction is a function from one `Db` to the next. Most of them change rows by one statement
-- whose WHERE clause makes the test, and the claims of a tenant under limits are ordered by an
-- advisory lock. Where the source reads first and others may commit before it writes, the function
-- takes two databases, the one that was read and the one that is written: `create_run` for its look at
-- the idempotency key, `advance_run` for the run, which `getRun` reads without a lock. `run_step`
-- takes what others did between its transactions. The other reads of a transaction (of the steps in
-- `advanceRun`, of the run in a resume, the queries of a sweep) make one step with its writes. Clocks
-- are arguments: `now` is the database's, `node_now` that of the process. Fresh ids come from a
-- counter in `Db`. The random number, the handlers, the flow resolver and the hash of an idempotency
-- key are arguments. So are the WHATWG URL parser, DNS and the HTTP stack of `safeFetch`, the fields
-- of `Network`, which may answer anew at each hop; the HMAC of a signature; and the verifiers and the
-- store of a gate.
--
-- Instants and durations are natural numbers of milliseconds, but the timeouts that are checked at
-- startup are numbers of JavaScript; JavaScript's subtractions in the code
-- never go below 0 where the model subtracts, or are wrapped in `Math.max(0, …)`. Three loops run
-- on fuel. Those of `reachableFrom` and of the canvas's `walk` take an entry off the stack in each
-- round, and an edge puts an entry on it once, so as much fuel as starting entries and edges is enough.
-- That of `safeFetch` has a round more than the redirects it may follow: a redirect in the last round
-- is refused. A timestamp of a delivery is a whole number, without the rounding of large ones.
--
-- Not modelled: connections, migrations, timers and signals (I/O); `partitionHealth` (the catalogue of
-- pg_partman); `parseRetryAfter` (JavaScript's date parser); the language of branch conditions; of
-- safe-fetch the sockets, timers, abort signals, default headers, the `onConnect` callback and the
-- stream of the body; of webhook-gate the other schemes, PostgreSQL and the HTTP server; of flow-canvas
-- its undo history, validation, patches and React components; the application.
pub mod Prelude
pub mod Runner
pub mod SafeFetch
pub mod WebhookGate
pub mod FlowCanvas
mod Tests
