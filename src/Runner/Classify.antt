-- ===== src/Runner/Classify.antt =====
-- packages/automa-durable-runner/src/classify.ts, `classify`
-- `parseRetryAfter` is not modelled: it rests on the JavaScript date parser.
pub mod Safety
use Prim.Native.String.{String}
use automa_build.Prelude.{
  ℕ, ◌≡◌, ◌≢◌, ◌⊎◌, refl, Bool, true, false, not, ◌&&◌, ◌||◌, Option, none, some, List, [], ◌∷◌,
  arith, leb, ◌==◌, if◌then◌else◌, includes,
}
use automa_build.Runner.ErrorClasses.{
  ErrorClass, transient_network, rate_limited, auth_expired, auth_broken, client_error,
  server_error, timeout, internal, poison,
}

-- A missing flag is `false`: the source only asks whether it is `true`.
pub record FailureFacts : Type 0 where
  pub http_status : Option ℕ
  pub code : Option String
  pub request_sent : Bool
  pub response_received : Bool
  pub deadline_exceeded : Bool
  pub deterministically_broken : Bool
  pub refresh_already_attempted : Bool
  pub internal : Bool
  pub retry_after_ms : Option ℕ

-- What `{ internal: true }` and the like are spelled out to.
abbrev pub no_facts : FailureFacts
no_facts = record {
  http_status = none;
  code = none;
  request_sent = false;
  response_received = false;
  deadline_exceeded = false;
  deterministically_broken = false;
  refresh_already_attempted = false;
  internal = false;
  retry_after_ms = none;
}

abbrev pub transient_codes : List String
transient_codes =
    "ECONNRESET" ∷ "ECONNREFUSED" ∷ "ENOTFOUND" ∷ "EAI_AGAIN" ∷ "EPIPE" ∷ "EHOSTUNREACH"
    ∷ "ENETUNREACH" ∷ "ETIMEDOUT" ∷ "UND_ERR_SOCKET" ∷ "UND_ERR_CONNECT_TIMEOUT" ∷ []

abbrev pub is_transient_code : Option String → Bool
is_transient_code none = false
is_transient_code (some code) = includes transient_codes code

classify_status : ℕ → Bool → ErrorClass
classify_status status refreshed =
    if status == 429
    then rate_limited
    else if status == 401 || status == 403
    then if refreshed then auth_broken else auth_expired
    else if status == 408
    then timeout
    else if leb 500 status
    then server_error
    else if leb 400 status
    then client_error
    else ErrorClass.internal

classify_no_response : FailureFacts → ErrorClass
classify_no_response f =
    if f.deadline_exceeded
    then timeout
    else if is_transient_code f.code
    then if f.request_sent && not f.response_received then timeout else transient_network
    else ErrorClass.internal

unfoldable pub classify : FailureFacts → ErrorClass
unfolding classify_status classify_no_response
classify f =
    if f.deterministically_broken
    then poison
    else if f.internal
    then ErrorClass.internal
    else elim f.http_status [
      | none ↦ classify_no_response f
      | some status ↦ classify_status status f.refresh_already_attempted
    ]
