-- ===== src/SafeFetch/Request.antt =====
-- packages/automa-safe-fetch/src/safe-fetch.ts: one request, its headers and its pinned look-up. The
-- clock, the URL parser, DNS and the HTTP stack are the fields of `Network`; each may answer anew at
-- every hop.
use automa_build.Prelude.{
  ℕ, Bool, false, not, ◌&&◌, ◌||◌, Option, none, some, List, [], ◌∷◌, ltb, leb, ◌==◌, if◌then◌else◌,
  Text, units, text_eq, has_text, lower, keep, is_digit,
}
use automa_build.SafeFetch.Errors.{SsrfBlockedError, Checked, passed, blocked, unpinned_resolution}
use automa_build.SafeFetch.Url.{Url}
use automa_build.SafeFetch.Resolve.{Answer, ResolvedAddress}

-- `Record<string, string>`, one entry for a key
pub record Header : Type 0 where
  pub key : Text
  pub value : Text

pub record Request : Type 0 where
  pub url : Url
  pub method : Text
  pub headers : List Header
  pub body : Option Text

pub record RawResult : Type 0 where
  pub status : ℕ
  pub location : Option Text
  pub content_length : Option ℕ

pub data Exchange : Type 0 where
  replied : RawResult → Exchange
  broken : Exchange

pub record Network : Type 0 where
  -- `Date.now()` at the start of a hop
  pub clock : ℕ → ℕ
  -- `new URL(text)`, and `new URL(location, base).href`
  pub parse_url : Text → Option Url
  pub join_url : Text → Url → Option Text
  pub resolve4 : ℕ → Text → Answer
  pub resolve6 : ℕ → Text → Answer
  -- the name that the stack asks its look-up for, and the reply of the address that it dials; time-outs,
  -- aborts and socket errors are `broken`
  pub asks : ℕ → Request → Text
  pub exchange : ℕ → Request → ResolvedAddress → Exchange

pub record FetchOptions : Type 0 where
  pub max_redirects : ℕ
  pub max_response_bytes : ℕ
  pub timeout_ms : ℕ

pub record Connection : Type 0 where
  pub hop : ℕ
  pub address : ResolvedAddress
  pub request : Request

pub data Outcome : Type 0 where
  response : (result : RawResult) (from : Connection) → Outcome
  refused : SsrfBlockedError → Outcome
  too_many_redirects : (url : Text) → Outcome
  timed_out : (url : Text) → Outcome
  too_large : (url : Text) → Outcome
  transport_failed : Outcome
  bad_location : Outcome
  out_of_fuel : Outcome

unfoldable pub safe_origin : (Text → Option Url) → Text → Text
unfolding units
safe_origin parse_url text = elim (parse_url text) [
  | none ↦ units "unparseable:"
  | some url ↦ url.origin
]

unfoldable pub is_redirect : ℕ → Bool
is_redirect status =
    status == 301 || status == 302 || status == 303 || status == 307 || status == 308

unfoldable pub set_header : Header → List Header → List Header
set_header h [] = h ∷ []
set_header h (x ∷ xs) = if text_eq x.key h.key then h ∷ xs else x ∷ set_header h xs

-- The entries in their order, each under its key in lower case; a later one replaces an earlier one.
unfoldable pub normalise_headers : List Header → List Header → List Header
unfolding set_header lower
normalise_headers out [] = out
normalise_headers out (h ∷ hs) =
    normalise_headers (set_header (record { key = lower h.key; value = h.value }) out) hs

-- `delete headers[name]` for each of the names
unfoldable pub delete_headers : List Text → List Header → List Header
delete_headers names headers = keep (λ h. not (has_text names h.key)) headers

unfoldable pub sensitive_names : List Text
unfolding units
sensitive_names = units "authorization" ∷ units "cookie" ∷ units "proxy-authorization" ∷ []

unfoldable pub strip_sensitive_headers : List Header → List Header
unfolding delete_headers
strip_sensitive_headers headers = delete_headers sensitive_names headers

-- `createPinnedLookup`: the pinned address, for the expected name alone
unfoldable pub pinned_lookup : Text → ResolvedAddress → Text → Text → Checked ResolvedAddress
pinned_lookup expected pinned url hostname =
    if not (text_eq hostname expected)
    then blocked (record {
      reason = unpinned_resolution;
      url = url;
      hostname = hostname;
      resolved_ip = none;
      matched_range = none;
      hop = 0;
    })
    else passed pinned

-- what a request came to, with the connection that was opened for it
pub data Performed : Type 0 where
  unpinned : SsrfBlockedError → Performed
  connected : Connection → Exchange → Performed

unfoldable pub perform_request : Network → ℕ → Request → Text → ResolvedAddress → Performed
unfolding pinned_lookup
perform_request net hop request hostname pinned =
    elim (pinned_lookup hostname pinned request.url.href (net.asks hop request)) [
      | blocked error ↦ unpinned error
      | passed address ↦
          connected (record { hop = hop; address = address; request = request })
            (net.exchange hop request address)
    ]

-- `Number(headers['content-length']) > maxResponseBytes`
abbrev pub declared_too_large : ℕ → RawResult → Bool
declared_too_large cap result = elim result.content_length [
  | none ↦ false
  | some declared ↦ ltb cap declared
]

abbrev is_letter : ℕ → Bool
is_letter c = (leb b'a' c && leb c b'z') || (leb b'A' c && leb c b'Z')

abbrev is_scheme_unit : ℕ → Bool
is_scheme_unit c = is_letter c || is_digit c || c == b'+' || c == b'.' || c == b'-'

scheme_ends : Text → Bool
scheme_ends [] = false
scheme_ends (c ∷ cs) = c == b':' || (is_scheme_unit c && scheme_ends cs)

-- /^[a-zA-Z][a-zA-Z0-9+.-]*:/
unfoldable pub is_absolute : Text → Bool
unfolding scheme_ends
is_absolute [] = false
is_absolute (c ∷ cs) = is_letter c && scheme_ends cs
