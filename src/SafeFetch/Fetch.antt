-- ===== src/SafeFetch/Fetch.antt =====
-- packages/automa-safe-fetch/src/safe-fetch.ts: the redirect loop. What leaves the process is the list
-- of connections, in order.
pub mod Cap
pub mod Rounds
pub mod Dialled
pub mod Credentials
use automa_build.Prelude.{
  ℕ, zero, suc, ◌+◌, Bool, not, ◌&&◌, ◌||◌, Option, none, some, List, [], ◌∷◌, ◌++◌, ltb, leb, ◌==◌,
  if◌then◌else◌, Text, units, text_eq, upper, get_or,
}
use automa_build.SafeFetch.Errors.{Checked, passed, blocked}
use automa_build.SafeFetch.Blocklist.{Blocklist}
use automa_build.SafeFetch.Url.{Url, UrlPolicy, ValidatedUrl, validate_url}
use automa_build.SafeFetch.Resolve.{ResolvedAddress, resolve_and_validate}
use automa_build.SafeFetch.Request.{
  Connection, FetchOptions, Header, Network, Outcome, RawResult, Request, bad_location, broken,
  connected, declared_too_large, delete_headers, is_absolute, is_redirect, normalise_headers,
  out_of_fuel, perform_request, refused, replied, response, safe_origin, strip_sensitive_headers,
  timed_out, too_large, too_many_redirects, transport_failed, unpinned,
}

unfoldable pub addresses_of :
    Network → Blocklist → ℕ → Text → ValidatedUrl → Checked (List ResolvedAddress)
unfolding resolve_and_validate
addresses_of net list hop current validated = elim validated.literal_address [
  | some literal ↦ passed (record { text = literal.text; bytes = literal.bytes } ∷ [])
  | none ↦
      resolve_and_validate list (record { url = current; hop = hop }) validated.hostname
        (net.resolve4 hop validated.hostname) (net.resolve6 hop validated.hostname)
]

-- the variables of the loop
pub record Cursor : Type 0 where
  pub current_url : Text
  pub method : Text
  pub body : Option Text
  pub headers : List Header

-- how a hop ends: with the result of the call, or with the next round
pub data Hop : Type 0 where
  ends : Outcome → Hop
  goes_on : Cursor → Hop

abbrev content_names : List Text
content_names = units "content-type" ∷ units "content-length" ∷ []

-- the redirects after which the method is GET
unfoldable pub becomes_get : ℕ → Text → Bool
unfolding units
becomes_get status method =
    status == 303 || ((status == 301 || status == 302) && text_eq method (units "POST"))

-- the end of the loop's body: credentials, method and body for the next URL
unfoldable pub follow : Network → Text → RawResult → Cursor → Text → Cursor
unfolding strip_sensitive_headers delete_headers safe_origin becomes_get units
follow net origin result c next =
    let headers =
      if not (text_eq (safe_origin net.parse_url next) origin)
      then strip_sensitive_headers c.headers
      else c.headers in
    if becomes_get result.status c.method
    then record {
      current_url = next;
      method = units "GET";
      body = none;
      headers = delete_headers content_names headers;
    }
    else record { current_url = next; method = c.method; body = c.body; headers = headers }

-- what is done with a reply
unfoldable pub after_reply :
    Network → FetchOptions → Text → ℕ → Url → Cursor → Connection → RawResult → Hop
unfolding follow is_redirect is_absolute
after_reply net options origin hop url c connection result =
    if declared_too_large options.max_response_bytes result
    then ends (too_large url.href)
    else if not (is_redirect result.status)
    then ends (response result connection)
    else elim result.location [
      | none ↦ ends (response result connection)
      | some location ↦
          elim (if is_absolute location then some location else net.join_url location url) [
            | none ↦ ends bad_location
            | some next ↦
                if ltb options.max_redirects (hop + 1)
                then ends (too_many_redirects next)
                else goes_on (follow net origin result c next)
          ]
    ]

-- one round with an address to dial
unfoldable pub dial :
    Network
    → FetchOptions
    → Text
    → ℕ
    → Cursor
    → ValidatedUrl
    → ResolvedAddress
    → Hop × List Connection
unfolding perform_request after_reply
dial net options origin hop c validated pinned =
    let request : Request = record {
      url = validated.url;
      method = c.method;
      headers = c.headers;
      body = c.body;
    } in
    elim (perform_request net hop request validated.hostname pinned) [
      | unpinned error ↦ (ends (refused error), [])
      | connected connection (broken) ↦ (ends transport_failed, connection ∷ [])
      | connected connection (replied result) ↦
          (after_reply net options origin hop validated.url c connection result, connection ∷ [])
    ]

-- the body of the loop
unfoldable pub round :
    Network → Blocklist → UrlPolicy → FetchOptions → Text → ℕ → ℕ → Cursor → Hop × List Connection
unfolding validate_url addresses_of dial
round net list policy options origin deadline hop c =
    if ltb options.max_redirects hop
    then (ends (too_many_redirects c.current_url), [])
    else if leb deadline (net.clock hop)
    then (ends (timed_out c.current_url), [])
    else elim (validate_url net.parse_url c.current_url list policy hop) [
      | blocked error ↦ (ends (refused error), [])
      | passed validated ↦ elim (addresses_of net list hop c.current_url validated) [
        | blocked error ↦ (ends (refused error), [])
        | passed [] ↦ (ends transport_failed, [])
        | passed (pinned ∷ _) ↦ dial net options origin hop c validated pinned
      ]
    ]

-- what a round is followed by
unfoldable pub resume :
    (Cursor → Outcome × List Connection) → Hop × List Connection → Outcome × List Connection
resume next_round (ends outcome, made) = (outcome, made)
resume next_round (goes_on c, made) = let (outcome, more) = next_round c in (outcome, made ++ more)

-- the loop, on fuel
unfoldable pub rounds :
    Network
    → Blocklist
    → UrlPolicy
    → FetchOptions
    → Text
    → ℕ
    → ℕ
    → ℕ
    → Cursor
    → Outcome × List Connection
unfolding round resume
rounds net list policy options origin deadline zero hop c = (out_of_fuel, [])
rounds net list policy options origin deadline (suc fuel) hop c =
    resume (rounds net list policy options origin deadline fuel (hop + 1))
      (round net list policy options origin deadline hop c)

-- The address is a text. The options are those of the call, or else those of the instance.
unfoldable pub safe_fetch :
    Network
    → Blocklist
    → UrlPolicy
    → FetchOptions
    → ℕ
    → Text
    → Option Text
    → Option Text
    → List Header
    → Outcome × List Connection
unfolding rounds normalise_headers safe_origin upper units
safe_fetch net list policy options started input method body headers =
    rounds net list policy options (safe_origin net.parse_url input) (started + options.timeout_ms)
      (options.max_redirects + 1) 0
      (record {
        current_url = input;
        method = upper (get_or method (units "GET"));
        body = body;
        headers = normalise_headers [] headers;
      })
