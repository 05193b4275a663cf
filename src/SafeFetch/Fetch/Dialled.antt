-- ===== src/SafeFetch/Fetch/Dialled.antt =====
-- The connections of `safeFetch` (packages/automa-safe-fetch/src/safe-fetch.ts) and their addresses.
use automa_build.Prelude.{
  ℕ, zero, suc, ◌+◌, ◌≤◌, ◌≡◌, ◌≢◌, Option, some, List, [], arith, Text, All, length, units, upper,
  get_or,
}
use automa_build.SafeFetch.Blocklist.{Blocklist, BlocklistOptions, create_blocklist}
use automa_build.SafeFetch.Blocklist.Permitted.{WellRanged}
use automa_build.SafeFetch.Blocklist.Compiled.{create_blocklist-WellRanged}
use automa_build.SafeFetch.Url.{UrlPolicy}
use automa_build.SafeFetch.Url.Vetted.{IsFetchable}
use automa_build.SafeFetch.Resolve.Every.{MayDial}
use automa_build.SafeFetch.Request.{
  Network, FetchOptions, Connection, Outcome, Header, out_of_fuel, normalise_headers, safe_origin,
}
use automa_build.SafeFetch.Fetch.{Cursor, Hop, round, rounds, resume, safe_fetch, follow}
use automa_build.SafeFetch.Fetch.Rounds.{Step, Step.stops, Step.finishes, Step.follows, round-Step}

-- a connection to an address that may be dialled, for a URL that may be fetched
abbrev pub IsDialled : Blocklist → UrlPolicy → Connection → Type 0
IsDialled list policy k = MayDial list k.address × IsFetchable list policy k.request.url

-- The call has ended, its connections are no more than the rounds, and all were checked.
abbrev pub IsSafe : Blocklist → UrlPolicy → ℕ → Outcome × List Connection → Type 0
IsSafe list policy fuel r =
    (r.0 ≢ out_of_fuel) × (length r.1 ≤ fuel) × All (IsDialled list policy) r.1

module _ (net : Network) (list : Blocklist) (policy : UrlPolicy) (options : FetchOptions)
    (origin : Text) (deadline : ℕ) (w : WellRanged list) where
  resume-IsSafe :
      (fuel hop : ℕ) (c : Cursor) (r : Hop × List Connection)
      → Step net list policy options origin deadline hop c r
      → hop + suc fuel ≡ options.max_redirects + 1
      → ((next : Cursor)
          → (hop + 1) + fuel ≡ options.max_redirects + 1
          → 1 ≤ fuel
          → IsSafe list policy fuel
              (rounds net list policy options origin deadline fuel (hop + 1) next))
      → IsSafe list policy
          (suc fuel)
          (resume (rounds net list policy options origin deadline fuel (hop + 1)) r)
  unfolding resume
  resume-IsSafe fuel hop c r (stops n) h ih = (n, omega arith, tt)
  resume-IsSafe fuel hop c r (finishes n (d, p, u, e)) h ih = (n, omega arith, ((d, u), tt))
  resume-IsSafe fuel hop c r (follows {k} result next (d, p, u, e) b) h ih =
      let (o, n, all) = ih (follow net origin result c next) (omega arith) (omega arith) in
      (o, omega arith, ((d, u), all))

  rounds-IsSafe :
      (fuel hop : ℕ) (c : Cursor)
      → hop + fuel ≡ options.max_redirects + 1
      → 1 ≤ fuel
      → IsSafe list policy fuel (rounds net list policy options origin deadline fuel hop c)
  unfolding rounds
  rounds-IsSafe zero hop c h p = absurd (omega arith)
  rounds-IsSafe (suc fuel) hop c h p =
      resume-IsSafe fuel hop c (round net list policy options origin deadline hop c)
        (round-Step net list policy options origin deadline hop c w) h
        (λ next e q. rounds-IsSafe fuel (hop + 1) next e q)

-- With a block list that `createBlocklist` made, a call of `safeFetch` ends, opens at most one
-- connection more than the redirects it may follow, and each of them goes to an address that the
-- list permits, for a URL of an allowed scheme and port, with no credentials in it and a host name
-- that no rule blocks: whatever DNS answers at each hop, and wherever the servers redirect.
pub safe_fetch-IsSafe :
    (blocking : BlocklistOptions) (net : Network) (list : Blocklist) (policy : UrlPolicy)
    (options : FetchOptions) (started : ℕ) (input : Text) (method body : Option Text)
    (headers : List Header)
    → create_blocklist blocking ≡ some list
    → IsSafe list policy
        (options.max_redirects + 1)
        (safe_fetch net list policy options started input method body headers)
unfolding safe_fetch
safe_fetch-IsSafe blocking net list policy options started input method body headers made =
    rounds-IsSafe net list policy options (safe_origin net.parse_url input)
      (started + options.timeout_ms) (create_blocklist-WellRanged blocking list made)
      (options.max_redirects + 1) 0
      (record {
        current_url = input;
        method = upper (get_or method (units "GET"));
        body = body;
        headers = normalise_headers [] headers;
      })
      (omega arith) (omega arith)
