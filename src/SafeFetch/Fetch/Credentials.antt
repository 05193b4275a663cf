-- ===== src/SafeFetch/Fetch/Credentials.antt =====
-- The credentials that `safeFetch` (packages/automa-safe-fetch/src/safe-fetch.ts) sends along.
use automa_build.Prelude.{
  ℕ, zero, suc, ◌+◌, ◌≡◌, ◌⊎◌, inl, inr, refl, subst, sym, false, Option, some, List, [], ◌∷◌,
  arith, Text, All, Bool-cases, has_text, text_eq, text_eq→≡, units, upper, get_or, lower,
}
use automa_build.SafeFetch.Blocklist.{Blocklist, BlocklistOptions, create_blocklist}
use automa_build.SafeFetch.Blocklist.Permitted.{WellRanged}
use automa_build.SafeFetch.Blocklist.Compiled.{create_blocklist-WellRanged}
use automa_build.SafeFetch.Url.{UrlPolicy}
use automa_build.SafeFetch.Request.{
  Network, FetchOptions, Connection, Header, RawResult, normalise_headers, set_header, safe_origin,
  strip_sensitive_headers, delete_headers, sensitive_names,
}
use automa_build.SafeFetch.Fetch.{
  Cursor, Hop, round, rounds, resume, safe_fetch, becomes_get, content_names, follow,
}
use automa_build.SafeFetch.Fetch.Rounds.{
  Step, Step.stops, Step.finishes, Step.follows, round-Step, Made,
}

-- none of `authorization`, `cookie` and `proxy-authorization`, in capitals or not
abbrev pub IsStripped : List Header → Type 0
IsStripped headers = All (λ (h : Header). has_text sensitive_names (lower h.key) ≡ false) headers

abbrev pub IsDiscreet : Text → Connection → Type 0
IsDiscreet origin k = (k.request.url.origin ≡ origin) ⊎ IsStripped k.request.headers

abbrev IsLower : Header → Type 0
IsLower h = lower h.key ≡ h.key

lower-lower : (t : Text) → lower (lower t) ≡ lower t
unfolding lower
lower-lower [] = refl
lower-lower (c ∷ cs) = ground (arith, lower-lower cs)

set_header-IsLower :
    (h : Header) (headers : List Header)
    → IsLower h
    → All IsLower headers
    → All IsLower (set_header h headers)
unfolding set_header
set_header-IsLower h [] l all = (l, tt)
set_header-IsLower h (x ∷ xs) l all = elim (Bool-cases (text_eq x.key h.key)) [
  | inl e ↦ rw e (l, all.1)
  | inr e ↦ rw e (all.0, set_header-IsLower h xs l all.1)
]

normalise_headers-IsLower :
    (out headers : List Header) → All IsLower out → All IsLower (normalise_headers out headers)
unfolding normalise_headers
normalise_headers-IsLower out [] all = all
normalise_headers-IsLower out (h ∷ hs) all =
    let low : Header = record { key = lower h.key; value = h.value } in
    normalise_headers-IsLower (set_header low out) hs
      (set_header-IsLower low out (lower-lower h.key) all)

delete_headers-All :
    (P : Header → Type 0) (names : List Text) (headers : List Header)
    → All P headers
    → All P (delete_headers names headers)
unfolding delete_headers
delete_headers-All P names [] s = tt
delete_headers-All P names (h ∷ hs) s = elim (Bool-cases (has_text names h.key)) [
  | inl e ↦ rw e (delete_headers-All P names hs s.1)
  | inr e ↦ rw e (s.0, delete_headers-All P names hs s.1)
]

strip-IsStripped :
    (headers : List Header) → All IsLower headers → IsStripped (strip_sensitive_headers headers)
unfolding strip_sensitive_headers delete_headers
strip-IsStripped [] l = tt
strip-IsStripped (h ∷ hs) l = elim (Bool-cases (has_text sensitive_names h.key)) [
  | inl e ↦ rw e (strip-IsStripped hs l.1)
  | inr e ↦ rw e (
    subst (λ (t : Text). has_text sensitive_names t ≡ false) (sym l.0) e,
    strip-IsStripped hs l.1,
  )
]

module _ (net : Network) (list : Blocklist) (policy : UrlPolicy) (options : FetchOptions)
    (origin : Text) (deadline : ℕ) (w : WellRanged list) where
  -- what the loop's variables are before each round
  abbrev IsCareful : Cursor → Type 0
  IsCareful c =
      All IsLower c.headers
      × ((safe_origin net.parse_url c.current_url ≡ origin) ⊎ IsStripped c.headers)

  follow-IsCareful :
      (result : RawResult) (c : Cursor) (next : Text)
      → IsCareful c
      → IsCareful (follow net origin result c next)
  unfolding follow strip_sensitive_headers
  follow-IsCareful result c next (low, s) =
      let stripped = strip_sensitive_headers c.headers in
      let low' : All IsLower stripped = delete_headers-All IsLower sensitive_names c.headers low in
      let s' = strip-IsStripped c.headers low in
      elim (Bool-cases (becomes_get result.status c.method)) [
        | inl g ↦ elim (Bool-cases (text_eq (safe_origin net.parse_url next) origin)) [
          | inl e ↦
              rw (e, g, follow)
                (
                  delete_headers-All IsLower content_names c.headers low,
                  inl (text_eq→≡ (safe_origin net.parse_url next) origin e),
                )
          | inr e ↦
              rw (e, g, follow)
                (
                  delete_headers-All IsLower content_names stripped low',
                  inr (
                      delete_headers-All
                        (λ (h : Header). has_text sensitive_names (lower h.key) ≡ false)
                        content_names stripped s'),
                )
        ]
        | inr g ↦ elim (Bool-cases (text_eq (safe_origin net.parse_url next) origin)) [
          | inl e ↦
              rw (e, g, follow) (low, inl (text_eq→≡ (safe_origin net.parse_url next) origin e))
          | inr e ↦ rw (e, g, follow) (low', inr s')
        ]
      ]

  Made-IsDiscreet :
      (hop : ℕ) (c : Cursor) (k : Connection)
      → IsCareful c
      → Made net list policy options origin deadline hop c k
      → IsDiscreet origin k
  unfolding safe_origin
  Made-IsDiscreet hop c k (low, s) (d, p, u, e) = elim s [
    | inl same ↦ inl (rw (p, safe_origin) at same)
    | inr stripped ↦ inr (rw e stripped)
  ]

  resume-IsDiscreet :
      (fuel hop : ℕ) (c : Cursor) (r : Hop × List Connection)
      → IsCareful c
      → Step net list policy options origin deadline hop c r
      → ((next : Cursor)
          → IsCareful next
          → All
              (IsDiscreet origin)
              (rounds net list policy options origin deadline fuel (hop + 1) next).1)
      → All
          (IsDiscreet origin)
          (resume (rounds net list policy options origin deadline fuel (hop + 1)) r).1
  unfolding resume
  resume-IsDiscreet fuel hop c r s (stops n) ih = tt
  resume-IsDiscreet fuel hop c r s (finishes {o} {k} n m) ih = (Made-IsDiscreet hop c k s m, tt)
  resume-IsDiscreet fuel hop c r s (follows {k} result next m b) ih = (
    Made-IsDiscreet hop c k s m,
    ih (follow net origin result c next) (follow-IsCareful result c next s),
  )

  rounds-IsDiscreet :
      (fuel hop : ℕ) (c : Cursor)
      → IsCareful c
      → All (IsDiscreet origin) (rounds net list policy options origin deadline fuel hop c).1
  unfolding rounds
  rounds-IsDiscreet zero hop c s = tt
  rounds-IsDiscreet (suc fuel) hop c s =
      resume-IsDiscreet fuel hop c (round net list policy options origin deadline hop c) s
        (round-Step net list policy options origin deadline hop c w)
        (λ next n. rounds-IsDiscreet fuel (hop + 1) next n)

-- With a block list that `createBlocklist` made, every connection of a call goes to the origin
-- that the call was made for, or carries no authorization, cookie or proxy-authorization header,
-- in capitals or not: wherever the servers redirect, back and forth between origins included.
pub safe_fetch-IsDiscreet :
    (blocking : BlocklistOptions) (net : Network) (list : Blocklist) (policy : UrlPolicy)
    (options : FetchOptions) (started : ℕ) (input : Text) (method body : Option Text)
    (headers : List Header)
    → create_blocklist blocking ≡ some list
    → All
        (IsDiscreet (safe_origin net.parse_url input))
        (safe_fetch net list policy options started input method body headers).1
unfolding safe_fetch
safe_fetch-IsDiscreet blocking net list policy options started input method body headers made =
    rounds-IsDiscreet net list policy options (safe_origin net.parse_url input)
      (started + options.timeout_ms) (create_blocklist-WellRanged blocking list made)
      (options.max_redirects + 1) 0
      (record {
        current_url = input;
        method = upper (get_or method (units "GET"));
        body = body;
        headers = normalise_headers [] headers;
      })
      (normalise_headers-IsLower [] headers tt, inl refl)
