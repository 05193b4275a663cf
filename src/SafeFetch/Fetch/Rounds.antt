-- ===== src/SafeFetch/Fetch/Rounds.antt =====
-- The rounds of the loop of packages/automa-safe-fetch/src/safe-fetch.ts, case by case.
use automa_build.Prelude.{
  ℕ, ◌+◌, ◌≤◌, ◌≡◌, ◌≢◌, ◌⊎◌, inl, inr, refl, subst, ap, Option, some, List, [], ◌∷◌, arith, Text,
  All, Option-cases, Bool-cases, ltb, leb, text_eq, if◌then◌else◌,
}
use automa_build.SafeFetch.Errors.{SsrfBlockedError, Checked, passed, blocked}
use automa_build.SafeFetch.Blocklist.{Blocklist}
use automa_build.SafeFetch.Blocklist.Permitted.{WellRanged}
use automa_build.SafeFetch.Url.{Url, UrlPolicy, ValidatedUrl, LiteralAddress, validate_url}
use automa_build.SafeFetch.Url.Vetted.{IsFetchable, MayBeDialled, validate_url-IsFetchable}
use automa_build.SafeFetch.Resolve.{ResolvedAddress}
use automa_build.SafeFetch.Resolve.Every.{MayDial, resolve_and_validate-EveryRecord, value_of}
use automa_build.SafeFetch.Request.{
  Network, FetchOptions, Connection, Outcome, out_of_fuel, RawResult, Request, Exchange, broken,
  replied, is_redirect, declared_too_large, is_absolute, perform_request, pinned_lookup,
}
use automa_build.SafeFetch.Fetch.{
  Cursor, Hop, ends, goes_on, addresses_of, dial, round, follow, after_reply,
}

Checked-cases {ℓ} :
    {A : Type ℓ} (c : Checked A)
    → ((a : A) × (c ≡ passed a)) ⊎ ((e : SsrfBlockedError) × (c ≡ blocked e))
Checked-cases (passed a) = inl (a, refl)
Checked-cases (blocked e) = inr (e, refl)

Exchange-cases : (x : Exchange) → (x ≡ broken) ⊎ ((r : RawResult) × (x ≡ replied r))
Exchange-cases broken = inl refl
Exchange-cases (replied r) = inr (r, refl)

module _ (net : Network) (list : Blocklist) (policy : UrlPolicy) (options : FetchOptions)
    (origin : Text) (deadline hop : ℕ) (c : Cursor) where
  -- what is known of a connection that the round opens
  abbrev pub Made : Connection → Type 0
  Made k =
      MayDial list k.address
      × (net.parse_url c.current_url ≡ some k.request.url)
      × IsFetchable list policy k.request.url
      × (k.request.headers ≡ c.headers)

  -- How a round ends: before a connection, after one, or with a redirect that is followed.
  pub data Step : Hop × List Connection → Type 0 where
    stops : {o : Outcome} → o ≢ out_of_fuel → Step (ends o, [])
    finishes : {o : Outcome} {k : Connection} → o ≢ out_of_fuel → Made k → Step (ends o, k ∷ [])
    follows :
        {k : Connection} (result : RawResult) (next : Text)
        → Made k
        → hop + 1 ≤ options.max_redirects
        → Step (goes_on (follow net origin result c next), k ∷ [])

  after_reply-Step :
      (url : Url) (k : Connection) (result : RawResult)
      → Made k
      → Step (after_reply net options origin hop url c k result, k ∷ [])
  unfolding after_reply
  after_reply-Step url k result m =
      elim (Bool-cases (declared_too_large options.max_response_bytes result)) [
        | inl e ↦ rw (e, after_reply) (finishes (λ h. cc) m)
        | inr e ↦ elim (Bool-cases (is_redirect result.status)) [
          | inr f ↦ rw (e, f, after_reply) (finishes (λ h. cc) m)
          | inl f ↦ elim (Option-cases result.location) [
            | inl g ↦ rw (e, f, g, after_reply) (finishes (λ h. cc) m)
            | inr (location, g) ↦
                elim (Option-cases
                  (if is_absolute location then some location else net.join_url location url)) [
                    | inl n ↦ rw (e, f, g, n, after_reply) (finishes (λ h. cc) m)
                    | inr (next, n) ↦ elim (Bool-cases (ltb options.max_redirects (hop + 1))) [
                      | inl b ↦ rw (e, f, g, n, b, after_reply) (finishes (λ h. cc) m)
                      | inr b ↦
                          rw (e, f, g, n, b, after_reply) (follows result next m (ground arith))
                    ]
                  ]
          ]
        ]
      ]

  dial-Step :
      (v : ValidatedUrl) (pinned : ResolvedAddress)
      → MayDial list pinned
      → net.parse_url c.current_url ≡ some v.url
      → IsFetchable list policy v.url
      → Step (dial net options origin hop c v pinned)
  unfolding dial perform_request pinned_lookup
  dial-Step v pinned m p u =
      let request : Request = record {
        url = v.url;
        method = c.method;
        headers = c.headers;
        body = c.body;
      } in
      let k : Connection = record { hop = hop; address = pinned; request = request } in
      elim (Bool-cases (text_eq (net.asks hop request) v.hostname)) [
        | inr e ↦ rw (e, dial) (stops (λ h. cc))
        | inl e ↦ elim (Exchange-cases (net.exchange hop request pinned)) [
          | inl f ↦ rw (e, f, dial) (finishes (λ h. cc) (m, p, u, refl))
          | inr (result, f) ↦ rw (e, f, dial) (after_reply-Step v.url k result (m, p, u, refl))
        ]
      ]

  addresses_of-MayDial :
      (v : ValidatedUrl) (found : List ResolvedAddress)
      → WellRanged list
      → MayBeDialled list v.literal_address
      → addresses_of net list hop c.current_url v ≡ passed found
      → All (MayDial list) found
  unfolding addresses_of
  addresses_of-MayDial v found w m h = elim (Option-cases v.literal_address) [
    | inl e ↦
        (resolve_and_validate-EveryRecord list (record { url = c.current_url; hop = hop })
          v.hostname (net.resolve4 hop v.hostname) (net.resolve6 hop v.hostname) found w
          (rw (e, addresses_of) at h)).1
    | inr (l, e) ↦
        let one : ResolvedAddress = record { text = l.text; bytes = l.bytes } in
        let d : MayBeDialled list (some l) =
          subst (λ (o : Option LiteralAddress). MayBeDialled list o) e m in
        let g : passed (one ∷ []) ≡ passed found = rw (e, addresses_of) at h in
        subst (λ (x : List ResolvedAddress). All (MayDial list) x) (ap value_of g) (d, tt)
  ]

  pub round-Step : WellRanged list → Step (round net list policy options origin deadline hop c)
  unfolding round
  round-Step w = elim (Bool-cases (ltb options.max_redirects hop)) [
    | inl e ↦ rw (e, round) (stops (λ h. cc))
    | inr e ↦ elim (Bool-cases (leb deadline (net.clock hop))) [
      | inl f ↦ rw (e, f, round) (stops (λ h. cc))
      | inr f ↦ elim (Checked-cases (validate_url net.parse_url c.current_url list policy hop)) [
        | inr (error, g) ↦ rw (e, f, g, round) (stops (λ h. cc))
        | inl (v, g) ↦
            let (parsed, fetchable, literal) =
              validate_url-IsFetchable net.parse_url c.current_url list policy hop v w g in
            elim (Checked-cases (addresses_of net list hop c.current_url v)) [
              | inr (error, k) ↦ rw (e, f, g, k, round) (stops (λ h. cc))
              | inl ([], k) ↦ rw (e, f, g, k, round) (stops (λ h. cc))
              | inl (pinned ∷ more, k) ↦
                  let d = addresses_of-MayDial v (pinned ∷ more) w literal k in
                  rw (e, f, g, k, round) (dial-Step v pinned d.0 parsed fetchable)
            ]
      ]
    ]
  ]
