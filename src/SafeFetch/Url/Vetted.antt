-- ===== src/SafeFetch/Url/Vetted.antt =====
-- What `validateUrl` (packages/automa-safe-fetch/src/url.ts) has looked at.
use automa_build.Prelude.{
  ℕ, ◌≡◌, ◌≢◌, inl, inr, refl, subst, sym, true, false, not, ◌||◌, Option, none, some, [], ◌∷◌,
  arith, Text, All, Option-cases, Bool-cases, has_text, text_eq, any, ◌==◌,
}
use automa_build.SafeFetch.Ip.{IsByte, parse_ip}
use automa_build.SafeFetch.Ip.Bytes.{parse_ip-IsByte}
use automa_build.SafeFetch.Ip.Show.{ip_to_string}
use automa_build.SafeFetch.Errors.{SsrfBlockedError, passed, blocked}
use automa_build.SafeFetch.Blocklist.{Blocklist, validate_address, validate_hostname}
use automa_build.SafeFetch.Blocklist.Permitted.{
  Permitted, WellRanged, validate_address_iff, AddressVerdict-cases,
}
use automa_build.SafeFetch.Url.{
  Url, UrlPolicy, ValidatedUrl, LiteralAddress, literal_of, validate_url, check_address, check_port,
  port_of, is_encoded,
}

-- a URL of an allowed scheme and port, with no credentials, whose host name no rule blocks
abbrev pub IsFetchable : Blocklist → UrlPolicy → Url → Type 0
IsFetchable list policy url =
    (has_text policy.allowed_schemes url.protocol ≡ true)
    × (url.username ≡ [])
    × (url.password ≡ [])
    × ((validate_hostname list url.hostname).is_blocked ≡ false)
    × (any (λ allowed. allowed == port_of url) policy.allowed_ports ≡ true)

-- the address that a host may be: permitted, where it is one
abbrev pub MayBeDialled : Blocklist → Option LiteralAddress → Type 0
MayBeDialled list none = Unit
MayBeDialled list (some l) =
    All IsByte l.bytes × (l.text ≡ ip_to_string l.bytes) × Permitted list l.bytes l.text

blocked_not_passed : (e : SsrfBlockedError) (v : ValidatedUrl) → blocked e ≢ passed v
blocked_not_passed e v h = cc

check_port_lem :
    (policy : UrlPolicy) (hop : ℕ) (text : Text) (url : Url) (l : Option LiteralAddress)
    (v : ValidatedUrl)
    → check_port policy hop text url l ≡ passed v
    → (v.url ≡ url)
      × (v.literal_address ≡ l)
      × (any (λ allowed. allowed == port_of url) policy.allowed_ports ≡ true)
unfolding check_port
check_port_lem policy hop text url l v h =
    elim (Bool-cases (any (λ allowed. allowed == port_of url) policy.allowed_ports)) [
      | inl e ↦ (ground arith, ground arith, e)
      | inr e ↦ absurd (blocked_not_passed _ v (rw (e, check_port) at h))
    ]

check_address_lem :
    (list : Blocklist) (policy : UrlPolicy) (hop : ℕ) (text : Text) (url : Url) (v : ValidatedUrl)
    → WellRanged list
    → check_address list policy hop text url ≡ passed v
    → (v.url ≡ url)
      × MayBeDialled list v.literal_address
      × (any (λ allowed. allowed == port_of url) policy.allowed_ports ≡ true)
unfolding check_address
check_address_lem list policy hop text url v w h = elim (Option-cases (parse_ip url.hostname)) [
  | inl e ↦
      let (same, l, port) =
        check_port_lem policy hop text url none v (rw (e, check_address) at h) in
      (same, subst (λ (o : Option LiteralAddress). MayBeDialled list o) (sym l) tt, port)
  | inr (bytes, e) ↦
      elim (AddressVerdict-cases (validate_address list bytes (ip_to_string bytes))) [
        | inr (reason, range, f) ↦ absurd (blocked_not_passed _ v (rw (e, f, check_address) at h))
        | inl f ↦
            let all = (parse_ip-IsByte url.hostname bytes e).0 in
            let (same, l, port) =
              check_port_lem policy hop text url (some (literal_of bytes)) v
                (rw (e, f, check_address) at h) in
            (
              same,
              subst (λ (o : Option LiteralAddress). MayBeDialled list o) (sym l)
                  (all, refl, (validate_address_iff list bytes (ip_to_string bytes) w all).0 f),
              port,
            )
      ]
]

both_empty : (a b : Text) → (not (text_eq a []) || not (text_eq b [])) ≡ false → (a ≡ []) × (b ≡ [])
both_empty [] [] h = (refl, refl)
both_empty [] (y ∷ ys) h = cc
both_empty (x ∷ xs) b h = cc

pub validate_url-IsFetchable :
    (parse_url : Text → Option Url) (text : Text) (list : Blocklist) (policy : UrlPolicy) (hop : ℕ)
    (v : ValidatedUrl)
    → WellRanged list
    → validate_url parse_url text list policy hop ≡ passed v
    → (parse_url text ≡ some v.url)
      × IsFetchable list policy v.url
      × MayBeDialled list v.literal_address
unfolding validate_url
validate_url-IsFetchable parse_url text list policy hop v w h =
    elim (Option-cases (parse_url text)) [
      | inl e ↦ absurd (blocked_not_passed _ v (rw (e, validate_url) at h))
      | inr (url, e) ↦ elim (Bool-cases (has_text policy.allowed_schemes url.protocol)) [
        | inr f ↦ absurd (blocked_not_passed _ v (rw (e, f, validate_url) at h))
        | inl f ↦
            elim (Bool-cases (not (text_eq url.username []) || not (text_eq url.password []))) [
              | inl g ↦ absurd (blocked_not_passed _ v (rw (e, f, g, validate_url) at h))
              | inr g ↦ elim (Bool-cases (is_encoded text)) [
                | inl k ↦ absurd (blocked_not_passed _ v (rw (e, f, g, k, validate_url) at h))
                | inr k ↦ elim (Bool-cases (validate_hostname list url.hostname).is_blocked) [
                  | inl n ↦ absurd (blocked_not_passed _ v (rw (e, f, g, k, n, validate_url) at h))
                  | inr n ↦
                      let (same, dial, port) =
                        check_address_lem list policy hop text url v w
                          (rw (e, f, g, k, n, validate_url) at h) in
                      let (name, word) = both_empty url.username url.password g in
                      subst
                        (λ (u : Url).
                          (parse_url text ≡ some u)
                          × IsFetchable list policy u
                          × MayBeDialled list v.literal_address)
                        (sym same) (e, (f, name, word, n, port), dial)
                ]
              ]
            ]
      ]
    ]
