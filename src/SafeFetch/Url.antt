-- ===== src/SafeFetch/Url.antt =====
-- packages/automa-safe-fetch/src/url.ts: the shape of a URL, and the address that it may hold.
-- The WHATWG parser is a parameter, and a parsed URL is the record of the fields that are read of it.
pub mod Vetted
use automa_build.Prelude.{
  ℕ, suc, Bool, false, not, ◌||◌, Option, none, some, List, [], ◌∷◌, ◌==◌, if◌then◌else◌, length,
  Text, units, starts, text_eq, has_text, cut_last, take, drop, is_some, any, number,
}
use automa_build.SafeFetch.Ip.{parse_ip}
use automa_build.SafeFetch.Ip.Show.{ip_to_string}
use automa_build.SafeFetch.Encoded.{detect_encoded_ip_literal}
use automa_build.SafeFetch.Errors.{
  BlockReason, SsrfBlockedError, Checked, passed, blocked, malformed_url, scheme_not_allowed,
  userinfo_in_url, ip_literal_encoded, blocked_hostname, metadata_endpoint, port_not_allowed,
}
use automa_build.SafeFetch.Blocklist.{
  Blocklist, validate_address, validate_hostname, permitted, refused,
}

-- what the parser gives
pub record Url : Type 0 where
  pub href : Text
  pub protocol : Text
  pub username : Text
  pub password : Text
  pub hostname : Text
  pub port : Text
  pub origin : Text

pub record UrlPolicy : Type 0 where
  pub allowed_schemes : List Text
  pub allowed_ports : List ℕ

unfoldable pub default_url_policy : UrlPolicy
unfolding units
default_url_policy = record {
  allowed_schemes = units "http:" ∷ units "https:" ∷ [];
  allowed_ports = 80 ∷ 443 ∷ 8080 ∷ 8443 ∷ [];
}

pub record LiteralAddress : Type 0 where
  pub bytes : List ℕ
  pub text : Text

pub record ValidatedUrl : Type 0 where
  pub url : Url
  pub hostname : Text
  pub port : ℕ
  pub literal_address : Option LiteralAddress

default_port_for : Text → ℕ
unfolding units
default_port_for protocol = if text_eq protocol (units "https:") then 443 else 80

-- `firstIndexOfAny(text, ['/', '?', '#'])`
first_index_of_any : Text → ℕ
first_index_of_any [] = 0
first_index_of_any (c ∷ cs) =
    if c == b'/' || c == b'?' || c == b'#' then 0 else suc (first_index_of_any cs)

-- what follows the first `://`
after_scheme : Text → Option Text
unfolding units
after_scheme [] = none
after_scheme (c ∷ cs) =
    if starts (units "://") (c ∷ cs) then some (drop 3 (c ∷ cs)) else after_scheme cs

-- `lastIndexOf('@', end)` counts an `@` at the index `end` too.
after_userinfo : Text → Text
unfolding first_index_of_any cut_last
after_userinfo rest = elim (cut_last b'@' (take (suc (first_index_of_any rest)) rest)) [
  | none ↦ rest
  | some (before, after) ↦ drop (suc (length before)) rest
]

host_of : Text → Option Text
unfolding cut_last
host_of authority =
    if starts (b'[' ∷ []) authority
    then none
    else let host : Text = elim (cut_last b':' authority) [
      | none ↦ authority
      | some (before, _) ↦ before
    ] in
      if length host == 0 then none else some host

unfoldable pub extract_raw_host : Text → Option Text
unfolding after_scheme after_userinfo first_index_of_any host_of
extract_raw_host text = elim (after_scheme text) [
  | none ↦ none
  | some rest ↦ let host = after_userinfo rest in host_of (take (first_index_of_any host) host)
]

unfoldable pub port_of : Url → ℕ
unfolding default_port_for number
port_of url = if length url.port == 0 then default_port_for url.protocol else number 10 0 url.port

-- the host of the text is an IPv4 address in another form
unfoldable pub is_encoded : Text → Bool
unfolding extract_raw_host detect_encoded_ip_literal
is_encoded text = elim (extract_raw_host text) [
  | none ↦ false
  | some raw_host ↦ is_some (detect_encoded_ip_literal raw_host)
]

refusal : BlockReason → Text → Text → Option Text → Option Text → ℕ → SsrfBlockedError
refusal reason url hostname ip matched hop = record {
  reason = reason;
  url = url;
  hostname = hostname;
  resolved_ip = ip;
  matched_range = matched;
  hop = hop;
}

abbrev literal_of : List ℕ → LiteralAddress
literal_of bytes = record { bytes = bytes; text = ip_to_string bytes }

-- the check of the port, and the result
unfoldable pub check_port :
    UrlPolicy → ℕ → Text → Url → Option LiteralAddress → Checked ValidatedUrl
unfolding port_of refusal
check_port policy hop text url literal =
    if not (any (λ allowed. allowed == port_of url) policy.allowed_ports)
    then blocked (refusal port_not_allowed text url.hostname none none hop)
    else passed (record {
      url = url;
      hostname = url.hostname;
      port = port_of url;
      literal_address = literal;
    })

-- the checks of a host that is an address, and of the port
unfoldable pub check_address : Blocklist → UrlPolicy → ℕ → Text → Url → Checked ValidatedUrl
unfolding check_port parse_ip validate_address refusal
check_address list policy hop text url = elim (parse_ip url.hostname) [
  | none ↦ check_port policy hop text url none
  | some bytes ↦ elim (validate_address list bytes (ip_to_string bytes)) [
    | permitted ↦ check_port policy hop text url (some (literal_of bytes))
    | refused reason range ↦
        blocked (refusal reason text url.hostname (some (ip_to_string bytes)) (some range) hop)
  ]
]

unfoldable pub validate_url :
    (Text → Option Url) → Text → Blocklist → UrlPolicy → ℕ → Checked ValidatedUrl
unfolding check_address is_encoded validate_hostname refusal parse_ip
validate_url parse_url text list policy hop = elim (parse_url text) [
  | none ↦ blocked (refusal malformed_url text [] none none hop)
  | some url ↦
      if not (has_text policy.allowed_schemes url.protocol)
      then blocked (refusal scheme_not_allowed text url.hostname none none hop)
      else if not (text_eq url.username []) || not (text_eq url.password [])
      then blocked (refusal userinfo_in_url text url.hostname none none hop)
      else if is_encoded text
      then blocked (
          refusal ip_literal_encoded text url.hostname
            (elim (parse_ip url.hostname) [ none ↦ none | some bytes ↦ some (ip_to_string bytes) ])
            none hop)
      else let verdict = validate_hostname list url.hostname in
        if verdict.is_blocked
        then blocked (
            refusal (if verdict.is_metadata then metadata_endpoint else blocked_hostname) text
              url.hostname none none hop)
        else check_address list policy hop text url
]
