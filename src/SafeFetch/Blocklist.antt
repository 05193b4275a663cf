-- ===== src/SafeFetch/Blocklist.antt =====
-- packages/automa-safe-fetch/src/blocklist.ts: the ranges and names that are refused.
pub mod Permitted
pub mod Compiled
pub mod Defaults
use automa_build.Prelude.{
  ℕ, Bool, true, false, ◌||◌, Option, none, some, List, [], ◌∷◌, ◌++◌, map, ◌==◌, String,
  if◌then◌else◌, Text, units, starts, ends, text_eq, has_text, lower, get_or, find, any, drop,
}
use automa_build.SafeFetch.Ip.{unwrap_ipv4_mapped}
use automa_build.SafeFetch.Cidr.{Cidr, parse_cidr, cidr_contains}
use automa_build.SafeFetch.Errors.{BlockReason, blocked_range, ipv4_mapped_ipv6, metadata_endpoint}

abbrev texts : List String → List Text
texts ranges = map units ranges

unfoldable pub default_blocked_ipv4 : List Text
unfolding units
default_blocked_ipv4 = texts (
    "0.0.0.0/8" ∷ "10.0.0.0/8" ∷ "100.64.0.0/10" ∷ "127.0.0.0/8" ∷ "169.254.0.0/16"
    ∷ "172.16.0.0/12" ∷ "192.0.0.0/24" ∷ "192.0.2.0/24" ∷ "192.168.0.0/16" ∷ "198.18.0.0/15"
    ∷ "198.51.100.0/24" ∷ "203.0.113.0/24" ∷ "224.0.0.0/4" ∷ "240.0.0.0/4" ∷ [])

unfoldable pub default_blocked_ipv6 : List Text
unfolding units
default_blocked_ipv6 = texts (
    "::/128" ∷ "::1/128" ∷ "::ffff:0:0/96" ∷ "64:ff9b::/96" ∷ "100::/64" ∷ "2001:db8::/32"
    ∷ "fc00::/7" ∷ "fe80::/10" ∷ "ff00::/8" ∷ "fd00:ec2::254/128" ∷ [])

unfoldable pub default_blocked_hostnames : List Text
unfolding units
default_blocked_hostnames = texts (
    "localhost" ∷ ".localhost" ∷ ".local" ∷ ".internal" ∷ ".home.arpa" ∷ "metadata.google.internal"
    ∷ "metadata.goog" ∷ "metadata.amazonaws.com" ∷ "instance-data" ∷ "instance-data.ec2.internal"
    ∷ [])

unfoldable pub metadata_hostnames : List Text
unfolding units
metadata_hostnames = texts (
    "metadata.google.internal" ∷ "metadata.goog" ∷ "metadata.amazonaws.com" ∷ "instance-data"
    ∷ "instance-data.ec2.internal" ∷ [])

unfoldable pub metadata_addresses : List Text
unfolding units
metadata_addresses = texts ("169.254.169.254" ∷ "fd00:ec2::254" ∷ [])

pub record Blocklist : Type 0 where
  pub blocked : List Cidr
  pub allowed : List Cidr
  pub blocked_hostnames : List Text

-- `none` stands for the TypeError about a range that is none.
unfoldable pub compile : List Text → Option (List Cidr)
unfolding parse_cidr
compile [] = some []
compile (range ∷ ranges) = elim (parse_cidr range) [
  | none ↦ none
  | some cidr ↦ elim (compile ranges) [ none ↦ none | some more ↦ some (cidr ∷ more) ]
]

pub record BlocklistOptions : Type 0 where
  pub blocked_ranges : Option (List Text)
  pub extra_blocked_ranges : Option (List Text)
  pub allowed_ranges : Option (List Text)
  pub blocked_hostnames : Option (List Text)
  pub extra_blocked_hostnames : Option (List Text)

unfoldable pub create_blocklist : BlocklistOptions → Option Blocklist
unfolding default_blocked_ipv4 default_blocked_ipv6 default_blocked_hostnames compile lower
create_blocklist options =
    let base = get_or options.blocked_ranges (default_blocked_ipv4 ++ default_blocked_ipv6) in
    elim (compile (base ++ get_or options.extra_blocked_ranges [])) [
      | none ↦ none
      | some blocked ↦ elim (compile (get_or options.allowed_ranges [])) [
        | none ↦ none
        | some allowed ↦ some (record {
          blocked = blocked;
          allowed = allowed;
          blocked_hostnames = map lower (
              get_or options.blocked_hostnames default_blocked_hostnames
              ++ get_or options.extra_blocked_hostnames []);
        })
      ]
    ]

pub data AddressVerdict : Type 0 where
  permitted : AddressVerdict
  refused : (reason : BlockReason) (matched_range : Text) → AddressVerdict

-- some range contains the address
abbrev pub in_range : List Cidr → List ℕ → Bool
in_range ranges address = any (λ cidr. cidr_contains cidr address) ranges

-- the loop over the blocked ranges
unfoldable pub check_blocked : Blocklist → List ℕ → Text → AddressVerdict
unfolding metadata_addresses
check_blocked list address address_text =
    elim (find (λ cidr. cidr_contains cidr address) list.blocked) [
      | none ↦ permitted
      | some cidr ↦
          refused
            (if has_text metadata_addresses address_text then metadata_endpoint else blocked_range)
            cidr.source
    ]

unfoldable pub validate_address : Blocklist → List ℕ → Text → AddressVerdict
unfolding metadata_addresses check_blocked unwrap_ipv4_mapped units
validate_address list address address_text =
    if in_range list.allowed address
    then permitted
    else if has_text metadata_addresses address_text
    then refused metadata_endpoint address_text
    else elim (unwrap_ipv4_mapped address) [
      | some unwrapped ↦
          if in_range list.allowed unwrapped
          then permitted
          else refused ipv4_mapped_ipv6 (units "::ffff:0:0/96")
      | none ↦ check_blocked list address address_text
    ]

pub record HostnameVerdict : Type 0 where
  pub is_blocked : Bool
  pub is_metadata : Bool
  pub matched : Option Text

-- `.replace(/\.$/, '')`
strip_dot : Text → Text
strip_dot [] = []
strip_dot (c ∷ []) = if c == b'.' then [] else c ∷ []
strip_dot (c ∷ d ∷ cs) = c ∷ strip_dot (d ∷ cs)

unfoldable pub canonical_name : Text → Text
unfolding strip_dot lower
canonical_name hostname = strip_dot (lower hostname)

unfoldable pub rule_matches : Text → Text → Bool
rule_matches name rule =
    if starts (b'.' ∷ []) rule
    then text_eq name (drop 1 rule) || ends rule name
    else text_eq name rule

unfoldable pub validate_hostname : Blocklist → Text → HostnameVerdict
unfolding canonical_name rule_matches metadata_hostnames
validate_hostname list hostname =
    let name = canonical_name hostname in
    elim (find (rule_matches name) list.blocked_hostnames) [
      | some rule ↦ record {
        is_blocked = true;
        is_metadata = has_text metadata_hostnames name;
        matched = some rule;
      }
      | none ↦ record { is_blocked = false; is_metadata = false; matched = none }
    ]
