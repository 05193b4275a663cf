-- ===== src/SafeFetch/Resolve.antt =====
-- packages/automa-safe-fetch/src/resolve.ts: every address of a name, checked.
pub mod Every
use automa_build.Prelude.{
  ℕ, Bool, true, false, ◌&&◌, Option, none, some, List, [], ◌∷◌, ◌++◌, if◌then◌else◌, Text, units,
  has_text,
}
use automa_build.SafeFetch.Ip.{parse_ip}
use automa_build.SafeFetch.Ip.Show.{ip_to_string}
use automa_build.SafeFetch.Errors.{
  BlockReason, SsrfBlockedError, Checked, passed, blocked, dns_resolution_failed, no_addresses,
}
use automa_build.SafeFetch.Blocklist.{Blocklist, validate_address, permitted, refused}

-- what a look-up comes to: addresses, or an error with its code
pub data Answer : Type 0 where
  answered : List Text → Answer
  failed : Option Text → Answer

pub record ResolvedAddress : Type 0 where
  pub text : Text
  pub bytes : List ℕ

empty_codes : List Text
unfolding units
empty_codes = units "ENODATA" ∷ units "ENOTFOUND" ∷ units "ENOTIMP" ∷ units "EBADRESP" ∷ []

pub record Family : Type 0 where
  pub addresses : List Text
  pub is_error : Bool

abbrev no_records : Family
no_records = record { addresses = []; is_error = false }

abbrev lookup_error : Family
lookup_error = record { addresses = []; is_error = true }

unfoldable pub resolve_family : Answer → Family
unfolding empty_codes
resolve_family (answered addresses) = record { addresses = addresses; is_error = false }
resolve_family (failed none) = lookup_error
resolve_family (failed (some code)) = if has_text empty_codes code then no_records else lookup_error

pub record Context : Type 0 where
  pub url : Text
  pub hop : ℕ

abbrev refuse : Context → Text → BlockReason → Option Text → Option Text → SsrfBlockedError
refuse context hostname reason ip range = record {
  reason = reason;
  url = context.url;
  hostname = hostname;
  resolved_ip = ip;
  matched_range = range;
  hop = context.hop;
}

-- The loop that parses each text once; `none` is a text that is no address.
unfoldable pub collect : List Text → List Text → Option (List ResolvedAddress)
unfolding parse_ip
collect seen [] = some []
collect seen (text ∷ more) = elim (has_text seen text) [
  | true ↦ collect seen more
  | false ↦ elim (parse_ip text) [
    | none ↦ none
    | some bytes ↦ elim (collect (text ∷ seen) more) [
      | none ↦ none
      | some rest ↦ some (record { text = ip_to_string bytes; bytes = bytes } ∷ rest)
    ]
  ]
]

-- The loop that checks each address; `none` when there is nothing against any.
unfoldable pub first_refused :
    Blocklist → Context → Text → List ResolvedAddress → Option SsrfBlockedError
unfolding validate_address
first_refused list context hostname [] = none
first_refused list context hostname (address ∷ more) =
    elim (validate_address list address.bytes address.text) [
      | permitted ↦ first_refused list context hostname more
      | refused reason range ↦
          some (refuse context hostname reason (some address.text) (some range))
    ]

unfoldable pub resolve_and_validate :
    Blocklist → Context → Text → Answer → Answer → Checked (List ResolvedAddress)
unfolding resolve_family collect first_refused
resolve_and_validate list context hostname answer4 answer6 =
    let v4 = resolve_family answer4 in
    let v6 = resolve_family answer6 in
    if v4.is_error && v6.is_error
    then blocked (refuse context hostname dns_resolution_failed none none)
    else elim (collect [] (v4.addresses ++ v6.addresses)) [
      | none ↦ blocked (refuse context hostname dns_resolution_failed none none)
      | some [] ↦ blocked (refuse context hostname no_addresses none none)
      | some (first ∷ more) ↦ elim (first_refused list context hostname (first ∷ more)) [
        | some error ↦ blocked error
        | none ↦ passed (first ∷ more)
      ]
    ]
