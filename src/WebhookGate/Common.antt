-- ===== src/WebhookGate/Common.antt =====
-- packages/automa-webhook-gate/src/verify/common.ts: what every scheme shares. Bodies, secrets and
-- signatures are lists of units; a moment is a number of milliseconds; the comparison in constant time
-- is the equality of texts.
pub mod Laws
use automa_build.Prelude.{
  ℕ, suc, ◌+◌, ◌-◌, ◌*◌, ◌^◌, Bool, not, Option, none, some, List, [], ◌∷◌, ltb, ◌==◌,
  if◌then◌else◌, length, Text, text_eq, has_text, lower, get_or,
}

pub data VerificationFailure : Type 0 where
  missing_signature malformed_signature unsupported_algorithm missing_timestamp :
      VerificationFailure
  malformed_timestamp timestamp_outside_tolerance signature_mismatch : VerificationFailure
  body_too_large missing_secret : VerificationFailure

pub data VerificationResult : Type 0 where
  verified : (dedup_key : Text) (timestamp : Option ℕ) (secret_index : ℕ) → VerificationResult
  failed : (reason : VerificationFailure) → VerificationResult

-- one header, with the one value or the several that it came with
pub record HeaderField : Type 0 where
  pub key : Text
  pub values : List Text

pub record VerifyInput : Type 0 where
  pub raw_body : Text
  pub headers : List HeaderField
  pub secrets : List Text
  pub tolerance_seconds : Option ℕ
  pub max_body_bytes : Option ℕ
  pub now : ℕ
  pub method : Option Text
  pub url : Option Text

abbrev pub default_tolerance_seconds : ℕ
default_tolerance_seconds = 300

abbrev pub default_max_body_bytes : ℕ
default_max_body_bytes = 1048576

-- a header that is repeated counts as absent
abbrev single : List Text → Option Text
single [] = none
single (value ∷ []) = some value
single (value ∷ next ∷ more) = none

unfoldable pub header : List HeaderField → Text → Option Text
unfolding lower
header [] name = none
header (h ∷ hs) name =
    if text_eq (lower h.key) (lower name) then single h.values else header hs name

-- The index of the first candidate that is among the signatures presented.
unfoldable pub match_from : ℕ → List Text → List Text → Option ℕ
match_from index [] presented = none
match_from index (candidate ∷ more) presented =
    if has_text presented candidate then some index else match_from (suc index) more presented

unfoldable pub match_any_signature : List Text → List Text → Option ℕ
unfolding match_from
match_any_signature candidates presented = match_from 0 candidates presented

pub data ToleranceCheck : Type 0 where
  in_time : (timestamp : Option ℕ) → ToleranceCheck
  out_of_time : VerificationFailure → ToleranceCheck
  range_error : ToleranceCheck

-- `Number.isFinite` of the double nearest to a whole number
unfoldable pub is_finite : ℕ → Bool
is_finite n = ltb n (2 ^ 1024 - 2 ^ 970)

-- `new Date(ms)` is a date up to this many milliseconds.
abbrev pub last_date : ℕ
last_date = 8640000000000000

abbrev pub distance : ℕ → ℕ → ℕ
distance a b = (a - b) + (b - a)

-- The skew is compared in milliseconds. Past the last date the timestamp is no date, the skew is not a
-- number, and a comparison with it is false.
unfoldable pub check_tolerance : ℕ → ℕ → ℕ → ToleranceCheck
check_tolerance epoch_seconds tolerance_seconds now =
    if not (is_finite epoch_seconds)
    then out_of_time malformed_timestamp
    else if tolerance_seconds == 0
    then range_error
    else if ltb last_date (epoch_seconds * 1000)
    then in_time none
    else if ltb (tolerance_seconds * 1000) (distance now (epoch_seconds * 1000))
    then out_of_time timestamp_outside_tolerance
    else in_time (some (epoch_seconds * 1000))

unfoldable pub preflight : VerifyInput → Option VerificationFailure
preflight input =
    if length input.secrets == 0
    then some missing_secret
    else if ltb (get_or input.max_body_bytes default_max_body_bytes) (length input.raw_body)
    then some body_too_large
    else none
