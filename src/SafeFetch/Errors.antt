-- ===== src/SafeFetch/Errors.antt =====
-- packages/automa-safe-fetch/src/errors.ts: why a request is refused. Messages are left out.
use automa_build.Prelude.{ℕ, Option, Text}

pub data BlockReason : Type 0 where
  scheme_not_allowed userinfo_in_url port_not_allowed malformed_url ip_literal_encoded : BlockReason
  blocked_hostname dns_resolution_failed no_addresses blocked_range ipv4_mapped_ipv6 : BlockReason
  metadata_endpoint unpinned_resolution : BlockReason

pub record SsrfBlockedError : Type 0 where
  pub reason : BlockReason
  pub url : Text
  pub hostname : Text
  pub resolved_ip : Option Text
  pub matched_range : Option Text
  pub hop : ℕ

-- a value, or the error that is thrown in its place
pub data Checked {ℓ} (A : Type ℓ) : Type ℓ where
  passed : A → Checked A
  blocked : SsrfBlockedError → Checked A
