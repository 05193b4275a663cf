-- ===== src/SafeFetch.antt =====
-- packages/automa-safe-fetch: outbound requests whose addresses are checked and pinned.
pub mod Ip
pub mod Cidr
pub mod Encoded
pub mod Errors
pub mod Blocklist
pub mod Url
pub mod Resolve
pub mod Request
pub mod Fetch
