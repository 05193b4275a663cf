-- ===== src/Runner/Lease.antt =====
-- Who may work on a step: the leases of repository.ts and executor.ts.
pub mod Claim
pub mod Takeover
pub mod Limits
