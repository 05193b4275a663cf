-- ===== src/Tests.antt =====
-- Runs of the definitions on concrete inputs.
mod Fixture
mod Retries
mod Flows
mod Fetches
mod Canvas
mod Deliveries
mod Leases
mod Histories
mod Keys
mod Endings
mod Replays
