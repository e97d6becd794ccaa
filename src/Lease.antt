-- ===== src/Lease.antt =====
-- internal/core/app/lease.go: exclusive writer leases of a Session and the confirmation dialogue
-- of a running file transfer. Each operation works on the entries of one session ID and on the
-- counters that all sessions share, so the state here is those entries and the counters.
pub mod Text
pub mod State
pub mod Expiry
pub mod Requests
pub mod Transfer
pub mod Writes
pub mod Invariant
pub mod Steps
pub mod Exclusion
pub mod Recovery
pub mod Dialogue
pub mod Cancellation
mod Tests
