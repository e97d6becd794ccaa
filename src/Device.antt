-- ===== src/Device.antt =====
-- internal/core/device: devices found by scans, and their identities.
pub mod Store
pub mod Events
pub mod Registry
mod Tests
