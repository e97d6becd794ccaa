-- ===== src/Transport.antt =====
-- internal/transport: how Sessions and files reach a device.
pub mod Scp
