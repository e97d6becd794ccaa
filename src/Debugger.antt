-- ===== src/Debugger.antt =====
-- internal/core/debugger: the GDB/MI protocol.
pub mod Mi
