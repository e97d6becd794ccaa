-- ===== src/Cli.antt =====
-- internal/cli: the terminal that a Session is attached to.
pub mod Interactive
pub mod Highlight
