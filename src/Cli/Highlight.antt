-- ===== src/Cli/Highlight.antt =====
-- internal/cli/highlight: the presentation of what a terminal shows.
pub mod Vt
pub mod Matches
pub mod Renderer
