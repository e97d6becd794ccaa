-- ===== src/Cli/Highlight/Renderer/Tests.antt =====
-- A renderer whose patterns style each line as a whole.
use channel_term.Prelude.{
  ◌≡◌, refl, arith, true, false, Option, none, some, List, [], ◌∷◌, ◌++◌, length, Bytes,
}
use channel_term.Cli.Highlight.Matches.{raw, styled, Match, render_matches, render_from}
use channel_term.Cli.Highlight.Matches.Rendered.{text_of}
use channel_term.Cli.Highlight.Vt.{feed, in_state}
use channel_term.Cli.Highlight.Vt.Sgr.{is_plain, apply_parts, split_on, before_colon, set_code}
use channel_term.Transport.Scp.Records.{parse_int, digits_value}
use channel_term.Cli.Highlight.Renderer.{
  Patterns, Renderer, new_renderer, has_control, split_line_ending, write_line, cut_line,
  drain_loop,
}
use channel_term.Cli.Highlight.Renderer.Steps.{feed_all, scan, before_escape, write_loop}
use channel_term.Cli.Highlight.Renderer.Writes.{Fair}
use channel_term.Cli.Highlight.Renderer.Transparent.{
  Call, writes, flushes, releases, calls, received, renderer_transparent,
}

abbrev bright : Bytes
bright = b'B' ∷ []

abbrev patterns : Patterns
patterns = record {
  matches = λ line. record { start = 0; stop = length line; style = bright; priority = 1 } ∷ [];
  prompt = λ line. none;
  minimal_prompt = λ line. false;
  interactive_prompt = λ line. false;
  valid_utf8 = λ line. true;
  writes = λ n. true;
}

patterns-Fair : Fair patterns
patterns-Fair = record {
  matches = λ line. ((omega arith, omega arith), tt);
  prompt = λ line ms e. absurd (none-ne_some e);
  writes = λ n. refl;
}
  where
    none-ne_some : {ms : List Match} → ◌≡◌ {A = Option (List Match)} none (some ms) → ⊥
    none-ne_some e = ground (arith, e)

-- A line that is split between two chunks, and a colour of the device's own.
abbrev session : List Call
session =
    writes (b'o' ∷ [])
    ∷ writes (b'k' ∷ 10 ∷ b'a' ∷ [])
    ∷ flushes
    ∷ writes (0x1b ∷ b'[' ∷ b'1' ∷ b'm' ∷ b'x' ∷ 10 ∷ [])
    ∷ releases
    ∷ []

shown :
    (r : Renderer) × (calls patterns session new_renderer ≡ some r)
    × (r.out
        ≡ raw []
          ∷ styled bright (b'o' ∷ b'k' ∷ 10 ∷ [])
          ∷ raw []
          ∷ raw (b'a' ∷ [])
          ∷ raw (0x1b ∷ b'[' ∷ b'1' ∷ b'm' ∷ b'x' ∷ 10 ∷ [])
          ∷ [])
unfolding write_loop before_escape feed_all scan drain_loop cut_line write_line has_control
    split_line_ending render_matches render_from feed in_state is_plain apply_parts split_on
    before_colon parse_int digits_value set_code
shown = (_, refl, refl)

renderer_transparent_example :
    (r : Renderer) × (calls patterns session new_renderer ≡ some r)
    × (text_of r.out ++ r.pending ≡ received session)
renderer_transparent_example = renderer_transparent patterns session patterns-Fair

-- A progress display: what ends in a carriage return is kept, however much it has become.
abbrev progress : Bytes
progress = b'9' ∷ b'%' ∷ 13 ∷ []

progress_waits :
    (r : Renderer) × (calls patterns (writes progress ∷ writes progress ∷ []) new_renderer ≡ some r)
    × (r.pending ≡ progress ++ progress)
unfolding write_loop before_escape feed_all drain_loop cut_line feed in_state is_plain
progress_waits = (_, refl, refl)
