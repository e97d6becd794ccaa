-- ===== src/Cli/Highlight/Renderer.antt =====
-- internal/cli/highlight/highlight.go: `Renderer`. What the patterns and UTF-8 validation say of a line is
-- given, and whether the n-th call of `writeAll` succeeds.
pub mod Steps
pub mod Writes
pub mod Drains
pub mod Scans
pub mod Parts
pub mod Transparent
mod Tests
use channel_term.Prelude.{
  ℕ, zero, suc, ◌+◌, ◌*◌, Bool, true, false, ◌&&◌, ◌||◌, not, Option, none, some, List, [], ◌∷◌,
  ◌++◌, ◌==◌, ltb, leb, if◌then◌else◌, length, Bytes,
}
use channel_term.Debugger.Mi.Text.{is_nil, byte_or}
use channel_term.Cli.Highlight.Vt.{Tracker, new_tracker, can_resume, feed}
use channel_term.Cli.Highlight.Matches.{Piece, raw, Match, render_matches}

-- What the regular expressions and `utf8.Valid` say: the matches of the built-in rules with their styles,
-- the four matches of `promptPattern`, and the other tests of a line.
pub record Patterns : Type 0 where
  pub matches : Bytes → List Match
  pub prompt : Bytes → Option (List Match)
  pub minimal_prompt : Bytes → Bool
  pub interactive_prompt : Bytes → Bool
  pub valid_utf8 : Bytes → Bool
  pub writes : ℕ → Bool

-- What has been written, in order, and the fields of `Renderer`.
pub record Renderer : Type 0 where
  pub out : List Piece
  pub pending : Bytes
  pub raw_until_newline : Bool
  pub vt_passthrough : Bool
  pub vt : Tracker
  pub calls : ℕ

abbrev pub new_renderer : Renderer
new_renderer = record {
  out = [];
  pending = [];
  raw_until_newline = false;
  vt_passthrough = false;
  vt = new_tracker;
  calls = 0;
}

-- `maxPendingBytes`
abbrev pub max_pending : ℕ
max_pending = 8192

-- An operation; `none` is an error of the output, or a panic.
abbrev pub and_then : Option Renderer → (Renderer → Option Renderer) → Option Renderer
and_then none next = none
and_then (some r) next = next r

-- `writeAll`
abbrev pub emit : Patterns → List Piece → Renderer → Option Renderer
emit p pieces r =
    if p.writes r.calls
    then some (record r { out = r.out ++ pieces; calls = suc r.calls })
    else none

abbrev pub emit_rendered : Patterns → Option (List Piece) → Renderer → Option Renderer
emit_rendered p none r = none
emit_rendered p (some pieces) r = emit p pieces r

-- The loop of `containsScreenControl`. A carriage return may stand before another or a newline.
unfoldable pub has_control : Bytes → Bool
has_control [] = false
has_control (c ∷ cs) =
    let rest = has_control cs in
    if c == 9 || c == 10
    then rest
    else (if c == 13
        then (if byte_or 0 cs == 13 || byte_or 0 cs == 10 then rest else true)
        else (if ltb c 0x20 || c == 0x7f then true else rest))

-- `containsScreenControl`
abbrev pub contains_screen_control : Patterns → Bytes → Bool
contains_screen_control p s = not (p.valid_utf8 s) || has_control s

abbrev pub join_ending : ℕ → Bytes → Bytes × Bytes → Bytes × Bytes
join_ending c cs (content, ending) =
    if is_nil cs
    then (if c == 10 then ([], c ∷ []) else (c ∷ [], []))
    else (if is_nil content && not (is_nil ending) && c == 13
        then ([], c ∷ ending)
        else (c ∷ content, ending))

-- `splitLineEnding`
unfoldable pub split_line_ending : Bytes → Bytes × Bytes
split_line_ending [] = ([], [])
split_line_ending (c ∷ cs) = join_ending c cs (split_line_ending cs)

-- `renderPrompt`, if the line is a prompt.
abbrev pub prompt_pieces : Patterns → Bytes → Option (List Match) → Option (Option (List Piece))
prompt_pieces p line (some ms) = some (render_matches line ms)
prompt_pieces p line none = if p.minimal_prompt line then some (some (raw line ∷ [])) else none

abbrev pub render_prompt : Patterns → Bytes → Option (Option (List Piece))
render_prompt p line = prompt_pieces p line (p.prompt line)

-- A line that may be styled.
abbrev pub write_safe_line :
    Patterns → Bytes → Bytes → Option (Option (List Piece)) → Renderer → Option Renderer
write_safe_line p line ending none r = emit_rendered p (render_matches line (p.matches line)) r
write_safe_line p line ending (some pieces) r =
    and_then (emit_rendered p pieces r) (emit p (raw ending ∷ []))

-- `writeLine`
unfoldable pub write_line : Patterns → Bytes → Bool → Renderer → Option Renderer
write_line p line is_raw r =
    if is_raw || contains_screen_control p line || p.interactive_prompt line
    then emit p (raw line ∷ []) r
    else write_safe_line p line (split_line_ending line).1
        (render_prompt p (split_line_ending line).0) r

-- A text up to its first newline, and the rest.
unfoldable pub cut_line : Bytes → Option (Bytes × Bytes)
cut_line [] = none
cut_line (c ∷ cs) =
    let rest = cut_line cs in
    if c == 10
    then some (c ∷ [], cs)
    else elim rest [ none ↦ none | some (line, s) ↦ some (c ∷ line, s) ]

abbrev pub last_byte : Bytes → ℕ
last_byte [] = 0
last_byte (c ∷ []) = c
last_byte (c ∷ d ∷ ds) = last_byte (d ∷ ds)

-- One round of `drain`: whether it goes on, and with what.
pub data Drained : Type 0 where
  again done : Renderer → Drained
  broken : Drained

abbrev pub then_drained : Option Renderer → (Renderer → Drained) → Drained
then_drained none next = broken
then_drained (some r) next = next r

abbrev pub emptied : Bool → Renderer → Renderer
emptied is_raw r = record r { pending = []; raw_until_newline = is_raw }

-- An incomplete line that is a prompt, or waits.
abbrev pub drain_prompt : Patterns → Renderer → Option (Option (List Piece)) → Drained
drain_prompt p r none = done r
drain_prompt p r (some pieces) =
    then_drained (emit_rendered p pieces r) (λ r. done (emptied true r))

abbrev pub drain_partial : Patterns → Renderer → Drained
drain_partial p r =
    if not r.raw_until_newline && last_byte r.pending == 13
    then done r
    else (if r.raw_until_newline
          || contains_screen_control p r.pending
          || ltb max_pending (length r.pending)
        then then_drained (emit p (raw r.pending ∷ []) r) (λ r. again (record r { pending = [] }))
        else (if p.interactive_prompt r.pending
            then then_drained (emit p (raw r.pending ∷ []) r) (λ r. done (emptied true r))
            else drain_prompt p r (render_prompt p r.pending)))

abbrev pub drain_line : Patterns → Renderer → Option (Bytes × Bytes) → Drained
drain_line p r none = drain_partial p r
drain_line p r (some (line, rest)) =
    then_drained (write_line p line r.raw_until_newline r)
      (λ r. again (record r { pending = rest; raw_until_newline = false }))

abbrev pub drain_round : Patterns → Renderer → Bytes → Drained
drain_round p r [] = done r
drain_round p r (c ∷ cs) = drain_line p r (cut_line (c ∷ cs))

abbrev pub go_on : (Renderer → Option Renderer) → Drained → Option Renderer
go_on loop (again r) = loop r
go_on loop (done r) = some r
go_on loop broken = none

unfoldable pub drain_loop : Patterns → ℕ → Renderer → Option Renderer
drain_loop p zero r = none
drain_loop p (suc f) r = go_on (drain_loop p f) (drain_round p r r.pending)

-- `drain`: each round that goes on has taken something out of `pending`.
abbrev pub drain : Patterns → Renderer → Option Renderer
drain p r = drain_loop p (suc (length r.pending)) r
