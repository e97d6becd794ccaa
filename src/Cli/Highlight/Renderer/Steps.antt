-- ===== src/Cli/Highlight/Renderer/Steps.antt =====
-- internal/cli/highlight/highlight.go: `Write`, `writeVTPassthrough`, `Flush` and `ReleasePending`.
use channel_term.Prelude.{
  ℕ, zero, suc, ◌+◌, ◌*◌, Bool, true, false, ◌&&◌, ◌||◌, not, Option, none, some, [], ◌∷◌, ◌++◌,
  ◌==◌, if◌then◌else◌, length, Bytes,
}
use channel_term.Debugger.Mi.Text.{is_nil}
use channel_term.Cli.Highlight.Vt.{Tracker, can_resume, feed}
use channel_term.Cli.Highlight.Matches.{raw}
use channel_term.Cli.Highlight.Renderer.{Patterns, Renderer, and_then, emit, drain}

-- The tracker after some bytes.
unfoldable pub feed_all : Tracker → Bytes → Option Tracker
feed_all t [] = some t
feed_all t (value ∷ rest) = elim (feed t value) [ none ↦ none | some (t', _) ↦ feed_all t' rest ]

-- The bytes that are passed through, those that are left, and whether highlighting resumes.
pub record Scanned : Type 0 where
  pub vt : Tracker
  pub consumed : Bytes
  pub rest : Bytes
  pub resumes : Bool

abbrev pub with_byte : ℕ → Option Scanned → Option Scanned
with_byte value none = none
with_byte value (some s) = some (record s { consumed = value ∷ s.consumed })

abbrev pub scan_end : Tracker → ℕ → Bytes → Scanned
scan_end t value rest = record { vt = t; consumed = value ∷ []; rest = rest; resumes = true }

-- The loop of `writeVTPassthrough`.
unfoldable pub scan : Tracker → Bytes → Option Scanned
scan t [] = some (record { vt = t; consumed = []; rest = []; resumes = false })
scan t (value ∷ rest) = elim (feed t value) [
  | none ↦ none
  | some (t', signal) ↦ elim (signal || (value == 10 && can_resume t')) [
    | true ↦ some (scan_end t' value rest)
    | false ↦ with_byte value (scan t' rest)
  ]
]

-- `writeVTPassthrough`, with the bytes that it leaves.
abbrev pub pass_through :
    Patterns → Renderer → Option Scanned → (Bytes → Renderer → Option Renderer) → Option Renderer
pass_through p r none next = none
pass_through p r (some s) next =
    and_then (emit p (raw s.consumed ∷ []) (record r { vt = s.vt }))
      (λ r. next s.rest (record r { vt_passthrough = not s.resumes }))

-- A text up to its first escape, and the rest.
unfoldable pub before_escape : Bytes → Bytes × Bytes
before_escape [] = ([], [])
before_escape (c ∷ cs) =
    let (before, rest) = before_escape cs in if c == 0x1b then ([], c ∷ cs) else (c ∷ before, rest)

-- Plain text is tracked too, and then what is complete is written.
abbrev pub add_text : Patterns → Bytes → Renderer → Option Tracker → Option Renderer
add_text p s r none = none
add_text p s r (some t) = drain p (record r { vt = t; pending = r.pending ++ s })

-- The pending text, as it is.
abbrev pub write_pending : Patterns → Renderer → Bytes → Option Renderer
write_pending p r [] = some r
write_pending p r (c ∷ cs) =
    and_then (emit p (raw (c ∷ cs) ∷ []) r) (λ r. some (record r { pending = [] }))

-- From an escape on, bytes are passed through.
abbrev pub begin_passthrough : Renderer → Renderer
begin_passthrough r = record r { raw_until_newline = false; vt_passthrough = true }

abbrev pub at_escape :
    Patterns → Bytes → (Bytes → Renderer → Option Renderer) → Renderer → Option Renderer
at_escape p [] next r = some r
at_escape p (c ∷ cs) next r =
    and_then (write_pending p r r.pending) (λ r. next (c ∷ cs) (begin_passthrough r))

-- One round of the loop of `Write` on bytes that are left.
abbrev pub write_round :
    Patterns → Bytes → (Bytes → Renderer → Option Renderer) → Renderer → Option Renderer
write_round p s next r =
    if r.vt_passthrough
    then pass_through p r (scan r.vt s) next
    else and_then (add_text p (before_escape s).0 r (feed_all r.vt (before_escape s).0))
        (at_escape p (before_escape s).1 next)

-- The loop of `Write`.
unfoldable pub write_loop : Patterns → ℕ → Bytes → Renderer → Option Renderer
write_loop p zero s r = none
write_loop p (suc f) [] r = some r
write_loop p (suc f) (c ∷ cs) r = write_round p (c ∷ cs) (write_loop p f) r

-- `Write`. A round takes bytes or begins to pass them through, so two for each byte are enough.
abbrev pub write : Patterns → Bytes → Renderer → Option Renderer
write p s r = write_loop p (suc (2 * length s + 1)) s r

-- `Flush`
abbrev pub flush : Patterns → Renderer → Option Renderer
flush p r =
    and_then (write_pending p r r.pending) (λ r.
      some (record r { raw_until_newline = false; vt = record r.vt { line_has_text = false } }))

-- `ReleasePending`
abbrev pub release_pending : Patterns → Renderer → Option Renderer
release_pending p r =
    if is_nil r.pending
    then some r
    else and_then (write_pending p r r.pending) (λ r. some (record r { raw_until_newline = true }))
