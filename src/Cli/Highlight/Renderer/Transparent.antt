-- ===== src/Cli/Highlight/Renderer/Transparent.antt =====
-- Highlighting never loses or changes what a device sends.
use mathlib.Core.List.{append-nil}
use mathlib.Core.Path.{subst}
use channel_term.Prelude.{
  ℕ, zero, suc, ◌+◌, ◌*◌, ◌<◌, ◌≤◌, ◌≡◌, refl, sym, ap, arith, Bool, true, false, Option, some,
  List, [], ◌∷◌, ◌++◌, if◌then◌else◌, length, Bytes,
}
use channel_term.Debugger.Mi.Text.{is_nil}
use channel_term.Cli.Highlight.Vt.Safe.{new-Bounded}
use channel_term.Cli.Highlight.Matches.Rendered.{text_of}
use channel_term.Cli.Highlight.Renderer.{Patterns, Renderer, new_renderer, and_then}
use channel_term.Cli.Highlight.Renderer.Steps.{
  feed_all, scan, pass_through, before_escape, add_text, write_pending, at_escape, write_round,
  write_loop, write, flush, release_pending,
}
use channel_term.Cli.Highlight.Renderer.Writes.{Fair, Gives, and_then-Gives}
use channel_term.Cli.Highlight.Renderer.Scans.{
  scan-Gives, before_escape-append, before_escape-length,
}
use channel_term.Cli.Highlight.Renderer.Parts.{
  Holds, Gives-parts, pass_through-Gives, add_text-Gives, write_pending-Gives, at_escape-Gives,
}

-- Two rounds for each byte, and one to begin to pass them through.
abbrev weight : Bool → ℕ
weight true = 0
weight false = 1

weight-small : (b : Bool) → weight b ≤ 1
weight-small true = omega arith
weight-small false = omega arith

-- The loop on what is left, if it has fuel enough.
abbrev Enough : Patterns → ℕ → Type 0
Enough p f =
    (seen s : Bytes) (r : Renderer)
    → Holds seen r
    → 2 * length s + weight r.vt_passthrough < f
    → Gives (write_loop p f s r) (Holds (seen ++ s))

write_round-Gives :
    (p : Patterns) (f : ℕ) (seen s : Bytes) (r : Renderer)
    → Fair p
    → Enough p f
    → Holds seen r
    → 0 < length s
    → 2 * length s + weight r.vt_passthrough < suc f
    → Gives (write_round p s (write_loop p f) r) (Holds (seen ++ s))
write_round-Gives p f seen s r fair enough h some_left fuel = given r.vt_passthrough refl
  where
    given :
        (b : Bool)
        → r.vt_passthrough ≡ b
        → Gives
            (if b
              then pass_through p r (scan r.vt s) (write_loop p f)
              else and_then
                  (add_text p (before_escape s).0 r (feed_all r.vt (before_escape s).0))
                  (at_escape p (before_escape s).1 (write_loop p f)))
            (Holds (seen ++ s))
    given true e =
        pass_through-Gives p seen s r (scan r.vt s) (write_loop p f) fair h (h.passing e)
          (scan-Gives r.vt s h.bounded)
          (λ x r' seen' shorter h'.
            enough seen' x r' h'
              (omega (arith, fuel, shorter, some_left, weight-small r'.vt_passthrough)))
    given false e =
        Gives-parts seen (before_escape s).0 (before_escape s).1 s _ (before_escape-append s) (
          and_then-Gives (Holds (seen ++ (before_escape s).0))
            (Holds ((seen ++ (before_escape s).0) ++ (before_escape s).1))
            (add_text p (before_escape s).0 r (feed_all r.vt (before_escape s).0))
            (at_escape p (before_escape s).1 (write_loop p f))
            (add_text-Gives p seen (before_escape s).0 r fair h e)
            (λ r' h'.
              at_escape-Gives p (seen ++ (before_escape s).0) (before_escape s).1 r'
                (write_loop p f) fair h'
                (λ r'' h'' on.
                  enough (seen ++ (before_escape s).0) (before_escape s).1 r'' h''
                    (omega (arith, fuel, before_escape-length s, ap weight on, ap weight e)))))

write_loop-Gives : (p : Patterns) (f : ℕ) → Fair p → Enough p f
unfolding write_loop
write_loop-Gives p zero fair seen s r h fuel = absurd (omega arith)
write_loop-Gives p (suc f) fair seen [] r h fuel =
    (r, refl, subst (λ x. Holds x r) (sym (append-nil seen)) h)
write_loop-Gives p (suc f) fair seen (c ∷ cs) r h fuel =
    write_round-Gives p f seen (c ∷ cs) r fair (write_loop-Gives p f fair) h (omega arith) fuel

write-Gives :
    (p : Patterns) (seen s : Bytes) (r : Renderer)
    → Fair p
    → Holds seen r
    → Gives (write p s r) (Holds (seen ++ s))
write-Gives p seen s r fair h =
    write_loop-Gives p (suc (2 * length s + 1)) fair seen s r h
      (omega (arith, weight-small r.vt_passthrough))

flush-Gives :
    (p : Patterns) (seen : Bytes) (r : Renderer)
    → Fair p
    → Holds seen r
    → Gives (flush p r) (λ r'. Holds seen r' × (r'.pending ≡ []))
flush-Gives p seen r fair h =
    and_then-Gives (λ r'. Holds seen r' × (r'.pending ≡ []))
      (λ r'. Holds seen r' × (r'.pending ≡ [])) (write_pending p r r.pending) _
      (write_pending-Gives p seen r r.pending fair h refl)
      (λ r' q. (
        _,
        refl,
        (
          record {
            shown = q.0.shown;
            bounded = record { parameters = q.0.bounded.parameters; offset = q.0.bounded.offset };
            passing = q.0.passing;
          },
          q.1,
        ),
      ))

nil_of_is_nil : (s : Bytes) → is_nil s ≡ true → s ≡ []
nil_of_is_nil [] e = refl
nil_of_is_nil (c ∷ cs) e = absurd (ground (arith, e))

release_pending-Gives :
    (p : Patterns) (seen : Bytes) (r : Renderer)
    → Fair p
    → Holds seen r
    → Gives (release_pending p r) (λ r'. Holds seen r' × (r'.pending ≡ []))
release_pending-Gives p seen r fair h = given (is_nil r.pending) refl
  where
    given :
        (b : Bool)
        → is_nil r.pending ≡ b
        → Gives
            (if b
              then some r
              else and_then
                  (write_pending p r r.pending)
                  (λ r. some (record r { raw_until_newline = true })))
            (λ r'. Holds seen r' × (r'.pending ≡ []))
    given true e = (r, refl, (h, nil_of_is_nil r.pending e))
    given false e =
        and_then-Gives (λ r'. Holds seen r' × (r'.pending ≡ []))
          (λ r'. Holds seen r' × (r'.pending ≡ [])) (write_pending p r r.pending) _
          (write_pending-Gives p seen r r.pending fair h refl)
          (λ r' q. (
            _,
            refl,
            (record { shown = q.0.shown; bounded = q.0.bounded; passing = q.0.passing }, q.1),
          ))

-- What a caller does with a Renderer.
pub data Call : Type 0 where
  writes : Bytes → Call
  flushes releases : Call

abbrev pub call : Patterns → Call → Renderer → Option Renderer
call p (writes s) r = write p s r
call p flushes r = flush p r
call p releases r = release_pending p r

abbrev pub calls : Patterns → List Call → Renderer → Option Renderer
calls p [] r = some r
calls p (c ∷ cs) r = and_then (call p c r) (calls p cs)

-- The bytes of a device, chunk after chunk.
abbrev pub received : List Call → Bytes
received [] = []
received (writes s ∷ cs) = s ++ received cs
received (flushes ∷ cs) = received cs
received (releases ∷ cs) = received cs

calls-Gives :
    (p : Patterns) (cs : List Call) (seen : Bytes) (r : Renderer)
    → Fair p
    → Holds seen r
    → Gives (calls p cs r) (Holds (seen ++ received cs))
calls-Gives p [] seen r fair h = (r, refl, subst (λ x. Holds x r) (sym (append-nil seen)) h)
calls-Gives p (writes s ∷ cs) seen r fair h =
    Gives-parts seen s (received cs) (s ++ received cs) _ refl (
      and_then-Gives (Holds (seen ++ s)) (Holds ((seen ++ s) ++ received cs)) (write p s r)
        (calls p cs) (write-Gives p seen s r fair h)
        (λ r' h'. calls-Gives p cs (seen ++ s) r' fair h'))
calls-Gives p (flushes ∷ cs) seen r fair h =
    and_then-Gives _ (Holds (seen ++ received cs)) (flush p r) (calls p cs)
      (flush-Gives p seen r fair h) (λ r' q. calls-Gives p cs seen r' fair q.0)
calls-Gives p (releases ∷ cs) seen r fair h =
    and_then-Gives _ (Holds (seen ++ received cs)) (release_pending p r) (calls p cs)
      (release_pending-Gives p seen r fair h) (λ r' q. calls-Gives p cs seen r' fair q.0)

new-Holds : Holds [] new_renderer
new-Holds = record { shown = refl; bounded = new-Bounded; passing = λ e. refl }

-- A new Renderer whose output takes all that it is given, with patterns that match ranges of the line:
-- whatever chunks it is given, cut anywhere, with `Flush` and `ReleasePending` between them, each call
-- returns, without a panic. What has been written, without the styles that were put in, and what is
-- still pending are together exactly the bytes that came, each once and in order.
pub renderer_transparent :
    (p : Patterns) (cs : List Call)
    → Fair p
    → (r : Renderer) × (calls p cs new_renderer ≡ some r)
      × (text_of r.out ++ r.pending ≡ received cs)
renderer_transparent p cs fair =
    let (r, e, h) = calls-Gives p cs [] new_renderer fair new-Holds in (r, e, h.shown)
