-- ===== src/Cli/Highlight/Renderer/Drains.antt =====
-- `drain` ends, and loses nothing.
use mathlib.Core.List.{append_assoc, append-nil}
use mathlib.Core.Path.{subst, subst⁻¹}
use channel_term.Prelude.{
  ℕ, zero, suc, ◌<◌, ◌≡◌, refl, sym, ap, ◌∙◌, arith, Bool, true, false, ◌&&◌, ◌||◌, not, Option,
  none, some, List, [], ◌∷◌, ◌++◌, ◌==◌, ltb, if◌then◌else◌, length, Bytes,
}
use channel_term.Cli.Highlight.Matches.{Piece, raw}
use channel_term.Cli.Highlight.Matches.Rendered.{text_of}
use channel_term.Cli.Highlight.Renderer.{
  Patterns, Renderer, emit, emit_rendered, contains_screen_control, render_prompt, write_line,
  cut_line, last_byte, Drained, again, done, broken, then_drained, emptied, drain_prompt,
  drain_partial, drain_line, drain_round, go_on, drain_loop, drain, max_pending,
}
use channel_term.Cli.Highlight.Renderer.Writes.{
  Fair, Wrote, Gives, raw-Gives, PromptOf, render_prompt-Of, prompt-Gives, write_line-Gives,
}

-- What has come, written or pending, is the same; so is the tracker.
pub record Kept (r r' : Renderer) : Type 0 where
  pub shown : text_of r'.out ++ r'.pending ≡ text_of r.out ++ r.pending
  pub vt : r'.vt ≡ r.vt
  pub passing : r'.vt_passthrough ≡ r.vt_passthrough

Kept-trans : (a b c : Renderer) → Kept a b → Kept b c → Kept a c
Kept-trans a b c k l = record {
  shown = l.shown ∙ k.shown;
  vt = l.vt ∙ k.vt;
  passing = l.passing ∙ k.passing;
}

-- What a round is to keep; one that goes on leaves less than `n` bytes pending.
abbrev Keeps : Renderer → ℕ → Drained → Type 0
Keeps r n (again r') = Kept r r' × (length r'.pending < n)
Keeps r n (done r') = Kept r r'
Keeps r n broken = ⊥

if-Keeps :
    (r : Renderer) (n : ℕ) (b : Bool) (x y : Drained)
    → Keeps r n x
    → Keeps r n y
    → Keeps r n (if b then x else y)
if-Keeps r n true x y p q = p
if-Keeps r n false x y p q = q

then_drained-Keeps :
    (r : Renderer) (n : ℕ) (s : Bytes) (o : Option Renderer) (next : Renderer → Drained)
    → Gives o (Wrote s r)
    → ((r' : Renderer) → Wrote s r r' → Keeps r n (next r'))
    → Keeps r n (then_drained o next)
then_drained-Keeps r n s o next (r', e, w) more =
    subst (λ o. Keeps r n (then_drained o next)) (sym e) (more r' w)

-- The pending text has been written, up to a rest.
Wrote-Kept :
    (r r' : Renderer) (s rest : Bytes) (is_raw : Bool)
    → Wrote s r r'
    → s ++ rest ≡ r.pending
    → Kept r (record r' { pending = rest; raw_until_newline = is_raw })
Wrote-Kept r r' s rest is_raw w e = record {
  shown =
      ap (λ x. x ++ rest) w.text
      ∙ append_assoc (text_of r.out) s rest
      ∙ ap (◌++◌ (text_of r.out)) e;
  vt = w.vt;
  passing = w.passing;
}

same-Kept : (r : Renderer) → Kept r r
same-Kept r = record { shown = refl; vt = refl; passing = refl }

drain_prompt-Keeps :
    (p : Patterns) (r : Renderer) (n : ℕ) (o : Option (Option (List Piece)))
    → Fair p
    → PromptOf r.pending o
    → Keeps r n (drain_prompt p r o)
drain_prompt-Keeps p r n none fair of = same-Kept r
drain_prompt-Keeps p r n (some pieces) fair of =
    then_drained-Keeps r n r.pending (emit_rendered p pieces r) (λ r. done (emptied true r))
      (prompt-Gives p r.pending pieces r fair of)
      (λ r' w. Wrote-Kept r r' r.pending [] true w (append-nil r.pending))

drain_partial-Keeps :
    (p : Patterns) (r : Renderer) (n : ℕ) → Fair p → 0 < n → Keeps r n (drain_partial p r)
drain_partial-Keeps p r n fair some_pending =
    if-Keeps r n (not r.raw_until_newline && last_byte r.pending == 13) _ _ (same-Kept r) (
      if-Keeps r n
        (r.raw_until_newline
          || contains_screen_control p r.pending
          || ltb max_pending (length r.pending))
        (then_drained (emit p (raw r.pending ∷ []) r) (λ r. again (record r { pending = [] }))) _
        (then_drained-Keeps r n r.pending (emit p (raw r.pending ∷ []) r)
          (λ r. again (record r { pending = [] })) (raw-Gives p r.pending r fair)
          (λ r' w. (
            Wrote-Kept r r' r.pending [] r'.raw_until_newline w (append-nil r.pending),
            some_pending,
          )))
        (if-Keeps r n (p.interactive_prompt r.pending)
          (then_drained (emit p (raw r.pending ∷ []) r) (λ r. done (emptied true r))) _
          (then_drained-Keeps r n r.pending (emit p (raw r.pending ∷ []) r)
            (λ r. done (emptied true r)) (raw-Gives p r.pending r fair)
            (λ r' w. Wrote-Kept r r' r.pending [] true w (append-nil r.pending)))
          (drain_prompt-Keeps p r n (render_prompt p r.pending) fair
            (render_prompt-Of p r.pending fair))))

-- A line that is cut off is the beginning of the text.
abbrev CutOf : Bytes → Option (Bytes × Bytes) → Type 0
CutOf s none = Unit
CutOf s (some (line, rest)) = (line ++ rest ≡ s) × (length rest < length s)

cut_line-Of : (s : Bytes) → CutOf s (cut_line s)
unfolding cut_line
cut_line-Of [] = tt
cut_line-Of (c ∷ cs) = given (c == 10) (cut_line cs) (cut_line-Of cs)
  where
    given :
        (b : Bool) (o : Option (Bytes × Bytes))
        → CutOf cs o
        → CutOf (c ∷ cs) (
            if b
            then some (c ∷ [], cs)
            else elim o [ none ↦ none | some (line, s) ↦ some (c ∷ line, s) ])
    given true o h = (refl, omega arith)
    given false none h = tt
    given false (some (line, s)) h = (ap (◌∷◌ c) h.0, omega (arith, h.1))

drain_line-Keeps :
    (p : Patterns) (r : Renderer) (o : Option (Bytes × Bytes))
    → Fair p
    → 0 < length r.pending
    → CutOf r.pending o
    → Keeps r (length r.pending) (drain_line p r o)
drain_line-Keeps p r none fair h cut = drain_partial-Keeps p r (length r.pending) fair h
drain_line-Keeps p r (some (line, rest)) fair h cut =
    then_drained-Keeps r (length r.pending) line (write_line p line r.raw_until_newline r)
      (λ r. again (record r { pending = rest; raw_until_newline = false }))
      (write_line-Gives p line r.raw_until_newline r fair)
      (λ r' w. (Wrote-Kept r r' line rest false w cut.0, cut.1))

drain_round-Keeps :
    (p : Patterns) (r : Renderer) (s : Bytes)
    → Fair p
    → r.pending ≡ s
    → Keeps r (length r.pending) (drain_round p r s)
drain_round-Keeps p r [] fair e = same-Kept r
drain_round-Keeps p r (c ∷ cs) fair e =
    drain_line-Keeps p r (cut_line (c ∷ cs)) fair (omega (arith, ap length e))
      (subst⁻¹ (λ s. CutOf s (cut_line (c ∷ cs))) e (cut_line-Of (c ∷ cs)))

drain_loop-Gives :
    (p : Patterns) (f : ℕ) (r : Renderer)
    → Fair p
    → length r.pending < f
    → Gives (drain_loop p f r) (Kept r)
unfolding drain_loop
drain_loop-Gives p zero r fair h = absurd (omega arith)
drain_loop-Gives p (suc f) r fair h =
    given (drain_round p r r.pending) (drain_round-Keeps p r r.pending fair refl)
      (λ r' shorter. drain_loop-Gives p f r' fair (omega (arith, shorter)))
  where
    given :
        (d : Drained)
        → Keeps r (length r.pending) d
        → ((r' : Renderer)
            → length r'.pending < length r.pending
            → Gives (drain_loop p f r') (Kept r'))
        → Gives (go_on (drain_loop p f) d) (Kept r)
    given (again r') (k, shorter) rest =
        let (r'', e, l) = rest r' shorter in (r'', e, Kept-trans r r' r'' k l)
    given (done r') k rest = (r', refl, k)
    given broken k rest = absurd k

pub drain-Gives : (p : Patterns) (r : Renderer) → Fair p → Gives (drain p r) (Kept r)
drain-Gives p r fair = drain_loop-Gives p (suc (length r.pending)) r fair (omega arith)
