-- ===== src/Cli/Highlight/Renderer/Parts.antt =====
-- Each part of `Write` keeps what has come.
use mathlib.Core.List.{append_assoc, append-nil}
use mathlib.Core.Path.{subst}
use channel_term.Prelude.{
  ◌-◌, ◌≤◌, ◌≡◌, refl, sym, ap, ◌∙◌, arith, Bool, true, false, not, Option, some, [], ◌∷◌, ◌++◌,
  length, Bytes,
}
use channel_term.Cli.Highlight.Vt.{Tracker}
use channel_term.Cli.Highlight.Vt.Signals.{Bounded}
use channel_term.Cli.Highlight.Matches.Rendered.{text_of}
use channel_term.Cli.Highlight.Renderer.{Patterns, Renderer, and_then}
use channel_term.Cli.Highlight.Renderer.Steps.{
  feed_all, Scanned, pass_through, add_text, write_pending, begin_passthrough, at_escape,
}
use channel_term.Cli.Highlight.Renderer.Writes.{Fair, Wrote, Gives, and_then-Gives, raw-Gives}
use channel_term.Cli.Highlight.Renderer.Drains.{Kept, drain-Gives}
use channel_term.Cli.Highlight.Renderer.Scans.{feed_all-Gives, Scans}

-- What has come is what is shown, and then what is pending; nothing is pending while bytes are
-- passed through.
pub record Holds (seen : Bytes) (r : Renderer) : Type 0 where
  pub shown : text_of r.out ++ r.pending ≡ seen
  pub bounded : Bounded r.vt
  pub passing : r.vt_passthrough ≡ true → r.pending ≡ []

passed-Holds :
    (seen c : Bytes) (r r' : Renderer) (t : Tracker) (b : Bool)
    → Holds seen r
    → r.pending ≡ []
    → Bounded t
    → Wrote c (record r { vt = t }) r'
    → Holds (seen ++ c) (record r' { vt_passthrough = b })
passed-Holds seen c r r' t b h empty k w = record {
  shown =
      ap (λ x. text_of r'.out ++ x) (w.pending ∙ empty)
      ∙ append-nil (text_of r'.out)
      ∙ w.text
      ∙ ap (λ x. x ++ c)
          (sym (append-nil (text_of r.out)) ∙ ap (◌++◌ (text_of r.out)) (sym empty) ∙ h.shown);
  bounded = subst Bounded (sym w.vt) k;
  passing = λ e. w.pending ∙ empty;
}

-- A text goes on, in two parts.
pub Gives-parts :
    (seen a b s : Bytes) (o : Option Renderer)
    → a ++ b ≡ s
    → Gives o (Holds ((seen ++ a) ++ b))
    → Gives o (Holds (seen ++ s))
Gives-parts seen a b s o e (r, e', h) =
    (r, e', subst (λ x. Holds x r) (append_assoc seen a b ∙ ap (◌++◌ seen) e) h)

pub pass_through-Gives :
    (p : Patterns) (seen s : Bytes) (r : Renderer) (o : Option Scanned)
    (next : Bytes → Renderer → Option Renderer)
    → Fair p
    → Holds seen r
    → r.pending ≡ []
    → (x : Scanned) × (o ≡ some x) × Scans s x
    → ((x : Bytes) (r' : Renderer) (seen' : Bytes)
        → length x ≤ length s - 1
        → Holds seen' r'
        → Gives (next x r') (Holds (seen' ++ x)))
    → Gives (pass_through p r o next) (Holds (seen ++ s))
pass_through-Gives p seen s r o next fair h empty (x, e, scanned) more =
    let (r', e', w) = raw-Gives p x.consumed (record r { vt = x.vt }) fair in
    let held = passed-Holds seen x.consumed r r' x.vt (not x.resumes) h empty scanned.0 w in
    let (r'', e'', h') =
      Gives-parts seen x.consumed x.rest s
        (next x.rest (record r' { vt_passthrough = not x.resumes })) scanned.1
        (more x.rest (record r' { vt_passthrough = not x.resumes }) (seen ++ x.consumed) scanned.2
          held) in
    (
      r'',
      ap (λ o. pass_through p r o next) e
          ∙ ap (λ o. and_then o (λ r. next x.rest (record r { vt_passthrough = not x.resumes }))) e'
          ∙ e'',
      h',
    )

-- Plain text is added to what is pending.
added-Holds :
    (seen s : Bytes) (r r' : Renderer) (t : Tracker)
    → Holds seen r
    → r.vt_passthrough ≡ false
    → Bounded t
    → Kept (record r { vt = t; pending = r.pending ++ s }) r'
    → Holds (seen ++ s) r'
added-Holds seen s r r' t h off k kept = record {
  shown = kept.shown ∙ sym (append_assoc (text_of r.out) r.pending s) ∙ ap (λ x. x ++ s) h.shown;
  bounded = subst Bounded (sym kept.vt) k;
  passing = λ e. absurd (ground (arith, e, kept.passing, off));
}

pub add_text-Gives :
    (p : Patterns) (seen s : Bytes) (r : Renderer)
    → Fair p
    → Holds seen r
    → r.vt_passthrough ≡ false
    → Gives (add_text p s r (feed_all r.vt s)) (Holds (seen ++ s))
add_text-Gives p seen s r fair h off =
    let (t, e, k) = feed_all-Gives r.vt s h.bounded in
    let (r', e', kept) = drain-Gives p (record r { vt = t; pending = r.pending ++ s }) fair in
    (r', ap (add_text p s r) e ∙ e', added-Holds seen s r r' t h off k kept)

pub write_pending-Gives :
    (p : Patterns) (seen : Bytes) (r : Renderer) (s : Bytes)
    → Fair p
    → Holds seen r
    → r.pending ≡ s
    → Gives (write_pending p r s) (λ r'. Holds seen r' × (r'.pending ≡ []))
write_pending-Gives p seen r [] fair h e = (r, refl, (h, e))
write_pending-Gives p seen r (c ∷ cs) fair h e =
    let (r', e', w) = raw-Gives p (c ∷ cs) r fair in
    (
      record r' { pending = [] },
      ap (λ o. and_then o (λ r. some (record r { pending = [] }))) e',
      (
        record {
          shown =
              append-nil (text_of r'.out) ∙ w.text ∙ ap (◌++◌ (text_of r.out)) (sym e) ∙ h.shown;
          bounded = subst Bounded (sym w.vt) h.bounded;
          passing = λ _. refl;
        },
        refl,
      ),
    )

begun-Holds :
    (seen : Bytes) (r : Renderer) → Holds seen r → r.pending ≡ [] → Holds seen (begin_passthrough r)
begun-Holds seen r h empty = record { shown = h.shown; bounded = h.bounded; passing = λ _. empty }

pub at_escape-Gives :
    (p : Patterns) (seen s : Bytes) (r : Renderer) (next : Bytes → Renderer → Option Renderer)
    → Fair p
    → Holds seen r
    → ((r' : Renderer)
        → Holds seen r'
        → r'.vt_passthrough ≡ true
        → Gives (next s r') (Holds (seen ++ s)))
    → Gives (at_escape p s next r) (Holds (seen ++ s))
at_escape-Gives p seen [] r next fair h more =
    (r, refl, subst (λ x. Holds x r) (sym (append-nil seen)) h)
at_escape-Gives p seen (c ∷ cs) r next fair h more =
    and_then-Gives (λ r'. Holds seen r' × (r'.pending ≡ [])) (Holds (seen ++ c ∷ cs))
      (write_pending p r r.pending) (λ r. next (c ∷ cs) (begin_passthrough r))
      (write_pending-Gives p seen r r.pending fair h refl)
      (λ r' q. more (begin_passthrough r') (begun-Holds seen r' q.0 q.1) refl)
