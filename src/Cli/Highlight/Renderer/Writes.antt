-- ===== src/Cli/Highlight/Renderer/Writes.antt =====
-- What one line comes out as: its own text, whatever the patterns say.
use mathlib.Core.List.{append_assoc, append-nil}
use mathlib.Core.Path.{subst}
use channel_term.Prelude.{
  ℕ, suc, ◌≡◌, refl, sym, ap, ◌∙◌, Bool, true, false, ◌&&◌, ◌||◌, not, Option, none, some, List, [],
  ◌∷◌, ◌++◌, ◌==◌, if◌then◌else◌, length, Bytes,
}
use channel_term.Debugger.Mi.Text.{is_nil}
use channel_term.Cli.Highlight.Matches.{Piece, raw, styled, Match, render_matches}
use channel_term.Cli.Highlight.Matches.Disjoint.{All}
use channel_term.Cli.Highlight.Matches.Ordered.{Ranged}
use channel_term.Cli.Highlight.Matches.Rendered.{text_of, render_matches-text}
use channel_term.Cli.Highlight.Renderer.{
  Patterns, Renderer, and_then, emit, emit_rendered, contains_screen_control, split_line_ending,
  join_ending, prompt_pieces, render_prompt, write_safe_line, write_line,
}

-- Matches are ranges of the line that is matched, and the output takes what it is given.
pub record Fair (p : Patterns) : Type 0 where
  pub matches : (line : Bytes) → All (Ranged (length line)) (p.matches line)
  pub prompt :
      (line : Bytes) (ms : List Match) → p.prompt line ≡ some ms → All (Ranged (length line)) ms
  pub writes : (n : ℕ) → p.writes n ≡ true

-- A text has been written, and the rest is as before.
pub record Wrote (s : Bytes) (r r' : Renderer) : Type 0 where
  pub text : text_of r'.out ≡ text_of r.out ++ s
  pub pending : r'.pending ≡ r.pending
  pub vt : r'.vt ≡ r.vt
  pub passing : r'.vt_passthrough ≡ r.vt_passthrough

-- An operation that succeeds.
abbrev pub Gives : Option Renderer → (Renderer → Type 0) → Type 0
Gives o Q = (r : Renderer) × (o ≡ some r) × Q r

pub and_then-Gives :
    (Q R : Renderer → Type 0) (o : Option Renderer) (next : Renderer → Option Renderer)
    → Gives o Q
    → ((r : Renderer) → Q r → Gives (next r) R)
    → Gives (and_then o next) R
and_then-Gives Q R o next (r, e, q) more =
    let (r', e', q') = more r q in (r', ap (λ o. and_then o next) e ∙ e', q')

text_of-append : (ps qs : List Piece) → text_of (ps ++ qs) ≡ text_of ps ++ text_of qs
text_of-append [] qs = refl
text_of-append (raw b ∷ ps) qs =
    ap (◌++◌ b) (text_of-append ps qs) ∙ sym (append_assoc b (text_of ps) (text_of qs))
text_of-append (styled style b ∷ ps) qs =
    ap (◌++◌ b) (text_of-append ps qs) ∙ sym (append_assoc b (text_of ps) (text_of qs))

pub emit-Gives :
    (p : Patterns) (ps : List Piece) (s : Bytes) (r : Renderer)
    → Fair p
    → text_of ps ≡ s
    → Gives (emit p ps r) (Wrote s r)
emit-Gives p ps s r fair e = (
  record r { out = r.out ++ ps; calls = suc r.calls },
  ap (λ b. if b then some (record r { out = r.out ++ ps; calls = suc r.calls }) else none)
      (fair.writes r.calls),
  record {
    text = text_of-append r.out ps ∙ ap (◌++◌ (text_of r.out)) e;
    pending = refl;
    vt = refl;
    passing = refl;
  },
)

pub raw-Gives :
    (p : Patterns) (s : Bytes) (r : Renderer) → Fair p → Gives (emit p (raw s ∷ []) r) (Wrote s r)
raw-Gives p s r fair = emit-Gives p (raw s ∷ []) s r fair (append-nil s)

pub Wrote-trans : (s t : Bytes) (a b c : Renderer) → Wrote s a b → Wrote t b c → Wrote (s ++ t) a c
Wrote-trans s t a b c w v = record {
  text = v.text ∙ ap (λ x. x ++ t) w.text ∙ append_assoc (text_of a.out) s t;
  pending = v.pending ∙ w.pending;
  vt = v.vt ∙ w.vt;
  passing = v.passing ∙ w.passing;
}

-- A rendered line.
abbrev RendersTo : Bytes → Option (List Piece) → Type 0
RendersTo s o = (ps : List Piece) × (o ≡ some ps) × (text_of ps ≡ s)

rendered-Gives :
    (p : Patterns) (o : Option (List Piece)) (s : Bytes) (r : Renderer)
    → Fair p
    → RendersTo s o
    → Gives (emit_rendered p o r) (Wrote s r)
rendered-Gives p o s r fair (ps, e, same) =
    let (r', e', w) = emit-Gives p ps s r fair same in (r', ap (λ o. emit_rendered p o r) e ∙ e', w)

-- What a prompt comes out as.
abbrev pub PromptOf : Bytes → Option (Option (List Piece)) → Type 0
PromptOf s none = Unit
PromptOf s (some o) = RendersTo s o

prompt_pieces-Of :
    (p : Patterns) (line : Bytes) (o : Option (List Match))
    → ((ms : List Match) → o ≡ some ms → All (Ranged (length line)) ms)
    → PromptOf line (prompt_pieces p line o)
prompt_pieces-Of p line (some ms) ranged = render_matches-text line ms (ranged ms refl)
prompt_pieces-Of p line none ranged = given (p.minimal_prompt line)
  where
    given : (b : Bool) → PromptOf line (if b then some (some (raw line ∷ [])) else none)
    given true = (raw line ∷ [], refl, append-nil line)
    given false = tt

pub render_prompt-Of : (p : Patterns) (line : Bytes) → Fair p → PromptOf line (render_prompt p line)
render_prompt-Of p line fair = prompt_pieces-Of p line (p.prompt line) (fair.prompt line)

pub prompt-Gives :
    (p : Patterns) (s : Bytes) (o : Option (List Piece)) (r : Renderer)
    → Fair p
    → PromptOf s (some o)
    → Gives (emit_rendered p o r) (Wrote s r)
prompt-Gives p s o r fair of = rendered-Gives p o s r fair of

whole_line : Bytes × Bytes → Bytes
whole_line (content, ending) = content ++ ending

join_ending-append :
    (c : ℕ) (cs content ending : Bytes)
    → content ++ ending ≡ cs
    → whole_line (join_ending c cs (content, ending)) ≡ c ∷ cs
unfolding whole_line
join_ending-append c [] content ending e = given (c == 10)
  where
    given : (b : Bool) → whole_line (if b then ([], c ∷ []) else (c ∷ [], [])) ≡ c ∷ []
    given true = refl
    given false = refl
join_ending-append c (d ∷ ds) [] ending e = given (not (is_nil ending) && c == 13)
  where
    given : (b : Bool) → whole_line (if b then ([], c ∷ ending) else (c ∷ [], ending)) ≡ c ∷ d ∷ ds
    given true = ap (◌∷◌ c) e
    given false = ap (◌∷◌ c) e
join_ending-append c (d ∷ ds) (x ∷ xs) ending e = ap (◌∷◌ c) e

split_line_ending-append : (line : Bytes) → whole_line (split_line_ending line) ≡ line
unfolding split_line_ending whole_line
split_line_ending-append [] = refl
split_line_ending-append (c ∷ cs) =
    join_ending-append c cs (split_line_ending cs).0 (split_line_ending cs).1
      (split_line_ending-append cs)

write_safe_line-Gives :
    (p : Patterns) (line content ending : Bytes) (o : Option (Option (List Piece))) (r : Renderer)
    → Fair p
    → content ++ ending ≡ line
    → PromptOf content o
    → Gives (write_safe_line p line ending o r) (Wrote line r)
write_safe_line-Gives p line content ending none r fair parts of =
    rendered-Gives p (render_matches line (p.matches line)) line r fair
      (render_matches-text line (p.matches line) (fair.matches line))
write_safe_line-Gives p line content ending (some o) r fair parts of =
    and_then-Gives (Wrote content r) (Wrote line r) (emit_rendered p o r) (emit p (raw ending ∷ []))
      (rendered-Gives p o content r fair of)
      (λ r' w.
        let (r'', e, v) = raw-Gives p ending r' fair in
        (r'', e, subst (λ s. Wrote s r r'') parts (Wrote-trans content ending r r' r'' w v)))

pub write_line-Gives :
    (p : Patterns) (line : Bytes) (is_raw : Bool) (r : Renderer)
    → Fair p
    → Gives (write_line p line is_raw r) (Wrote line r)
unfolding write_line whole_line
write_line-Gives p line is_raw r fair =
    given (is_raw || contains_screen_control p line || p.interactive_prompt line)
  where
    given :
        (b : Bool)
        → Gives
            (if b
              then emit p (raw line ∷ []) r
              else write_safe_line p line
                  (split_line_ending line).1
                  (render_prompt p (split_line_ending line).0)
                  r)
            (Wrote line r)
    given true = raw-Gives p line r fair
    given false =
        write_safe_line-Gives p line (split_line_ending line).0 (split_line_ending line).1
          (render_prompt p (split_line_ending line).0) r fair (split_line_ending-append line)
          (render_prompt-Of p (split_line_ending line).0 fair)
