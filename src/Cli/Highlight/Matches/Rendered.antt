-- ===== src/Cli/Highlight/Matches/Rendered.antt =====
-- A rendered line is the line, with styles around parts of it.
use mathlib.Core.List.{append-nil}
use channel_term.Prelude.{
  ℕ, zero, suc, ◌-◌, ◌≤◌, ◌≡◌, refl, sym, ap, ◌∙◌, arith, true, ◌&&◌, none, some, List, [], ◌∷◌,
  ◌++◌, leb, le→leb, if◌then◌else◌, inl, inr, length, take, drop, drop-drop, Bytes,
}
use channel_term.Cli.Highlight.Matches.{
  Piece, raw, styled, Match, sort_by, goes_first, starts_first, select, slice, cons_pieces,
  render_from, render_matches,
}
use channel_term.Cli.Highlight.Matches.Disjoint.{Proper, Apart, All, AllApart}
use channel_term.Cli.Highlight.Matches.Ordered.{
  Ranged, Ordered, select-Selected, All-sort, AllApart-sort, Ordered-sort,
}

All-all : (P : Match → Type 0) → ((m : Match) → P m) → (ms : List Match) → All P ms
All-all P f [] = tt
All-all P f (m ∷ ms) = (f m, All-all P f ms)

-- The text of the pieces, without their styles.
abbrev pub text_of : List Piece → Bytes
text_of [] = []
text_of (raw b ∷ ps) = b ++ text_of ps
text_of (styled style b ∷ ps) = b ++ text_of ps

take-drop : (k : ℕ) (xs : Bytes) → take k xs ++ drop k xs ≡ xs
take-drop zero xs = refl
take-drop (suc k) [] = refl
take-drop (suc k) (x ∷ xs) = ap (◌∷◌ x) (take-drop k xs)

slice-drop : (a b : ℕ) (line : Bytes) → a ≤ b → slice a b line ++ drop b line ≡ drop a line
slice-drop a b line h =
    ap (◌++◌ (slice a b line)) (sym (drop-drop a (b - a) b line (omega arith)))
    ∙ take-drop (b - a) (drop a line)

-- Ranges in order, from a place on.
abbrev Chain : ℕ → ℕ → List Match → Type 0
Chain n next [] = next ≤ n
Chain n next (m ∷ ms) = (next ≤ m.start) × (m.start ≤ m.stop) × (m.stop ≤ n) × Chain n m.stop ms

in_range : (next a b n : ℕ) → next ≤ a → a ≤ b → b ≤ n → (leb next a && leb a b && leb b n) ≡ true
in_range next a b n p q r = ground (arith, p, q, r)

render_from-text :
    (line : Bytes) (next : ℕ) (ms : List Match)
    → Chain (length line) next ms
    → (ps : List Piece) × (render_from line next ms ≡ some ps) × (text_of ps ≡ drop next line)
unfolding render_from
render_from-text line next [] c =
    (raw (drop next line) ∷ [], rw (le→leb next (length line) c), append-nil (drop next line))
render_from-text line next (m ∷ ms) c =
    let (ps, e, same) = render_from-text line m.stop ms c.3 in
    (
      raw (slice next m.start line) ∷ styled m.style (slice m.start m.stop line) ∷ ps,
      ap
            (λ b.
              if b
              then cons_pieces (raw (slice next m.start line))
                  (styled m.style (slice m.start m.stop line)) (render_from line m.stop ms)
              else none)
            (in_range next m.start m.stop (length line) c.0 c.1 c.2)
          ∙ ap
              (cons_pieces (raw (slice next m.start line))
                (styled m.style (slice m.start m.stop line)))
              e,
      ap (λ s. slice next m.start line ++ (slice m.start m.stop line ++ s)) same
          ∙ ap (◌++◌ (slice next m.start line)) (slice-drop m.start m.stop line c.1)
          ∙ slice-drop next m.start line c.0,
    )

-- What is apart, proper and in order is a chain.
after-Apart :
    (n : ℕ) (a x : Match)
    → Proper n a
    → Proper n x
    → Apart a x
    → a.start ≤ x.start
    → a.stop ≤ x.start
after-Apart n a x p q (inl h) o = h
after-Apart n a x p q (inr h) o = absurd (omega (arith, h, q.0, o))

Selected-Chain :
    (n next : ℕ) (ms : List Match)
    → next ≤ n
    → All (λ x. next ≤ x.start) ms
    → All (Proper n) ms
    → AllApart ms
    → Ordered ms
    → Chain n next ms
Selected-Chain n next [] h low proper apart ordered = h
Selected-Chain n next (m ∷ ms) h low proper apart ordered = (
  low.0,
  omega (arith, proper.0),
  proper.0.1,
  Selected-Chain n m.stop ms proper.0.1 (behind ms proper.1 apart.0 ordered.0) proper.1 apart.1
      ordered.1,
)
  where
    behind :
        (xs : List Match)
        → All (Proper n) xs
        → All (Apart m) xs
        → All (λ x. m.start ≤ x.start) xs
        → All (λ x. m.stop ≤ x.start) xs
    behind [] p a o = tt
    behind (x ∷ xs) p a o = (after-Apart n m x proper.0 p.0 a.0 o.0, behind xs p.1 a.1 o.1)

-- Whatever ranges of the line the patterns match, also where they overlap or contain one another:
-- `renderMatches` never slices out of range, and the text that it writes between its styles is the
-- line, each byte once and in order.
pub render_matches-text :
    (line : Bytes) (ms : List Match)
    → All (Ranged (length line)) ms
    → (ps : List Piece) × (render_matches line ms ≡ some ps) × (text_of ps ≡ line)
unfolding render_matches
render_matches-text line [] r = (raw line ∷ [], refl, append-nil line)
render_matches-text line (m ∷ ms) r =
    let n = length line in
    let candidates = sort_by goes_first (m ∷ ms) in
    let sel = select [] candidates in
    let s =
      select-Selected n [] candidates (record { proper = tt; apart = tt })
        (All-sort (Ranged n) goes_first (m ∷ ms) r) in
    render_from-text line 0 (sort_by starts_first sel) (
      Selected-Chain n 0 (sort_by starts_first sel) (omega arith)
        (All-all (λ x. 0 ≤ x.start) (λ x. omega arith) (sort_by starts_first sel))
        (All-sort (Proper n) starts_first sel s.proper) (AllApart-sort starts_first sel s.apart)
        (Ordered-sort sel))
