-- ===== src/Cli/Highlight/Matches.antt =====
-- internal/cli/highlight/highlight.go: `renderMatches`, which puts styles around parts of a line. What is
-- written is a list of pieces. `sort.Slice` is an insertion sort.
pub mod Disjoint
pub mod Ordered
pub mod Rendered
mod Tests
use channel_term.Prelude.{
  ℕ, ◌-◌, Bool, true, false, ◌&&◌, ◌||◌, Option, none, some, List, [], ◌∷◌, ◌++◌, ◌==◌, ltb, leb,
  if◌then◌else◌, length, take, drop, Bytes,
}
use channel_term.Debugger.Mi.Text.{is_nil}

pub data Piece : Type 0 where
  raw : Bytes → Piece
  styled : (style text : Bytes) → Piece

-- `match`
pub record Match : Type 0 where
  pub start : ℕ
  pub stop : ℕ
  pub style : Bytes
  pub priority : ℕ

abbrev pub insert_by : (Match → Match → Bool) → Match → List Match → List Match
insert_by before m [] = m ∷ []
insert_by before m (n ∷ ns) =
    let rest = n ∷ insert_by before m ns in if before m n then m ∷ n ∷ ns else rest

abbrev pub sort_by : (Match → Match → Bool) → List Match → List Match
sort_by before [] = []
sort_by before (m ∷ ms) = insert_by before m (sort_by before ms)

-- The order in which matches are given their place.
abbrev pub goes_first : Match → Match → Bool
goes_first a b =
    if a.priority == b.priority
    then (if a.start == b.start then ltb b.stop a.stop else ltb a.start b.start)
    else ltb b.priority a.priority

abbrev pub starts_first : Match → Match → Bool
starts_first a b = ltb a.start b.start

-- What a blocker leaves of a fragment.
abbrev pub cut : Match → Match → List Match
cut blocker f =
    if leb f.stop blocker.start || leb blocker.stop f.start
    then f ∷ []
    else (if ltb f.start blocker.start then record f { stop = blocker.start } ∷ [] else [])
      ++ (if ltb blocker.stop f.stop then record f { start = blocker.stop } ∷ [] else [])

abbrev pub cut_all : Match → List Match → List Match
cut_all blocker [] = []
cut_all blocker (f ∷ fs) = cut blocker f ++ cut_all blocker fs

-- `uncoveredMatchFragments`, from the fragments that are left.
abbrev pub uncovered : List Match → List Match → List Match
uncovered fs [] = fs
uncovered fs (blocker ∷ rest) = uncovered (cut_all blocker fs) rest

-- The loop over the candidates, with what has been selected.
abbrev pub select : List Match → List Match → List Match
select selected [] = selected
select selected (m ∷ ms) =
    select
      (if m.start == m.stop || is_nil m.style
        then selected
        else selected ++ uncovered (m ∷ []) selected)
      ms

abbrev pub slice : ℕ → ℕ → Bytes → Bytes
slice start stop line = take (stop - start) (drop start line)

abbrev pub cons_pieces : Piece → Piece → Option (List Piece) → Option (List Piece)
cons_pieces p q none = none
cons_pieces p q (some ps) = some (p ∷ q ∷ ps)

-- The loop that writes the line; `none` is a slice out of range, which panics.
unfoldable pub render_from : Bytes → ℕ → List Match → Option (List Piece)
render_from line next [] = if leb next (length line) then some (raw (drop next line) ∷ []) else none
render_from line next (m ∷ ms) =
    if leb next m.start && leb m.start m.stop && leb m.stop (length line)
    then cons_pieces (raw (slice next m.start line)) (styled m.style (slice m.start m.stop line))
        (render_from line m.stop ms)
    else none

-- `renderMatches`
unfoldable pub render_matches : Bytes → List Match → Option (List Piece)
render_matches line [] = some (raw line ∷ [])
render_matches line (m ∷ ms) =
    render_from line 0 (sort_by starts_first (select [] (sort_by goes_first (m ∷ ms))))
