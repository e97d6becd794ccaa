-- ===== src/Cli/Highlight/Matches/Ordered.antt =====
-- What is selected is in order and in range.
use channel_term.Prelude.{
  ℕ, ◌≤◌, ◌<◌, ◌≡◌, refl, arith, Bool, true, false, ◌||◌, List, [], ◌∷◌, ◌++◌, ◌==◌, if◌then◌else◌,
}
use channel_term.Debugger.Mi.Text.{is_nil}
use channel_term.Cli.Highlight.Matches.{Match, insert_by, sort_by, starts_first, uncovered, select}
use channel_term.Cli.Highlight.Matches.Disjoint.{
  Proper, Apart, All, AllApart, All-append, All-map, Apart-sym, AllApart-append, Selected,
  uncovered-parts,
}

-- A match that the patterns can give: a range of the line.
abbrev pub Ranged : ℕ → Match → Type 0
Ranged n m = (m.start ≤ m.stop) × (m.stop ≤ n)

-- One more candidate.
add-Selected :
    (n : ℕ) (sel : List Match) (m : Match)
    → Selected n sel
    → Proper n m
    → Selected n (sel ++ uncovered (m ∷ []) sel)
add-Selected n sel m s p =
    let (new, _, against) =
      uncovered-parts n (m ∷ []) sel (record { proper = (p, tt); apart = (tt, tt) })
        (All-map (Proper n) (λ b. b.start < b.stop) sel (λ b q. q.0) s.proper) in
    let us = uncovered (m ∷ []) sel in
    record {
      proper = All-append (Proper n) sel us s.proper new.proper;
      apart = AllApart-append sel us s.apart new.apart (
          All-map (λ b. All (λ g. Apart g b) us) (λ b. All (Apart b) us) sel
            (λ b a. All-map (λ g. Apart g b) (Apart b) us (λ g h. Apart-sym g b h) a) against);
    }

pub select-Selected :
    (n : ℕ) (sel ms : List Match) → Selected n sel → All (Ranged n) ms → Selected n (select sel ms)
select-Selected n sel [] s r = s
select-Selected n sel (m ∷ ms) s r =
    select-Selected n
      (if m.start == m.stop || is_nil m.style then sel else sel ++ uncovered (m ∷ []) sel) ms
      (given (m.start == m.stop || is_nil m.style) refl) r.1
  where
    given :
        (b : Bool)
        → (m.start == m.stop || is_nil m.style) ≡ b
        → Selected n (if b then sel else sel ++ uncovered (m ∷ []) sel)
    given true e = s
    given false e = add-Selected n sel m s (ground (arith, e, r.0), ground (arith, r.0))

All-insert :
    (P : Match → Type 0) (before : Match → Match → Bool) (m : Match) (ns : List Match)
    → P m
    → All P ns
    → All P (insert_by before m ns)
All-insert P before m [] p q = (p, tt)
All-insert P before m (n ∷ ns) p q = given (before m n) (All-insert P before m ns p q.1)
  where
    given :
        (b : Bool)
        → All P (insert_by before m ns)
        → All P (if b then m ∷ n ∷ ns else n ∷ insert_by before m ns)
    given true rest = (p, (q.0, q.1))
    given false rest = (q.0, rest)

pub All-sort :
    (P : Match → Type 0) (before : Match → Match → Bool) (ms : List Match)
    → All P ms
    → All P (sort_by before ms)
All-sort P before [] p = tt
All-sort P before (m ∷ ms) p =
    All-insert P before m (sort_by before ms) p.0 (All-sort P before ms p.1)

AllApart-insert :
    (before : Match → Match → Bool) (m : Match) (ns : List Match)
    → All (Apart m) ns
    → AllApart ns
    → AllApart (insert_by before m ns)
AllApart-insert before m [] p q = (tt, tt)
AllApart-insert before m (n ∷ ns) p q = given (before m n) (AllApart-insert before m ns p.1 q.1)
  where
    given :
        (b : Bool)
        → AllApart (insert_by before m ns)
        → AllApart (if b then m ∷ n ∷ ns else n ∷ insert_by before m ns)
    given true rest = (p, q)
    given false rest = (All-insert (Apart n) before m ns (Apart-sym m n p.0) q.0, rest)

pub AllApart-sort :
    (before : Match → Match → Bool) (ms : List Match) → AllApart ms → AllApart (sort_by before ms)
AllApart-sort before [] p = tt
AllApart-sort before (m ∷ ms) p =
    AllApart-insert before m (sort_by before ms) (All-sort (Apart m) before ms p.0)
      (AllApart-sort before ms p.1)

-- In the order of their starts.
abbrev pub Ordered : List Match → Type 0
Ordered [] = Unit
Ordered (m ∷ ms) = All (λ x. m.start ≤ x.start) ms × Ordered ms

Ordered-insert : (m : Match) (ns : List Match) → Ordered ns → Ordered (insert_by starts_first m ns)
Ordered-insert m [] q = (tt, tt)
Ordered-insert m (n ∷ ns) q = given (starts_first m n) refl (Ordered-insert m ns q.1)
  where
    given :
        (b : Bool)
        → starts_first m n ≡ b
        → Ordered (insert_by starts_first m ns)
        → Ordered (if b then m ∷ n ∷ ns else n ∷ insert_by starts_first m ns)
    given true e rest = (
      (
        ground (arith, e),
        All-map (λ x. n.start ≤ x.start) (λ x. m.start ≤ x.start) ns (λ x h. ground (arith, e, h))
            q.0,
      ),
      q,
    )
    given false e rest =
        (All-insert (λ x. n.start ≤ x.start) starts_first m ns (ground (arith, e)) q.0, rest)

pub Ordered-sort : (ms : List Match) → Ordered (sort_by starts_first ms)
Ordered-sort [] = tt
Ordered-sort (m ∷ ms) = Ordered-insert m (sort_by starts_first ms) (Ordered-sort ms)
