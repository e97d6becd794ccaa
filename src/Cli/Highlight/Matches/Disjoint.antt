-- ===== src/Cli/Highlight/Matches/Disjoint.antt =====
-- What is selected never overlaps.
use channel_term.Prelude.{
  ℕ, ◌≤◌, ◌<◌, ◌≡◌, refl, arith, Bool, true, false, ◌||◌, List, [], ◌∷◌, ◌++◌, ltb, leb, leb→le,
  ltb→lt, if◌then◌else◌, ◌⊎◌, inl, inr, Bool-cases,
}
use channel_term.Cli.Highlight.Matches.{Match, cut, cut_all, uncovered}

-- A match of something, within so many bytes.
abbrev pub Proper : ℕ → Match → Type 0
Proper n m = (m.start < m.stop) × (m.stop ≤ n)

abbrev pub Apart : Match → Match → Type 0
Apart a b = (a.stop ≤ b.start) ⊎ (b.stop ≤ a.start)

abbrev pub All {ℓ} : (Match → Type ℓ) → List Match → Type ℓ
All P [] = Unit
All P (m ∷ ms) = P m × All P ms

-- No two of them overlap.
abbrev pub AllApart : List Match → Type 0
AllApart [] = Unit
AllApart (m ∷ ms) = All (Apart m) ms × AllApart ms

pub All-append : (P : Match → Type 0) (xs ys : List Match) → All P xs → All P ys → All P (xs ++ ys)
All-append P [] ys p q = q
All-append P (x ∷ xs) ys p q = (p.0, All-append P xs ys p.1 q)

pub All-map :
    (P Q : Match → Type 0) (xs : List Match) → ((m : Match) → P m → Q m) → All P xs → All Q xs
All-map P Q [] f p = tt
All-map P Q (x ∷ xs) f p = (f x p.0, All-map P Q xs f p.1)

pub Apart-sym : (a b : Match) → Apart a b → Apart b a
Apart-sym a b (inl h) = inr h
Apart-sym a b (inr h) = inl h

-- Two lists, all of which are apart.
abbrev pub Across : List Match → List Match → Type 0
Across xs ys = All (λ x. All (Apart x) ys) xs

pub AllApart-append :
    (xs ys : List Match) → AllApart xs → AllApart ys → Across xs ys → AllApart (xs ++ ys)
AllApart-append [] ys p q r = q
AllApart-append (x ∷ xs) ys p q r =
    (All-append (Apart x) xs ys p.0 r.0, AllApart-append xs ys p.1 q r.1)

-- A part of a match.
abbrev pub Part : Match → Match → Type 0
Part f g = (f.start ≤ g.start) × (g.start < g.stop) × (g.stop ≤ f.stop)

Part-Apart : (f g x : Match) → Part f g → Apart f x → Apart g x
Part-Apart f g x p (inl h) = inl (omega arith)
Part-Apart f g x p (inr h) = inr (omega arith)

clear-Apart : (b f : Match) → (leb f.stop b.start || leb b.stop f.start) ≡ true → Apart f b
clear-Apart b f c = elim (Bool-cases (leb f.stop b.start)) [
  | inl e ↦ inl (leb→le f.stop b.start e)
  | inr e ↦ inr (ground (arith, c, e))
]

-- What is left of a fragment: parts of it, apart from the blocker and from one another.
cut-parts :
    (b f : Match)
    → f.start < f.stop
    → b.start < b.stop
    → All (λ g. Part f g × Apart g b) (cut b f) × AllApart (cut b f)
cut-parts b f h k =
    given (leb f.stop b.start || leb b.stop f.start) (ltb f.start b.start) (ltb b.stop f.stop) refl
      refl refl
  where
    given :
        (clear left right : Bool)
        → (leb f.stop b.start || leb b.stop f.start) ≡ clear
        → ltb f.start b.start ≡ left
        → ltb b.stop f.stop ≡ right
        → All
            (λ g. Part f g × Apart g b)
            (if clear
              then f ∷ []
              else (if left then record f { stop = b.start } ∷ [] else [])
                ++ (if right then record f { start = b.stop } ∷ [] else []))
          × AllApart (
              if clear
              then f ∷ []
              else (if left then record f { stop = b.start } ∷ [] else [])
                ++ (if right then record f { start = b.stop } ∷ [] else []))
    given true left right c l r =
        ((((omega arith, h, omega arith), clear-Apart b f c), tt), (tt, tt))
    given false true true c l r =
        let low = ltb→lt f.start b.start l in
        let high = ltb→lt b.stop f.stop r in
        (
          (
            ((omega arith, low, omega arith), inl (omega arith)),
            (((omega arith, high, omega arith), inr (omega arith)), tt),
          ),
          ((inl (omega arith), tt), (tt, tt)),
        )
    given false true false c l r =
        let low = ltb→lt f.start b.start l in
        ((((omega arith, low, ground (arith, c)), inl (omega arith)), tt), (tt, tt))
    given false false true c l r =
        let high = ltb→lt b.stop f.stop r in
        ((((ground (arith, c), high, omega arith), inr (omega arith)), tt), (tt, tt))
    given false false false c l r = (tt, tt)

-- What holds of the fragments of a candidate against those that have been selected.
pub record Selected (n : ℕ) (ms : List Match) : Type 0 where
  pub proper : All (Proper n) ms
  pub apart : AllApart ms

-- All of the fragments at once.
cut_all-parts :
    (b : Match) (fs : List Match)
    → b.start < b.stop
    → All (λ f. f.start < f.stop) fs
    → AllApart fs
    → All (λ g. Apart g b) (cut_all b fs)
      × AllApart (cut_all b fs)
      × ((P : Match → Type 0)
          → ((f g : Match) → Part f g → P f → P g)
          → All P fs
          → All P (cut_all b fs))
cut_all-parts b [] k proper apart = (tt, tt, λ P down p. tt)
cut_all-parts b (f ∷ fs) k proper apart =
    let (parts, own) = cut-parts b f proper.0 k in
    let (free, others, keep) = cut_all-parts b fs k proper.1 apart.1 in
    (
      All-append (λ g. Apart g b) (cut b f) (cut_all b fs)
          (All-map (λ g. Part f g × Apart g b) (λ g. Apart g b) (cut b f) (λ g p. p.1) parts) free,
      AllApart-append (cut b f) (cut_all b fs) own others (
          All-map (λ g. Part f g × Apart g b) (λ g. All (Apart g) (cut_all b fs)) (cut b f)
            (λ g p.
              keep (Apart g) (λ f' g' q a. Apart-sym g' g (Part-Apart f' g' g q (Apart-sym g f' a)))
                (All-map (Apart f) (Apart g) fs (λ x a. Part-Apart f g x p.0 a) apart.0))
            parts),
      λ P down p.
          All-append P (cut b f) (cut_all b fs)
            (All-map (λ g. Part f g × Apart g b) P (cut b f) (λ g q. down f g q.0 p.0) parts)
            (keep P down p.1),
    )

-- The fragments that are left of those of a candidate are apart from all that were selected.
pub uncovered-parts :
    (n : ℕ) (fs sel : List Match)
    → Selected n fs
    → All (λ b. b.start < b.stop) sel
    → Selected n (uncovered fs sel)
      × ((P : Match → Type 0)
          → ((f g : Match) → Part f g → P f → P g)
          → All P fs
          → All P (uncovered fs sel))
      × All (λ b. All (λ g. Apart g b) (uncovered fs sel)) sel
uncovered-parts n fs [] s k = (s, λ P down p. p, tt)
uncovered-parts n fs (b ∷ sel) s k =
    let (free, apart, keep) =
      cut_all-parts b fs k.0 (All-map (Proper n) (λ f. f.start < f.stop) fs (λ f p. p.0) s.proper)
        s.apart in
    let (rest, further, against) =
      uncovered-parts n (cut_all b fs) sel
        (record {
          proper = keep (Proper n) (λ f g q p. (q.1, omega (arith, q, p))) s.proper;
          apart = apart;
        })
        k.1 in
    (
      rest,
      λ P down p. further P down (keep P down p),
      (further (λ g. Apart g b) (λ f g q a. Part-Apart f g b q a) free, against),
    )
