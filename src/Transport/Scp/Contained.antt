-- ===== src/Transport/Scp/Contained.antt =====
-- What a download can bring, whatever the peer sends: one tree under the name that was asked for, of
-- plain names, without two entries of one path.
use channel_term.Prelude.{
  ℕ, suc, ◌≤◌, ◌<◌, ◌≡◌, refl, sym, ap, ◌∙◌, arith, Bool, true, false, ◌&&◌, ◌||◌, List, [], ◌∷◌,
  ◌++◌, if◌then◌else◌, length, Bytes, same_bytes, ◌⊎◌,
}
use channel_term.Transport.Scp.Names.{is_one_of}
use channel_term.Transport.Scp.Plain.{IsPlain}
use channel_term.Transport.Scp.Receive.{Entry, path_of, max_entries}

abbrev pub paths : List Entry → List Bytes
paths [] = []
paths (e ∷ es) = e.path ∷ paths es

-- Whether a directory with a path is among the entries.
abbrev pub has_dir : List Entry → Bytes → Bool
has_dir [] p = false
has_dir (e ∷ es) p = (e.is_dir && same_bytes e.path p) || has_dir es p

abbrev pub count_files : List Entry → ℕ
count_files [] = 0
count_files (e ∷ es) = if e.is_dir then count_files es else suc (count_files es)

-- Where an entry stands: it is the root, or it has a plain name in a directory that came before.
abbrev pub Placed : Bytes → Entry → List Entry → Type 0
Placed root e es =
    ((e.path ≡ root) × (es ≡ []))
    ⊎ ((parent : Bytes) × (name : Bytes) × (e.path ≡ parent ++ b'/' ∷ name)
        × IsPlain name
        × (has_dir es parent ≡ true))

-- The entries, the last one first, are one tree without duplicates.
abbrev pub Tree : Bytes → List Entry → Type 0
Tree root [] = Unit
Tree root (e ∷ es) = (is_one_of (paths es) e.path ≡ false) × Placed root e es × Tree root es

-- What holds of the entries at any time, with the count of files.
pub record Contained (root : Bytes) (received : List Entry) (files : ℕ) : Type 0 where
  pub tree : Tree root received
  pub few : length received ≤ 100000
  pub counted : files ≤ count_files received

-- The directories on the stack have come.
abbrev pub Entered : List Bytes → List Entry → Type 0
Entered [] es = Unit
Entered (n ∷ ns) es = (has_dir es (path_of (n ∷ ns)) ≡ true) × Entered ns es

-- The invariant between two records.
pub record Sound (root : Bytes) (stack seen : List Bytes) (root_seen : Bool) (received : List Entry)
    (files : ℕ) : Type 0 where
  pub tree : Tree root received
  pub few : length received ≤ 100000
  pub exact : files ≡ count_files received
  pub noted : seen ≡ paths received
  pub entered : Entered stack received
  pub rootless : root_seen ≡ false → (received ≡ []) × (stack ≡ [])

pub Sound-Contained :
    {root : Bytes} {stack seen : List Bytes} {root_seen : Bool} {received : List Entry} {files : ℕ}
    → Sound root stack seen root_seen received files
    → Contained root received files
Sound-Contained s = record { tree = s.tree; few = s.few; counted = omega (arith, s.exact) }

Entered-cons : (ns : List Bytes) (e : Entry) (es : List Entry) → Entered ns es → Entered ns (e ∷ es)
Entered-cons [] e es h = tt
Entered-cons (n ∷ ns) e es h = (ground (arith, h.0), Entered-cons ns e es h.1)

length-paths : (es : List Entry) → length (paths es) ≡ length es
length-paths [] = refl
length-paths (e ∷ es) = ap suc (length-paths es)

-- One more entry that has its place, and a path that was not seen.
pub Placed-Sound :
    {root : Bytes} {stack seen : List Bytes} {root_seen : Bool} {received : List Entry} {files : ℕ}
    (e : Entry)
    → Placed root e received
    → is_one_of seen e.path ≡ false
    → length seen < max_entries
    → root_seen ≡ true
    → Sound root stack seen root_seen received files
    → Sound root stack
        (e.path ∷ seen)
        root_seen
        (e ∷ received)
        (if e.is_dir then files else suc files)
Placed-Sound {received = received} e placed unseen room rooted s = record {
  tree = (ap (λ ps. is_one_of ps e.path) (sym s.noted) ∙ unseen, placed, s.tree);
  few = omega (arith, ap length s.noted, length-paths received);
  exact = ground (arith, s.exact);
  noted = ap (◌∷◌ e.path) s.noted;
  entered = Entered-cons _ e received s.entered;
  rootless = λ h. absurd (ground (arith, rooted, h));
}
