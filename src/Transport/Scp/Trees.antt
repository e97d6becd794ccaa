-- ===== src/Transport/Scp/Trees.antt =====
-- A tree as the receiver sees it: its entries, the limits of `receiveSCP`, and rounds of its loop.
use channel_term.Prelude.{
  ℕ, zero, suc, ◌%◌, ◌^◌, ◌≤◌, ◌<◌, ◌≡◌, refl, sym, ap, ◌∙◌, arith, true, false, some, List, [],
  ◌∷◌, length, Bytes,
}
use channel_term.Transport.Scp.Names.{is_one_of}
use channel_term.Transport.Scp.Receive.{
  Entry, Client, Transfer, Turn, goes, ends, path_of, round, continue, rounds,
}
use channel_term.Transport.Scp.Contained.{paths}
use channel_term.Transport.Scp.Upload.{
  Node, Nodes, file, dir, special, link, unreadable, nil, cons, header_text,
}
use channel_term.Transport.Scp.Admits.{Free}

-- The entries of a tree below the directories `ns`, in front of those that came before; the last one
-- comes first.
unfoldable mutual
  pub entries : List Bytes → Node → List Entry → List Entry
  entries ns (file permissions name size content) es =
      record {
        path = path_of (name ∷ ns);
        size = size;
        permissions = permissions % 512;
        is_dir = false;
      }
      ∷ es
  entries ns (dir permissions name children) es = entries_all (name ∷ ns) children (
      record {
        path = path_of (name ∷ ns);
        size = 0;
        permissions = permissions % 512;
        is_dir = true;
      }
      ∷ es)
  entries ns (special name) es = es
  entries ns (link name) es = es
  entries ns (unreadable name) es = es

  pub entries_all : List Bytes → Nodes → List Entry → List Entry
  entries_all ns nil es = es
  entries_all ns (cons node nodes) es = entries_all ns nodes (entries ns node es)

-- A tree within what the receiver can take: below so many directories, at most 127 deep, sizes that
-- are `int64`s, and records that fit the reader's buffer.
unfoldable mutual
  pub Portable : ℕ → Node → Type 0
  Portable depth (file permissions name size content) =
      (depth < 128) × (size < 2 ^ 63) × (length (header_text (permissions % 512) size name) < 4096)
  Portable depth (dir permissions name children) =
      (depth < 128)
      × (length (header_text (permissions % 512) 0 name) < 4096)
      × AllPortable (suc depth) children
  Portable depth (special name) = Unit
  Portable depth (link name) = Unit
  Portable depth (unreadable name) = Unit

  pub AllPortable : ℕ → Nodes → Type 0
  AllPortable depth nil = Unit
  AllPortable depth (cons node nodes) = Portable depth node × AllPortable depth nodes

-- No two entries have one path.
abbrev pub Distinct : List Entry → Type 0
Distinct [] = Unit
Distinct (e ∷ es) = (is_one_of (paths es) e.path ≡ false) × Distinct es

-- As many entries as the receiver takes, with a path of their own each.
abbrev pub Room : List Entry → Type 0
Room es = Distinct es × (length es ≤ 100000)

mutual
  unfolding entries

  entries-Room :
      (ns : List Bytes) (node : Node) (es : List Entry) → Room (entries ns node es) → Room es
  entries-Room ns (file permissions name size content) es r = (r.0.1, omega arith)
  entries-Room ns (dir permissions name children) es r =
      let r' = entries_all-Room (name ∷ ns) children _ r in (r'.0.1, omega (arith, r'.1))
  entries-Room ns (special name) es r = r
  entries-Room ns (link name) es r = r
  entries-Room ns (unreadable name) es r = r

  pub entries_all-Room :
      (ns : List Bytes) (nodes : Nodes) (es : List Entry) → Room (entries_all ns nodes es) → Room es
  entries_all-Room ns nil es r = r
  entries_all-Room ns (cons node nodes) es r =
      entries-Room ns node es (entries_all-Room ns nodes (entries ns node es) r)

length-paths : (es : List Entry) → length (paths es) ≡ length es
length-paths [] = refl
length-paths (e ∷ es) = ap suc (length-paths es)

pub Room-Free :
    (ns : List Bytes) (es : List Entry) (e : Entry) → length ns < 128 → Room (e ∷ es) → Free ns es e
Room-Free ns es e deep r = (r.0.0, omega (arith, length-paths es), deep)

-- The rounds of the loop from one state to another.
pub data Goes (c : Client) : Transfer → Transfer → Type 0 where
  here : {t : Transfer} → Goes c t t
  next : {t u v : Transfer} → round c t ≡ goes u → Goes c u v → Goes c t v

pub Goes-trans : {c : Client} {t u v : Transfer} → Goes c t u → Goes c u v → Goes c t v
Goes-trans here h = h
Goes-trans (next r g) h = next r (Goes-trans g h)

-- If the loop returns, it returns what it does from a later state.
pub Goes-ends :
    {c : Client} {t u : Transfer} (f : ℕ) {v : Transfer} {r : Turn}
    → Goes c t u
    → round c u ≡ ends v
    → rounds c f t ≡ some r
    → r ≡ ends v
unfolding rounds
Goes-ends zero g e h = absurd (ground (arith, h))
Goes-ends {c} (suc f) here e h = ground (arith, h, e, ap (continue (rounds c f)) e)
Goes-ends {c} (suc f) (next r g) e h = Goes-ends f g e (sym (ap (continue (rounds c f)) r) ∙ h)
