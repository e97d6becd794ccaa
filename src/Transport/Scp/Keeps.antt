-- ===== src/Transport/Scp/Keeps.antt =====
-- Each part of a round of `receiveSCP` keeps the invariant, and a round that goes on has read a byte.
use mathlib.Core.Path.{subst⁻¹}
use channel_term.Prelude.{
  ℕ, suc, ◌≤◌, ◌<◌, ◌≡◌, refl, sym, ap, ◌∙◌, arith, Bool, true, false, ◌&&◌, ◌||◌, not, Option,
  none, some, List, [], ◌∷◌, ◌==◌, leb, if◌then◌else◌, length, length-drop, drop, take, Bytes,
  same_bytes, same_bytes_iff, Bool-cases, Option-cases, inl, inr,
}
use channel_term.Transport.Scp.Names.{valid_file_name, is_one_of}
use channel_term.Transport.Scp.Plain.{valid_file_name-IsPlain}
use channel_term.Transport.Scp.Records.{scp_line, Acked, acked, refused, scp_ack, Header}
use channel_term.Transport.Scp.Receive.{
  Entry, Client, Transfer, Turn, goes, ends, fails, path_of, then_ok, acknowledge, finish_file,
  take_payload, deliver, receive_file, enter_dir, receive_dir, entry_at, admit, check_root,
  max_entries, max_depth,
}
use channel_term.Transport.Scp.Contained.{
  Placed, Contained, Sound, Sound-Contained, Placed-Sound, Entered, has_dir,
}

abbrev pub SoundOf : Client → Transfer → Type 0
SoundOf c t = Sound c.expected t.stack t.seen t.root_seen t.received t.files

abbrev pub ContainedOf : Client → Transfer → Type 0
ContainedOf c t = Contained c.expected t.received t.files

-- What a turn is to keep: `n` is a bound of what is left to read.
abbrev pub Keeps : Client → ℕ → Turn → Type 0
Keeps c n (goes t) = SoundOf c t × (length t.input < n)
Keeps c n (ends t) = SoundOf c t × (t.root_seen ≡ true) × (t.stack ≡ [])
Keeps c n (fails t x) = ContainedOf c t

pub if-Keeps :
    (c : Client) (n : ℕ) (b : Bool) (x y : Turn)
    → (b ≡ true → Keeps c n x)
    → (b ≡ false → Keeps c n y)
    → Keeps c n (if b then x else y)
if-Keeps c n true x y f g = f refl
if-Keeps c n false x y f g = g refl

pub acknowledge-Keeps :
    (c : Client) (n : ℕ) (t : Transfer)
    → SoundOf c t
    → length t.input < n
    → Keeps c n (acknowledge c t)
acknowledge-Keeps c n t s h =
    if-Keeps c n (c.writes t.written) _ _ (λ _. (s, h)) (λ _. Sound-Contained s)

-- A file that has been delivered: the count is one more when it is over.
abbrev Delivered : Client → Transfer → Type 0
Delivered c t = Sound c.expected t.stack t.seen t.root_seen t.received (suc t.files)

Delivered-Contained : (c : Client) (t : Transfer) → Delivered c t → ContainedOf c t
Delivered-Contained c t s = record { tree = s.tree; few = s.few; counted = omega (arith, s.exact) }

finish_file-Keeps :
    (c : Client) (n : ℕ) (e : Entry) (t : Transfer) (r : Acked)
    → Delivered c t
    → ((s : Bytes) → r ≡ acked s → length s < n)
    → Keeps c n (finish_file c e t r)
finish_file-Keeps c n e t (refused x) s h = Delivered-Contained c t s
finish_file-Keeps c n e t (acked rest) s h =
    if-Keeps c n (c.writes t.written) _ _
      (λ _.
        if-Keeps c n (c.verify t.files e) _ _ (λ _. (s, h rest refl))
          (λ _. Delivered-Contained c t s))
      (λ _. Delivered-Contained c t s)

scp_ack-shorter : (s r : Bytes) → scp_ack s ≡ acked r → length r < length s
unfolding scp_ack
scp_ack-shorter [] r h = absurd (ground arith)
scp_ack-shorter (status ∷ s) r h = elim (Option-cases (scp_line s)) [
  | inl e ↦ ground (arith, e, h)
  | inr ((message, rest), e) ↦ ground (arith, e, h)
]

take_payload-Keeps :
    (c : Client) (n : ℕ) (e : Entry) (t : Transfer) (o : Option ℕ)
    → Delivered c t
    → length t.input ≤ n
    → Keeps c n (take_payload c e t o)
take_payload-Keeps c n e t none s h = Delivered-Contained c t s
take_payload-Keeps c n e t (some k) s h =
    if-Keeps c n (k == e.size && leb e.size (length t.input)) _ _
      (λ _.
        finish_file-Keeps c n e (record t { input = drop e.size t.input }) _ s
          (λ (r : Bytes) (acks : scp_ack (drop e.size t.input) ≡ acked r).
            omega
              (arith, scp_ack-shorter (drop e.size t.input) r acks, length-drop e.size t.input)))
      (λ _. Delivered-Contained c t s)

enter_dir-Keeps :
    (c : Client) (n : ℕ) (name : Bytes) (t : Transfer) (o : Option ℕ)
    → SoundOf c t
    → t.root_seen ≡ true
    → has_dir t.received (path_of (name ∷ t.stack)) ≡ true
    → length t.input < n
    → Keeps c n (enter_dir c name t o)
enter_dir-Keeps c n name t none s root here h = Sound-Contained s
enter_dir-Keeps c n name t (some _) s root here h =
    acknowledge-Keeps c n (record t { stack = name ∷ t.stack })
      (record {
        tree = s.tree;
        few = s.few;
        exact = s.exact;
        noted = s.noted;
        entered = (here, s.entered);
        rootless = λ e. absurd (ground arith);
      })
      h

-- An entry that has its place and was not seen.
admitted-Keeps :
    (c : Client) (n : ℕ) (is_dir : Bool) (h : Header) (t : Transfer)
    → SoundOf c t
    → t.root_seen ≡ true
    → Placed c.expected (entry_at is_dir h t) t.received
    → is_one_of t.seen (entry_at is_dir h t).path ≡ false
    → length t.seen < max_entries
    → length t.input < n
    → let e = entry_at is_dir h t in
      Keeps c n (
        if is_dir
        then receive_dir c h.name e (record t { seen = e.path ∷ t.seen })
        else then_ok c (record t { seen = e.path ∷ t.seen }) (receive_file c e))
admitted-Keeps c n true h t s root placed unseen room short =
    let e = entry_at true h t in
    enter_dir-Keeps c n h.name (deliver (record t { seen = e.path ∷ t.seen }) e)
      (c.receive (length t.received) e []) (Placed-Sound e placed unseen room root s) root
      (ground (arith, same_bytes_iff e.path e.path)) short
admitted-Keeps c n false h t s root placed unseen room short =
    let e = entry_at false h t in
    if-Keeps c n (c.writes t.written) _ _
      (λ _.
        take_payload-Keeps c n e
          (record t { seen = e.path ∷ t.seen; written = suc t.written; received = e ∷ t.received })
          (c.receive (length t.received) e (take e.size t.input))
          (Placed-Sound e placed unseen room root s) (omega arith))
      (λ _. Sound-Contained s)

admit-Keeps :
    (c : Client) (n : ℕ) (is_dir : Bool) (h : Header) (t : Transfer)
    → SoundOf c t
    → t.root_seen ≡ true
    → Placed c.expected (entry_at is_dir h t) t.received
    → length t.input < n
    → Keeps c n (admit c is_dir h t)
admit-Keeps c n is_dir h t s root placed short =
    if-Keeps c n
      (is_one_of t.seen (entry_at is_dir h t).path
        || leb max_entries (length t.seen)
        || leb max_depth (length t.stack))
      _ _ (λ _. Sound-Contained s)
      (λ free. admitted-Keeps c n is_dir h t s root placed (unseen free) (room free) short)
  where
    unseen :
        (is_one_of t.seen (entry_at is_dir h t).path
            || leb max_entries (length t.seen)
            || leb max_depth (length t.stack))
          ≡ false
        → is_one_of t.seen (entry_at is_dir h t).path ≡ false
    unseen free = ground (arith, free)

    room :
        (is_one_of t.seen (entry_at is_dir h t).path
            || leb max_entries (length t.seen)
            || leb max_depth (length t.stack))
          ≡ false
        → length t.seen < max_entries
    room free = ground (arith, free)

-- A valid name is the root that was asked for, or stands in the innermost directory.
pub check_root-Keeps :
    (c : Client) (n : ℕ) (is_dir : Bool) (h : Header) (t : Transfer) (stack : List Bytes)
    → t.stack ≡ stack
    → valid_file_name h.name ≡ true
    → SoundOf c t
    → length t.input < n
    → Keeps c n (check_root c is_dir h t stack)
unfolding path_of
check_root-Keeps c n is_dir h t [] at valid s short =
    if-Keeps c n (t.root_seen || not (same_bytes h.name c.expected)) _ _ (λ _. Sound-Contained s)
      (λ rooted.
        admit-Keeps c n is_dir h (record t { root_seen = true })
          (record {
            tree = s.tree;
            few = s.few;
            exact = s.exact;
            noted = s.noted;
            entered = s.entered;
            rootless = λ e. absurd (ground arith);
          })
          refl
          (inl (
            ap (λ ns. path_of (h.name ∷ ns)) at
                ∙ ground (arith, rooted, same_bytes_iff h.name c.expected),
            (s.rootless (ground (arith, rooted))).0,
          ))
          short)
check_root-Keeps c n is_dir h t (m ∷ ns) at valid s short =
    admit-Keeps c n is_dir h t s root
      (inr (
        path_of (m ∷ ns),
        h.name,
        ap (λ ms. path_of (h.name ∷ ms)) at,
        valid_file_name-IsPlain h.name valid,
        (subst⁻¹ (λ ms. Entered ms t.received) (sym at) s.entered).0,
      ))
      short
  where
    root : t.root_seen ≡ true
    root = elim (Bool-cases t.root_seen) [
      | inl e ↦ e
      | inr e ↦ absurd (ground (arith, (s.rootless e).1, at))
    ]
