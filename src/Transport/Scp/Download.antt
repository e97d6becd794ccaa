-- ===== src/Transport/Scp/Download.antt =====
-- The whole of a download: it ends, and what it has brought is contained.
use mathlib.Core.Path.{subst}
use channel_term.Prelude.{
  ℕ, zero, suc, ◌<◌, ◌≡◌, refl, ap, ◌∙◌, arith, Bool, true, false, ◌&&◌, ◌||◌, not, Option, none,
  some, List, [], ◌∷◌, ◌==◌, if◌then◌else◌, length, Bytes, Bool-cases, Option-cases, inl, inr,
}
use channel_term.Debugger.Mi.Text.{is_nil}
use channel_term.Transport.Scp.Names.{valid_file_name}
use channel_term.Transport.Scp.Records.{
  scp_line, line_within, Header, Parsed, entry_of, invalid, numbers, parse_header, split_three,
  parse_mode, parse_size, is_timestamp, write_failed,
}
use channel_term.Transport.Scp.Receive.{
  Client, Transfer, Turn, goes, ends, fails, receive_entry, leave_dir, receive_record, receive_line,
  receive_next, round, continue, rounds, is_empty, begin, receive_scp,
}
use channel_term.Transport.Scp.Contained.{Contained, count_files, Sound-Contained, Entered}
use channel_term.Transport.Scp.Keeps.{SoundOf, Keeps, if-Keeps, acknowledge-Keeps, check_root-Keeps}

line_within-shorter :
    (room : ℕ) (s line r : Bytes) → line_within room s ≡ some (line, r) → length r < length s
unfolding line_within
line_within-shorter zero s line r h = absurd (ground arith)
line_within-shorter (suc room) [] line r h = absurd (ground arith)
line_within-shorter (suc room) (c ∷ cs) line r h = elim (Option-cases (line_within room cs)) [
  | inl e ↦ ground (arith, h, e)
  | inr ((l, t), e) ↦ ground (arith, h, e, line_within-shorter room cs l t e)
]

numbers-name :
    (is_dir recursive : Bool) (mode size : Option ℕ) (name : Bytes) (h : Header)
    → numbers is_dir recursive mode size name ≡ entry_of h
    → h.name ≡ name
numbers-name is_dir recursive none size name h e = absurd (ground arith)
numbers-name is_dir recursive (some mode) none name h e = absurd (ground arith)
numbers-name is_dir recursive (some mode) (some size) name h e = ground (arith, e)

parse_header-valid :
    (is_dir recursive : Bool) (line : Bytes) (h : Header)
    → parse_header is_dir recursive line ≡ entry_of h
    → valid_file_name h.name ≡ true
unfolding parse_header
parse_header-valid is_dir recursive line h e = elim (Option-cases (split_three line)) [
  | inl f ↦ absurd (ground (arith, e, f))
  | inr ((mode, (size, name)), f) ↦ elim (Bool-cases (length mode == 4 && valid_file_name name)) [
    | inr g ↦ absurd (ground (arith, e, f, g))
    | inl g ↦
        let same =
          numbers-name is_dir recursive (parse_mode mode) (parse_size size) name h
            (ground (arith, e, f, g)) in
        ap valid_file_name same ∙ ground (arith, g)
  ]
]

receive_entry-Keeps :
    (c : Client) (n : ℕ) (is_dir : Bool) (t : Transfer) (p : Parsed)
    → ((h : Header) → p ≡ entry_of h → valid_file_name h.name ≡ true)
    → SoundOf c t
    → length t.input < n
    → Keeps c n (receive_entry c is_dir t p)
receive_entry-Keeps c n is_dir t (invalid x) valid s short = Sound-Contained s
receive_entry-Keeps c n is_dir t (entry_of h) valid s short =
    check_root-Keeps c n is_dir h t t.stack refl (valid h refl) s short

leave_dir-Keeps :
    (c : Client) (n : ℕ) (line : Bytes) (t : Transfer) (stack : List Bytes)
    → t.stack ≡ stack
    → SoundOf c t
    → length t.input < n
    → Keeps c n (leave_dir c line t stack)
leave_dir-Keeps c n line t [] at s short = Sound-Contained s
leave_dir-Keeps c n line t (m ∷ outer) at s short =
    if-Keeps c n (is_nil line) _ _
      (λ _.
        acknowledge-Keeps c n (record t { stack = outer })
          (record {
            tree = s.tree;
            few = s.few;
            exact = s.exact;
            noted = s.noted;
            entered = (subst (λ ms. Entered ms t.received) at s.entered).1;
            rootless = λ e. absurd (ground (arith, (s.rootless e).1, at));
          })
          short)
      (λ _. Sound-Contained s)

receive_record-Keeps :
    (c : Client) (n : ℕ) (t : Transfer) (kind : ℕ) (line : Bytes)
    → SoundOf c t
    → length t.input < n
    → Keeps c n (receive_record c t kind line)
unfolding receive_record
receive_record-Keeps c n t kind line s short =
    if-Keeps c n (kind == 1 || kind == 2) _ _ (λ _. Sound-Contained s)
      (λ _.
        if-Keeps c n (kind == b'T') _ _
          (λ _.
            if-Keeps c n (is_timestamp line) _ _ (λ _. acknowledge-Keeps c n t s short)
              (λ _. Sound-Contained s))
          (λ _.
            if-Keeps c n (kind == b'E') _ _ (λ _. leave_dir-Keeps c n line t t.stack refl s short)
              (λ _.
                if-Keeps c n (not (kind == b'C' || kind == b'D')) _ _ (λ _. Sound-Contained s)
                  (λ _.
                    receive_entry-Keeps c n (kind == b'D') t _
                      (parse_header-valid (kind == b'D') c.recursive line) s short))))

is_empty-nil : (ns : List Bytes) → is_empty ns ≡ true → ns ≡ []
is_empty-nil [] h = refl
is_empty-nil (n ∷ ns) h = absurd (ground arith)

round-Keeps :
    (c : Client) (t : Transfer) (s : Bytes)
    → t.input ≡ s
    → SoundOf c t
    → Keeps c (length s) (receive_next c t s)
round-Keeps c t [] at sound =
    if-Keeps c 0 (t.root_seen && is_empty t.stack) _ _
      (λ over. (sound, ground (arith, over), is_empty-nil t.stack (ground (arith, over))))
      (λ _. Sound-Contained sound)
round-Keeps c t (kind ∷ s) at sound = given (scp_line s) (line_within-shorter 4096 s)
  where
    given :
        (o : Option (Bytes × Bytes))
        → ((line r : Bytes) → o ≡ some (line, r) → length r < length s)
        → Keeps c (suc (length s)) (receive_line c (record t { input = s }) kind o)
    given none shorter = Sound-Contained sound
    given (some (line, r)) shorter =
        receive_record-Keeps c (suc (length s)) (record t { input = r }) kind line sound
          (omega (arith, shorter line r refl))

-- What holds when a download is over.
abbrev pub Over : Client → Turn → Type 0
Over c (goes t) = ⊥
Over c (ends t) =
    Contained c.expected t.received t.files
    × (t.root_seen ≡ true)
    × (t.stack ≡ [])
    × (t.files ≡ count_files t.received)
Over c (fails t x) = Contained c.expected t.received t.files

rounds-Over :
    (c : Client) (f : ℕ) (t : Transfer)
    → SoundOf c t
    → length t.input < f
    → (r : Turn) × (rounds c f t ≡ some r) × Over c r
unfolding rounds
rounds-Over c zero t sound h = absurd (omega arith)
rounds-Over c (suc f) t sound h =
    given (round c t) (round-Keeps c t t.input refl sound)
      (λ t' sound' shorter. rounds-Over c f t' sound' (omega (arith, shorter)))
  where
    given :
        (u : Turn)
        → Keeps c (length t.input) u
        → ((t' : Transfer)
            → SoundOf c t'
            → length t'.input < length t.input
            → (r : Turn) × (rounds c f t' ≡ some r) × Over c r)
        → (r : Turn) × (continue (rounds c f) u ≡ some r) × Over c r
    given (goes t') (sound', shorter) rest = rest t' sound' shorter
    given (ends t') (sound', root, left) rest =
        (ends t', refl, (Sound-Contained sound', root, left, sound'.exact))
    given (fails t' x) k rest = (fails t' x, refl, k)

begin-Sound : (c : Client) (input : Bytes) → SoundOf c (begin input)
begin-Sound c input = record {
  tree = tt;
  few = omega arith;
  exact = refl;
  noted = refl;
  entered = tt;
  rootless = λ e. (refl, refl);
}

-- A download ends, whatever the peer sends and whatever the client's own calls return. At its end,
-- also at an error, the entries that were delivered are one tree below the name that was asked for:
-- the first is that name, each later one is a directory that was delivered before, a slash and a name
-- that is not empty, neither `.` nor `..`, and has no slash, no backslash and no NUL; no two have one path, and they are at most 100000. No more files are counted than were delivered; and
-- when it succeeds, the root has come, every directory has been left, and the count is that of the
-- files.
pub receive_scp-Over :
    (c : Client) (input : Bytes) → (r : Turn) × (receive_scp c input ≡ some r) × Over c r
unfolding receive_scp
receive_scp-Over c input = given (c.writes 0)
  where
    first : Transfer
    first = record (begin input) { written = 1 }

    given :
        (b : Bool)
        → (r : Turn) × (continue
              (rounds c (suc (length input)))
              (if b then goes first else fails first write_failed)
            ≡ some r)
          × Over c r
    given true = rounds-Over c (suc (length input)) first (begin-Sound c input) (omega arith)
    given false = (fails first write_failed, refl, Sound-Contained (begin-Sound c input))
