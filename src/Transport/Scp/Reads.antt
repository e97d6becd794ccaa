-- ===== src/Transport/Scp/Reads.antt =====
-- One round of `receiveSCP` on a record that `UploadSCP` has written.
use channel_term.Prelude.{
  ℕ, suc, ◌^◌, ◌<◌, ◌≡◌, refl, ap, ◌∙◌, arith, Bool, true, false, ◌&&◌, ◌||◌, not, some, List, [],
  ◌∷◌, ◌++◌, ◌==◌, if◌then◌else◌, length, Bytes,
}
use channel_term.Transport.Scp.Names.{has_byte, are_allowed, valid_file_name}
use channel_term.Transport.Scp.Records.{
  Header, entry_of, parse_header, header_of, numbers, invalid, bad_entry, bad_numbers, split_three,
  parse_mode, parse_size,
}
use channel_term.Transport.Scp.Receive.{
  Entry, Client, Transfer, check_root, receive_entry, receive_record, receive_line, round,
}
use channel_term.Transport.Scp.Contained.{paths}
use channel_term.Transport.Scp.Upload.{octal, decimal, header_text}
use channel_term.Transport.Scp.Digits.{
  has_byte-append, decimal-plain, parse_size-decimal, parse_mode-octal, cut_space-append,
  line_within-append,
}

-- A client whose calls succeed, and which reads each payload to its end.
pub record Willing (c : Client) : Type 0 where
  pub writes : (n : ℕ) → c.writes n ≡ true
  pub receives : (n : ℕ) (e : Entry) (p : Bytes) → c.receive n e p ≡ some e.size
  pub verifies : (n : ℕ) (e : Entry) → c.verify n e ≡ true

-- The state between two records.
abbrev pub between : Bytes → List Bytes → List Entry → Bool → ℕ → ℕ → Transfer
between input stack es root_seen written files = record {
  input = input;
  stack = stack;
  seen = paths es;
  root_seen = root_seen;
  written = written;
  received = es;
  files = files;
}

abbrev pub header : ℕ → ℕ → Bytes → Header
header mode size name = record { mode = mode; size = size; name = name }

-- What a record can be read back from: it fits the reader's buffer, and its numbers their types.
abbrev pub Readable : ℕ → ℕ → Bytes → Type 0
Readable mode size name =
    (mode < 512)
    × (size < 2 ^ 63)
    × (valid_file_name name ≡ true)
    × (length (header_text mode size name) < 4096)

allowed-newline : (s : Bytes) → are_allowed s ≡ true → has_byte s 10 ≡ false
unfolding are_allowed
allowed-newline [] h = refl
allowed-newline (c ∷ s) h = ground (arith, h, allowed-newline s)

valid-newline : (name : Bytes) → valid_file_name name ≡ true → has_byte name 10 ≡ false
unfolding valid_file_name
valid-newline name h = allowed-newline name (ground (arith, h))

split_three-header :
    (mode size : ℕ) (name : Bytes)
    → split_three (header_text mode size name) ≡ some (octal mode, (decimal size, name))
unfolding split_three
split_three-header mode size name = ground (
  arith,
  cut_space-append (octal mode) (decimal size ++ b' ' ∷ name) (ground arith),
  cut_space-append (decimal size) name (decimal-plain (suc size) size b' ' refl),
)

header-newline :
    (mode size : ℕ) (name : Bytes)
    → mode < 512
    → valid_file_name name ≡ true
    → has_byte (header_text mode size name) 10 ≡ false
header-newline mode size name small valid = ground (
  arith,
  has_byte-append (decimal size) (b' ' ∷ name) 10,
  decimal-plain (suc size) size 10 refl,
  valid-newline name valid,
)

header-parsed :
    (is_dir recursive : Bool) (mode size : ℕ) (name : Bytes)
    → Readable mode size name
    → (is_dir && (not (size == 0) || not recursive)) ≡ false
    → parse_header is_dir recursive (header_text mode size name) ≡ entry_of (header mode size name)
unfolding parse_header
header-parsed is_dir recursive mode size name r d =
    ap (header_of is_dir recursive) (split_three-header mode size name)
    ∙ ap
        (λ b.
          if b
          then numbers is_dir recursive (parse_mode (octal mode)) (parse_size (decimal size)) name
          else invalid bad_entry)
        r.2
    ∙ ap (λ o. numbers is_dir recursive o (parse_size (decimal size)) name)
        (parse_mode-octal mode r.0)
    ∙ ap (λ o. numbers is_dir recursive (some mode) o name) (parse_size-decimal size r.1)
    ∙ ap (λ b. if b then invalid bad_numbers else entry_of (header mode size name)) d

abbrev pub kind_of : Bool → ℕ
kind_of true = b'D'
kind_of false = b'C'

record_entry :
    (c : Client) (is_dir : Bool) (t : Transfer) (line : Bytes)
    → receive_record c t (kind_of is_dir) line
      ≡ receive_entry c is_dir t (parse_header is_dir c.recursive line)
unfolding receive_record
record_entry c true t line = refl
record_entry c false t line = refl

-- A record leads to the check of its place.
pub record_read :
    (c : Client) (is_dir : Bool) (mode size : ℕ) (name rest : Bytes) (ns : List Bytes)
    (es : List Entry) (root_seen : Bool) (w k : ℕ)
    → Readable mode size name
    → (is_dir && (not (size == 0) || not c.recursive)) ≡ false
    → round c
        (between (kind_of is_dir ∷ (header_text mode size name ++ 10 ∷ rest)) ns es root_seen w k)
      ≡ check_root c is_dir (header mode size name) (between rest ns es root_seen w k) ns
record_read c is_dir mode size name rest ns es root_seen w k r d =
    ap (receive_line c (between _ ns es root_seen w k) (kind_of is_dir)) (
      line_within-append 4096 (header_text mode size name) rest
        (header-newline mode size name r.0 r.2) r.3)
    ∙ record_entry c is_dir (between rest ns es root_seen w k) (header_text mode size name)
    ∙ ap (receive_entry c is_dir (between rest ns es root_seen w k))
        (header-parsed is_dir c.recursive mode size name r d)
