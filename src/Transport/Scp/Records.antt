-- ===== src/Transport/Scp/Records.antt =====
-- internal/transport/ssh/scp.go: the control records of the protocol. What the peer sends is the list
-- of its bytes, after which its stream ends.
use channel_term.Prelude.{
  ℕ, zero, suc, ◌+◌, ◌-◌, ◌*◌, ◌^◌, Bool, true, false, ◌&&◌, ◌||◌, not, Option, none, some, List,
  [], ◌∷◌, ◌==◌, ltb, leb, if◌then◌else◌, length, Bytes, ℤ, pos, negsuc,
}
use channel_term.Debugger.Mi.Text.{is_digit, is_octal, space_width}
use channel_term.Transport.Scp.Names.{valid_file_name}

pub data ScpError : Type 0 where
  cut_short write_failed bad_timestamp unmatched_end unexpected_record bad_entry bad_numbers :
      ScpError
  bad_root over_limit receive_failed short_payload verify_failed : ScpError
  too_deep unsafe_name not_regular not_recursive payload_failed bad_path : ScpError
  bad_ack : ℕ → ScpError
  remote_error : Bytes → ScpError

-- `ReadSlice` to the newline, through a buffer with room for so many bytes.
unfoldable pub line_within : ℕ → Bytes → Option (Bytes × Bytes)
line_within zero s = none
line_within (suc room) [] = none
line_within (suc room) (c ∷ cs) =
    let rest = line_within room cs in
    if c == 10
    then some ([], cs)
    else elim rest [ none ↦ none | some (line, s) ↦ some (c ∷ line, s) ]

-- The size of the reader's buffer.
abbrev pub buffer_size : ℕ
buffer_size = 4096

-- `scpLine`
abbrev pub scp_line : Bytes → Option (Bytes × Bytes)
scp_line s = line_within buffer_size s

pub data Acked : Type 0 where
  acked : Bytes → Acked
  refused : ScpError → Acked

-- `scpAck`
unfoldable pub scp_ack : Bytes → Acked
scp_ack [] = refused cut_short
scp_ack (status ∷ s) =
    if status == 0
    then acked s
    else (if not (status == 1 || status == 2) then refused (bad_ack status) else elim (scp_line s) [
      | none ↦ refused cut_short
      | some (message, _) ↦ refused (remote_error message)
    ])

-- The value of digits in a base, after the value `n` of those before; `is_in` tells the digits.
unfoldable pub digits_value : ℕ → (ℕ → Bool) → ℕ → Bytes → Option ℕ
digits_value base is_in n [] = some n
digits_value base is_in n (c ∷ cs) =
    let rest = digits_value base is_in (n * base + (c - b'0')) cs in if is_in c then rest else none

-- `strconv.ParseUint(s, 8, 12)`
abbrev pub parse_mode : Bytes → Option ℕ
parse_mode [] = none
parse_mode (c ∷ cs) = elim (digits_value 8 is_octal 0 (c ∷ cs)) [
  | none ↦ none
  | some n ↦ if ltb n (2 ^ 12) then some n else none
]

abbrev pub negate : ℕ → ℤ
negate zero = pos 0
negate (suc n) = negsuc n

-- The decimal digits after the sign.
abbrev pub magnitude : Bytes → Option ℕ
magnitude [] = none
magnitude (c ∷ cs) = digits_value 10 is_digit 0 (c ∷ cs)

abbrev pub positive_int : Bytes → Option ℤ
positive_int s = elim (magnitude s) [
  | none ↦ none
  | some n ↦ if ltb n (2 ^ 63) then some (pos n) else none
]

abbrev pub negative_int : Bytes → Option ℤ
negative_int s = elim (magnitude s) [
  | none ↦ none
  | some n ↦ if leb n (2 ^ 63) then some (negate n) else none
]

-- `strconv.ParseInt(s, 10, 64)`
unfoldable pub parse_int : Bytes → Option ℤ
parse_int [] = none
parse_int (c ∷ cs) =
    if c == b'+'
    then positive_int cs
    else (if c == b'-' then negative_int cs else positive_int (c ∷ cs))

abbrev pub sized : Option ℤ → Option ℕ
sized none = none
sized (some (pos n)) = some n
sized (some (negsuc _)) = none

-- A number that is at least 0, and no error.
abbrev pub parse_size : Bytes → Option ℕ
parse_size s = sized (parse_int s)

abbrev with_field : Bytes → List Bytes → List Bytes
with_field [] fs = fs
with_field (c ∷ cs) fs = (c ∷ cs) ∷ fs

-- The field that a text begins with, and those after it, from a byte on that may be inside of a white
-- space with so many bytes left.
unfoldable pub split_fields : ℕ → Bytes → Bytes × List Bytes
split_fields skips [] = ([], [])
split_fields (suc skips) (c ∷ cs) = let (f, fs) = split_fields skips cs in ([], with_field f fs)
split_fields zero (c ∷ cs) =
    let width = space_width (c ∷ cs) in
    let (f, fs) = split_fields (width - 1) cs in
    if width == 0 then (c ∷ f, fs) else ([], with_field f fs)

-- `strings.Fields`
abbrev pub fields : Bytes → List Bytes
fields s = let (f, fs) = split_fields 0 s in with_field f fs

abbrev pub are_sizes : List Bytes → Bool
are_sizes [] = true
are_sizes (f ∷ fs) = elim (parse_size f) [ none ↦ false | some _ ↦ are_sizes fs ]

-- The check of a `T` record.
abbrev pub is_timestamp : Bytes → Bool
is_timestamp line = length (fields line) == 4 && are_sizes (fields line)

-- The text before the first space, and the text after it.
unfoldable pub cut_space : Bytes → Option (Bytes × Bytes)
cut_space [] = none
cut_space (c ∷ cs) =
    let rest = cut_space cs in
    if c == b' '
    then some ([], cs)
    else elim rest [ none ↦ none | some (word, s) ↦ some (c ∷ word, s) ]

-- `strings.SplitN(line, " ", 3)`, where it has three parts.
unfoldable pub split_three : Bytes → Option (Bytes × (Bytes × Bytes))
split_three line = elim (cut_space line) [
  | none ↦ none
  | some (a, s) ↦ elim (cut_space s) [ none ↦ none | some (b, c) ↦ some (a, (b, c)) ]
]

-- What a `C` or a `D` record says.
pub record Header : Type 0 where
  pub mode : ℕ
  pub size : ℕ
  pub name : Bytes

pub data Parsed : Type 0 where
  entry_of : Header → Parsed
  invalid : ScpError → Parsed

-- The numbers of a record, with the rule for directories.
abbrev pub numbers : Bool → Bool → Option ℕ → Option ℕ → Bytes → Parsed
numbers is_dir recursive none size name = invalid bad_numbers
numbers is_dir recursive (some mode) none name = invalid bad_numbers
numbers is_dir recursive (some mode) (some size) name =
    if is_dir && (not (size == 0) || not recursive)
    then invalid bad_numbers
    else entry_of (record { mode = mode; size = size; name = name })

abbrev pub header_of : Bool → Bool → Option (Bytes × (Bytes × Bytes)) → Parsed
header_of is_dir recursive none = invalid bad_entry
header_of is_dir recursive (some (mode, (size, name))) =
    if length mode == 4 && valid_file_name name
    then numbers is_dir recursive (parse_mode mode) (parse_size size) name
    else invalid bad_entry

unfoldable pub parse_header : Bool → Bool → Bytes → Parsed
parse_header is_dir recursive line = header_of is_dir recursive (split_three line)
