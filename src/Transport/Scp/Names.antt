-- ===== src/Transport/Scp/Names.antt =====
-- internal/transport/ssh/scp.go: `ValidFileName`, on the bytes of a name. `strings.ToUpper` is
-- modelled for the letters of ASCII and for the dotless i, the one other character that the words
-- it is compared with can see.
use channel_term.Prelude.{
  ℕ, ◌-◌, Bool, true, false, ◌&&◌, ◌||◌, not, none, some, List, [], ◌∷◌, ◌==◌, ltb, leb,
  if◌then◌else◌, Bytes, same_bytes, strip_prefix,
}
use channel_term.Debugger.Mi.Text.{byte_or, is_nil, is_digit}

abbrev pub has_byte : Bytes → ℕ → Bool
has_byte [] x = false
has_byte (c ∷ cs) x = c == x || has_byte cs x

-- The set that `strings.ContainsAny` looks for.
abbrev pub forbidden : Bytes
forbidden = b'/' ∷ b'\\' ∷ b':' ∷ b'<' ∷ b'>' ∷ b'"' ∷ b'|' ∷ b'?' ∷ b'*' ∷ 0 ∷ 13 ∷ 10 ∷ []

-- Whether each byte is allowed: those of `forbidden` and the control characters are not.
unfoldable pub are_allowed : Bytes → Bool
are_allowed [] = true
are_allowed (c ∷ cs) = not (has_byte forbidden c) && not (ltb c 32 || c == 127) && are_allowed cs

-- `strings.TrimRight` of spaces and dots.
unfoldable pub trim_right : Bytes → Bytes
trim_right [] = []
trim_right (c ∷ cs) =
    let rest = trim_right cs in if is_nil rest && (c == b' ' || c == b'.') then [] else c ∷ rest

-- `strings.SplitN(name, ".", 2)[0]`
unfoldable pub before_dot : Bytes → Bytes
before_dot [] = []
before_dot (c ∷ cs) = let rest = before_dot cs in if c == b'.' then [] else c ∷ rest

-- `strings.ToUpper`, from a byte on that may be the second one of a dotless i.
unfoldable pub upper : Bool → Bytes → Bytes
upper skips [] = []
upper skips (c ∷ cs) =
    let dotless = c == 0xc4 && byte_or 0 cs == 0xb1 in
    let rest = upper dotless cs in
    if skips
    then rest
    else (if dotless
        then b'I' ∷ rest
        else (if leb b'a' c && leb c b'z' then (c - 32) ∷ rest else c ∷ rest))

abbrev pub device_names : List Bytes
device_names =
    (b'C' ∷ b'O' ∷ b'N' ∷ [])
    ∷ (b'P' ∷ b'R' ∷ b'N' ∷ [])
    ∷ (b'A' ∷ b'U' ∷ b'X' ∷ [])
    ∷ (b'N' ∷ b'U' ∷ b'L' ∷ [])
    ∷ (b'C' ∷ b'O' ∷ b'N' ∷ b'I' ∷ b'N' ∷ b'$' ∷ [])
    ∷ (b'C' ∷ b'O' ∷ b'N' ∷ b'O' ∷ b'U' ∷ b'T' ∷ b'$' ∷ [])
    ∷ []

abbrev pub is_one_of : List Bytes → Bytes → Bool
is_one_of [] s = false
is_one_of (w ∷ ws) s = same_bytes w s || is_one_of ws s

-- A digit, or one of the superscripts 1, 2 and 3.
abbrev pub is_device_digit : Bytes → Bool
is_device_digit [] = false
is_device_digit (d ∷ []) = is_digit d
is_device_digit (c ∷ d ∷ []) = c == 0xc2 && (d == 0xb9 || d == 0xb2 || d == 0xb3)
is_device_digit _ = false

abbrev pub is_port : Bytes → Bytes → Bool
is_port prefix base = elim (strip_prefix prefix base) [
  | none ↦ false
  | some digit ↦ is_device_digit digit
]

abbrev pub is_device : Bytes → Bool
is_device base =
    is_one_of device_names base
    || is_port (b'C' ∷ b'O' ∷ b'M' ∷ []) base
    || is_port (b'L' ∷ b'P' ∷ b'T' ∷ []) base

-- `ValidFileName`
unfoldable pub valid_file_name : Bytes → Bool
valid_file_name name =
    not (is_nil name)
    && not (same_bytes name (b'.' ∷ []))
    && not (same_bytes name (b'.' ∷ b'.' ∷ []))
    && same_bytes (trim_right name) name
    && are_allowed name
    && not (is_device (upper false (before_dot name)))
