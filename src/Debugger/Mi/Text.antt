-- ===== src/Debugger/Mi/Text.antt =====
-- internal/core/debugger/mi.go: the errors, the C string of `value`, the prompt test, and `Quote`.
use channel_term.Prelude.{
  ℕ, suc, zero, ◌+◌, ◌-◌, ◌*◌, ◌/◌, ◌%◌, Bool, true, false, ◌&&◌, ◌||◌, Option, none, some, [], ◌∷◌,
  ◌++◌, ltb, leb, ◌==◌, if◌then◌else◌, length, Bytes, drop, get_or, strip_prefix,
}

pub data MiError : Type 0 where
  missing_kind not_a_string empty_class bad_separator bad_kind trailing : MiError
  bad_result bad_value bad_escape octal_overflow unterminated bad_tuple bad_list : MiError

-- What a part of the parser ends with: a value and the rest of the line, an error, or no fuel left.
pub data Parsed {ℓ} (A : Type ℓ) : Type ℓ where
  parsed : A → Bytes → Parsed A
  failed : MiError → Parsed A
  exhausted : Parsed A

abbrev pub is_digit : ℕ → Bool
is_digit c = leb b'0' c && leb c b'9'

abbrev pub is_octal : ℕ → Bool
is_octal c = leb b'0' c && leb c b'7'

-- `take`: what follows the byte `c`, if it comes next.
abbrev pub take_byte : ℕ → Bytes → Option Bytes
take_byte c [] = none
take_byte c (x ∷ xs) = if x == c then some xs else none

-- The escapes of one letter.
abbrev pub letter_escape : ℕ → Option ℕ
letter_escape c =
    if c == b'n'
    then some 10
    else (if c == b'r'
        then some 13
        else (if c == b't'
            then some 9
            else (if c == b'b'
                then some 8
                else (if c == b'f'
                    then some 12
                    else (if c == b'v'
                        then some 11
                        else (if c == b'a'
                            then some 7
                            else (if c == b'\\' || c == b'"' || c == b'\''
                                then some c
                                else none)))))))

-- Up to `j` more octal digits of `n`.
unfoldable pub more_octal : ℕ → ℕ → Bytes → ℕ × Bytes
more_octal zero n s = (n, s)
more_octal (suc j) n [] = (n, [])
more_octal (suc j) n (c ∷ cs) =
    let rest = more_octal j (n * 8 + (c - b'0')) cs in if is_octal c then rest else (n, c ∷ cs)

-- One round of the string loop: the string ends, a byte is written, or there is an error.
pub data Round : Type 0 where
  closes : Bytes → Round
  writes : ℕ → Bytes → Round
  fails : MiError → Round

abbrev octal_escape : ℕ × Bytes → Round
octal_escape (n, r) = if ltb 255 n then fails octal_overflow else writes n r

-- The switch behind a backslash.
unfoldable pub escape : Bytes → Round
escape [] = fails unterminated
escape (c ∷ cs) = elim (letter_escape c) [
  | some b ↦ writes b cs
  | none ↦ if is_octal c then octal_escape (more_octal 2 (c - b'0') cs) else fails bad_escape
]

unfoldable pub text_round : Bytes → Round
text_round [] = fails unterminated
text_round (c ∷ cs) =
    if c == b'"' then closes cs else (if c == b'\\' then escape cs else writes c cs)

-- The loop, with what is written so far; each round consumes a byte at least.
unfoldable pub text_body : ℕ → Bytes → Bytes → Parsed Bytes
text_body f [] out = failed unterminated
text_body zero (c ∷ cs) out = exhausted
text_body (suc f) (c ∷ cs) out = elim (text_round (c ∷ cs)) [
  | closes r ↦ parsed out r
  | fails e ↦ failed e
  | writes b r ↦ text_body f r (out ++ b ∷ [])
]

abbrev pub byte_or : ℕ → Bytes → ℕ
byte_or i s = get_or s i 0

-- The length of the white space character, as Unicode has it, that the bytes start with, or 0.
abbrev pub space_width : Bytes → ℕ
space_width s =
    let a = byte_or 0 s in
    let b = byte_or 1 s in
    let c = byte_or 2 s in
    if (leb 9 a && leb a 13) || a == 32
    then 1
    else (if a == 0xc2 && (b == 0x85 || b == 0xa0)
        then 2
        else (if (a == 0xe1 && b == 0x9a && c == 0x80)
              || (a == 0xe2
                  && b == 0x80
                  && ((leb 0x80 c && leb c 0x8a) || c == 0xa8 || c == 0xa9 || c == 0xaf))
              || (a == 0xe2 && b == 0x81 && c == 0x9f)
              || (a == 0xe3 && b == 0x80 && c == 0x80)
            then 3
            else 0))

unfoldable pub skip_spaces : ℕ → Bytes → Bytes
skip_spaces zero s = s
skip_spaces (suc f) s =
    let rest = skip_spaces f (drop (space_width s) s) in if space_width s == 0 then s else rest

-- A test whether `strings.TrimSpace(line) == "(gdb)"`: white space, the text, and white space.
abbrev gdb_text : Bytes
gdb_text = b'(' ∷ b'g' ∷ b'd' ∷ b'b' ∷ b')' ∷ []

abbrev pub is_nil : Bytes → Bool
is_nil [] = true
is_nil _ = false

unfoldable pub is_prompt : Bytes → Bool
is_prompt line = elim (strip_prefix gdb_text (skip_spaces (length line) line)) [
  | none ↦ false
  | some r ↦ is_nil (skip_spaces (length r) r)
]

-- The bytes that `Quote` writes for one byte; `%03o` is three octal digits of a byte.
abbrev pub quote_byte : ℕ → Bytes
quote_byte c =
    if c == b'"' || c == b'\\'
    then b'\\' ∷ c ∷ []
    else (if ltb c 32 || leb 127 c
        then b'\\' ∷ (b'0' + c / 64) ∷ (b'0' + c / 8 % 8) ∷ (b'0' + c % 8) ∷ []
        else c ∷ [])

abbrev pub quote_body : Bytes → Bytes
quote_body [] = []
quote_body (c ∷ cs) = quote_byte c ++ quote_body cs

-- `Quote`
unfoldable pub quote : Bytes → Bytes
quote s = b'"' ∷ quote_body s ++ b'"' ∷ []
