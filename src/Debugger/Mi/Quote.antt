-- ===== src/Debugger/Mi/Quote.antt =====
-- What the parser reads back of a quoted argument, and which bytes `Quote` writes.
use channel_term.Prelude.{
  ◌*◌, ℕ, suc, zero, ◌≤◌, ◌<◌, ◌≡◌, refl, ap, ◌∙◌, [], ◌∷◌, ◌++◌, arith, length, length-append, ◌⊎◌,
  Bytes,
}
use mathlib.Core.List.{append_assoc, append-nil}
use channel_term.Debugger.Mi.Text.{
  parsed, text_body, text_round, escape, more_octal, writes, quote_byte, quote_body, quote,
  is_prompt, skip_spaces,
}
use channel_term.Debugger.Mi.{value, opening, text, parse, parse_stream, stream}

abbrev pub AreBytes : Bytes → Type 0
AreBytes [] = Unit
AreBytes (c ∷ cs) = (c < 256) × AreBytes cs

text_round-quote_byte :
    (c : ℕ) (rest : Bytes) → c < 256 → text_round (quote_byte c ++ rest) ≡ writes c rest
unfolding text_round escape more_octal
text_round-quote_byte c rest h = ground arith

length-quote_byte : (c : ℕ) → 1 ≤ length (quote_byte c)
length-quote_byte c = ground arith

text_body_round :
    (f : ℕ) (s out : Bytes) (b : ℕ) (r : Bytes)
    → text_round s ≡ writes b r
    → text_body (suc f) s out ≡ text_body f r (out ++ b ∷ [])
unfolding text_body text_round
text_body_round f [] out b r h = ground arith
text_body_round f (c ∷ cs) out b r h = ground arith

-- The string loop reads back the bytes that `Quote` wrote, and stops behind the closing quote.
text_body-quote :
    (f : ℕ) (s rest out : Bytes)
    → AreBytes s
    → length (quote_body s ++ b'"' ∷ rest) ≤ f
    → text_body f (quote_body s ++ b'"' ∷ rest) out ≡ parsed (out ++ s) rest
text_body-quote zero s rest out bytes h =
    absurd (omega (arith, length-append (quote_body s) (b'"' ∷ rest)))
text_body-quote (suc f) [] rest out bytes h = unfold text_body text_round in rw append-nil refl
text_body-quote (suc f) (c ∷ cs) rest out bytes h =
    ap (λ t. text_body (suc f) t out) (append_assoc (quote_byte c) (quote_body cs) (b'"' ∷ rest))
    ∙ text_body_round f _ out c (quote_body cs ++ b'"' ∷ rest)
        (text_round-quote_byte c (quote_body cs ++ b'"' ∷ rest) bytes.0)
    ∙ text_body-quote f cs rest (out ++ c ∷ []) bytes.1 shorter
    ∙ ap (λ t. parsed t rest) (append_assoc out (c ∷ []) cs)
  where
    shorter : length (quote_body cs ++ b'"' ∷ rest) ≤ f
    shorter = omega (
      arith,
      h,
      length-quote_byte c,
      length-append (quote_byte c ++ quote_body cs) (b'"' ∷ rest),
      length-append (quote_byte c) (quote_body cs),
      length-append (quote_body cs) (b'"' ∷ rest),
    )

value-quote :
    (f d : ℕ) (s rest : Bytes)
    → AreBytes s
    → d ≤ 64
    → value (suc f) d (quote s ++ rest) ≡ parsed (text s) rest
unfolding value opening quote
value-quote f d s rest bytes h = ground (
  arith,
  append_assoc (quote_body s) (b'"' ∷ []) rest,
  text_body-quote (length (quote_body s ++ b'"' ∷ rest)) s rest [] bytes (omega arith),
)

-- The marks of console, target and log output.
abbrev pub IsMark : ℕ → Type 0
IsMark m = (m ≡ b'~') ⊎ ((m ≡ b'@') ⊎ (m ≡ b'&'))

-- A line that is a stream mark, `~`, `@` or `&`, and a quoted byte string is read back as the stream
-- record of that mark and that byte string, whatever bytes it has.
pub parse-quote :
    (mark : ℕ) (s : Bytes)
    → IsMark mark
    → AreBytes s
    → parse (mark ∷ quote s) ≡ parsed (stream [] mark s) []
unfolding parse parse_stream is_prompt skip_spaces
parse-quote mark s is_mark bytes =
    ground
      (arith, append-nil (quote s), value-quote (2 * length (quote s)) 0 s [] bytes (omega arith))

-- All bytes are printing characters of ASCII.
abbrev pub IsPrintable : Bytes → Type 0
IsPrintable [] = Unit
IsPrintable (c ∷ cs) = (32 ≤ c) × (c ≤ 126) × IsPrintable cs

IsPrintable-append : (xs ys : Bytes) → IsPrintable xs → IsPrintable ys → IsPrintable (xs ++ ys)
IsPrintable-append [] ys h k = k
IsPrintable-append (x ∷ xs) ys h k = (h.0, h.1, IsPrintable-append xs ys h.2 k)

quote_byte-IsPrintable : (c : ℕ) → c < 256 → IsPrintable (quote_byte c)
quote_byte-IsPrintable c h = ground arith

quote_body-IsPrintable : (s : Bytes) → AreBytes s → IsPrintable (quote_body s)
quote_body-IsPrintable [] h = h
quote_body-IsPrintable (c ∷ cs) h =
    IsPrintable-append (quote_byte c) (quote_body cs) (quote_byte-IsPrintable c h.0)
      (quote_body-IsPrintable cs h.1)

-- `Quote` writes printing characters of ASCII only, whatever the bytes are: no argument can bring a
-- newline, and with it a second command, into the line.
pub quote-IsPrintable : (s : Bytes) → AreBytes s → IsPrintable (quote s)
unfolding quote
quote-IsPrintable s h = (
  omega arith,
  omega arith,
  IsPrintable-append (quote_body s) (b'"' ∷ []) (quote_body-IsPrintable s h)
      (omega arith, omega arith, tt),
)
