-- ===== src/Debugger/Mi/Tests.antt =====
-- The MI parser on concrete lines.
use channel_term.Prelude.{◌≡◌, refl, [], ◌∷◌, arith, Bytes, inr}
use channel_term.Debugger.Mi.Text.{
  parsed, failed, octal_overflow, quote, escape, text_body, text_round, more_octal, is_prompt,
  skip_spaces,
}
use channel_term.Debugger.Mi.{
  text, tuple, array, end, field, nil, cons, stream, message, prompt, parse, parse_stream,
  parse_message, value, fields, items, results, key, opening, element, add_result,
}
use channel_term.Debugger.Mi.Quote.{parse-quote}
use channel_term.Debugger.Mi.Reads.{Parses, parse-Parses}

-- `"`, a newline and `a`
abbrev argument : Bytes
argument = b'"' ∷ 10 ∷ b'a' ∷ []

-- `7^done,a="x",a={}`
abbrev line : Bytes
line =
    b'7' ∷ b'^' ∷ b'd' ∷ b'o' ∷ b'n' ∷ b'e' ∷ b',' ∷ b'a' ∷ b'=' ∷ b'"' ∷ b'x' ∷ b'"' ∷ b',' ∷ b'a'
    ∷ b'=' ∷ b'{' ∷ b'}' ∷ []

-- A repeated key keeps its values as a list.
parse-line :
    parse line
    ≡ parsed
        (message
          (b'7' ∷ [])
          b'^'
          (b'd' ∷ b'o' ∷ b'n' ∷ b'e' ∷ [])
          (field (b'a' ∷ []) (array (cons (text (b'x' ∷ [])) (cons (tuple end) nil))) end))
        []
unfolding parse parse_message results key value opening text_body text_round add_result is_prompt
    skip_spaces fields items element
parse-line = refl

parse-prompt : parse (32 ∷ b'(' ∷ b'g' ∷ b'd' ∷ b'b' ∷ b')' ∷ 10 ∷ []) ≡ parsed prompt []
unfolding parse is_prompt skip_spaces
parse-prompt = refl

-- `~"\777"`
octal_too_big : parse (b'~' ∷ b'"' ∷ b'\\' ∷ b'7' ∷ b'7' ∷ b'7' ∷ b'"' ∷ []) ≡ failed octal_overflow
unfolding parse parse_stream value opening text_body text_round escape more_octal is_prompt
    skip_spaces
octal_too_big = refl

quoted : quote argument ≡ b'"' ∷ b'\\' ∷ b'"' ∷ b'\\' ∷ b'0' ∷ b'1' ∷ b'2' ∷ b'a' ∷ b'"' ∷ []
unfolding quote
quoted = refl

parse-quote_example : parse (b'&' ∷ quote argument) ≡ parsed (stream [] b'&' argument) []
parse-quote_example =
    parse-quote b'&' argument (inr (inr refl)) (omega arith, (omega arith, (omega arith, tt)))

parse-Parses_example : Parses (parse line)
parse-Parses_example = parse-Parses line
