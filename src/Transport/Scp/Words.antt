-- ===== src/Transport/Scp/Words.antt =====
-- A quoted path is one word of the remote shell, which is the path itself.
use channel_term.Prelude.{
  ℕ, ◌≡◌, refl, ap, ◌∙◌, arith, Bool, true, false, ◌||◌, Option, none, some, [], ◌∷◌, ◌++◌, ◌==◌,
  if◌then◌else◌, Bytes, Bool-cases, inl, inr, ◌⊎◌, ◌&&◌, ◌≢◌,
}
use channel_term.Transport.Scp.{has_break, rooted, replace_quotes, scp_path}

-- Where a POSIX shell is in a word: outside of quotes, between single or between double ones.
pub data Quoting : Type 0 where
  outside in_single in_double : Quoting

abbrev pub and_byte : ℕ → Option Bytes → Option Bytes
and_byte c none = none
and_byte c (some w) = some (c ∷ w)

-- What a POSIX shell makes of a text that is one quoted word: between single quotes every byte stands
-- for itself, between double ones every byte but a backslash, a dollar and a backquote, which are
-- refused here, as is a byte outside of quotes.
unfoldable pub shell_word : Quoting → Bytes → Option Bytes
shell_word outside [] = some []
shell_word in_single [] = none
shell_word in_double [] = none
shell_word outside (c ∷ cs) =
    let quoted = shell_word in_single cs in
    let doubled = shell_word in_double cs in
    if c == 39 then quoted else (if c == 34 then doubled else none)
shell_word in_single (c ∷ cs) =
    let ended = shell_word outside cs in
    let rest = shell_word in_single cs in if c == 39 then ended else and_byte c rest
shell_word in_double (c ∷ cs) =
    let ended = shell_word outside cs in
    let rest = shell_word in_double cs in
    if c == 34 then ended else (if c == 92 || c == 36 || c == 96 then none else and_byte c rest)

closed : shell_word in_single (39 ∷ []) ≡ some []
unfolding shell_word
closed = refl

plain_byte :
    (c : ℕ) (t : Bytes)
    → (c == 39) ≡ false
    → shell_word in_single (c ∷ t) ≡ and_byte c (shell_word in_single t)
unfolding shell_word
plain_byte c t h =
    ap (λ b. if b then shell_word outside t else and_byte c (shell_word in_single t)) h

replaced_quote :
    (t : Bytes)
    → shell_word in_single (39 ∷ 34 ∷ 39 ∷ 34 ∷ 39 ∷ t) ≡ and_byte 39 (shell_word in_single t)
unfolding shell_word
replaced_quote t = refl

shell_word-replace_quotes :
    (s : Bytes) → shell_word in_single (replace_quotes s ++ 39 ∷ []) ≡ some s
unfolding replace_quotes
shell_word-replace_quotes [] = closed
shell_word-replace_quotes (c ∷ cs) = elim (Bool-cases (c == 39)) [
  | inl e ↦
      ap read e
      ∙ replaced_quote (replace_quotes cs ++ 39 ∷ [])
      ∙ ap (and_byte 39) (shell_word-replace_quotes cs)
      ∙ ap (λ k. some (k ∷ cs)) (quote_of e)
  | inr e ↦
      ap read e
      ∙ plain_byte c (replace_quotes cs ++ 39 ∷ []) e
      ∙ ap (and_byte c) (shell_word-replace_quotes cs)
]
  where
    read : Bool → Option Bytes
    read b =
        let rest = replace_quotes cs in
        let replaced = if b then 39 ∷ 34 ∷ 39 ∷ 34 ∷ 39 ∷ rest else c ∷ rest in
        shell_word in_single (replaced ++ 39 ∷ [])

    quote_of : (c == 39) ≡ true → 39 ≡ c
    quote_of e = ground arith

-- Whether a path begins at the root or with `./`, so that no command takes it for an option.
abbrev pub is_rooted : Bytes → Bool
is_rooted [] = false
is_rooted (c ∷ []) = c == b'/'
is_rooted (c ∷ d ∷ cs) = c == b'/' || (c == b'.' && d == b'/')

rooted-is_rooted : (s : Bytes) → is_rooted (rooted s) ≡ true
rooted-is_rooted [] = refl
rooted-is_rooted (c ∷ []) = ground arith
rooted-is_rooted (c ∷ d ∷ cs) = ground arith

-- Whether a path is absolute.
abbrev pub is_absolute : Bytes → Bool
is_absolute [] = false
is_absolute (c ∷ cs) = c == b'/'

-- A byte of the path is a NUL, a newline or a carriage return.
abbrev pub Breaks : Bytes → Type 0
Breaks [] = ⊥
Breaks (c ∷ cs) = (c ≡ 0) ⊎ ((c ≡ 10) ⊎ ((c ≡ 13) ⊎ Breaks cs))

has_break-Breaks : (s : Bytes) → has_break s ≡ true → Breaks s
unfolding has_break
has_break-Breaks [] h = absurd (ground arith)
has_break-Breaks (c ∷ cs) h = elim (Bool-cases (has_break cs)) [
  | inl e ↦ inr (inr (inr (has_break-Breaks cs e)))
  | inr e ↦ ground arith
]

Breaks-has_break : (s : Bytes) → Breaks s → has_break s ≡ true
unfolding has_break
Breaks-has_break [] h = absurd h
Breaks-has_break (c ∷ cs) (inl h) = ground arith
Breaks-has_break (c ∷ cs) (inr (inl h)) = ground arith
Breaks-has_break (c ∷ cs) (inr (inr (inl h))) = ground arith
Breaks-has_break (c ∷ cs) (inr (inr (inr h))) = ground (arith, Breaks-has_break cs h)

rooted_lem : (s : Bytes) → rooted s ≡ (if is_absolute s then s else b'.' ∷ b'/' ∷ s)
rooted_lem [] = refl
rooted_lem (c ∷ cs) = refl

-- `scpPath` refuses exactly the empty path and the paths with a NUL, a carriage return or a newline.
-- Every other path it quotes so that a shell reads one word, without expansion: an absolute path
-- itself, any other with `./` before it. So the word does not begin with a dash.
pub scp_path-shell_word :
    (s : Bytes)
    → ((q : Bytes) × (word : Bytes) × (scp_path s ≡ some q)
        × (shell_word outside q ≡ some word)
        × (word ≡ (if is_absolute s then s else b'.' ∷ b'/' ∷ s))
        × (is_rooted word ≡ true)
        × (s ≢ [])
        × ¬ (Breaks s))
      ⊎ ((scp_path s ≡ none) × ((s ≡ []) ⊎ Breaks s))
unfolding scp_path shell_word
scp_path-shell_word [] = inr (refl, inl refl)
scp_path-shell_word (c ∷ cs) = elim (Bool-cases (has_break (c ∷ cs))) [
  | inl e ↦ inr (ground (arith, e), inr (has_break-Breaks (c ∷ cs) e))
  | inr e ↦ inl (
    39 ∷ (replace_quotes (rooted (c ∷ cs)) ++ 39 ∷ []),
    rooted (c ∷ cs),
    ground (arith, e),
    shell_word-replace_quotes (rooted (c ∷ cs)),
    rooted_lem (c ∷ cs),
    rooted-is_rooted (c ∷ cs),
    (λ nil. ground arith),
    (λ b. ground (arith, Breaks-has_break (c ∷ cs) b)),
  )
]
