-- ===== src/Session/Manager/Names.antt =====
-- internal/core/session/manager.go: how the Manager names Sessions and endpoints. The case tables of
-- Go's `unicode` package are a parameter.
use Prim.Native.Char.{Char}
use Prim.Native.String.{String, ◌++◌}
use channel_term.Prelude.{ℕ, zero, suc, ◌/◌, ◌%◌, ltb, if◌then◌else◌, List, [], ◌∷◌, get_or}
use text.Mathlib.Text.{◌==◌ as str_eq}
use channel_term.Lease.Text.{is_space, is_empty, trim_space}
use Prim.Native.Char.{code}

-- `unicode.ToLower` and `unicode.ToUpper`
pub record CaseTables : Type 0 where
  pub to_lower : Char → Char
  pub to_upper : Char → Char

-- `strings.ToLower` and `strings.ToUpper`, which take each character to its other case.
unfoldable pub map_text : (Char → Char) → String → String
map_text f String.[] = String.[]
map_text f (String.◌∷◌ c s) = String.◌∷◌ (f c) (map_text f s)

abbrev with_word : String → List String → List String
with_word String.[] ws = ws
with_word (String.◌∷◌ c w) ws = String.◌∷◌ c w ∷ ws

-- The word that a text begins with, and the words after it.
pub split_words : String → String × List String
split_words String.[] = (String.[], [])
split_words (String.◌∷◌ c s) =
    let (w, ws) = split_words s in
    if is_space (code c) then (String.[], with_word w ws) else (String.◌∷◌ c w, ws)

-- `strings.Fields`
pub words : String → List String
words s = let (w, ws) = split_words s in with_word w ws

-- `strings.Join` with a dash.
pub join_words : List String → String
join_words [] = ""
join_words (w ∷ []) = w
join_words (w ∷ v ∷ ws) = w ++ "-" ++ join_words (v ∷ ws)

-- `referencePrefix`
unfoldable pub reference_prefix : CaseTables → String → String
reference_prefix u transport =
    if str_eq transport "serial"
    then "SER"
    else (if str_eq transport "ssh"
        then "SSH"
        else (if str_eq transport "telnet"
            then "TELNET"
            else (if is_empty transport
                then "SESSION"
                else map_text u.to_upper (join_words (words transport)))))

-- The key of `nextReferences` for a transport.
unfoldable pub reference_key : CaseTables → String → String
reference_key u transport = map_text u.to_lower (trim_space transport)

abbrev digit_texts : List String
digit_texts = "0" ∷ "1" ∷ "2" ∷ "3" ∷ "4" ∷ "5" ∷ "6" ∷ "7" ∷ "8" ∷ "9" ∷ []

abbrev pub digit : ℕ → String
digit d = get_or digit_texts d ""

-- The digits of a number, on fuel: each round divides it by ten.
unfoldable pub digits : ℕ → ℕ → String
digits zero n = ""
digits (suc f) n =
    let rest = digits f (n / 10) in if ltb n 10 then digit n else rest ++ digit (n % 10)

-- `strconv.FormatUint` in base ten.
abbrev pub format_uint : ℕ → String
format_uint n = digits (suc n) n

abbrev pub reference_name : String → ℕ → String
reference_name prefix n = prefix ++ "-" ++ format_uint n

-- `sessionEndpointKey`
abbrev pub session_endpoint_key : String → String → String
session_endpoint_key transport endpoint = transport ++ "\0" ++ endpoint
