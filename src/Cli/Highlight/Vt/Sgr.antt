-- ===== src/Cli/Highlight/Vt/Sgr.antt =====
-- internal/cli/highlight/vt.go: `applySGR`. The parameters come as the list of their parts.
use channel_term.Prelude.{
  ℕ, zero, suc, Bool, true, false, ◌&&◌, ◌||◌, not, Option, none, some, List, [], ◌∷◌, ◌==◌, leb,
  if◌then◌else◌, length, min, Bytes, same_bytes, ℤ, pos,
}
use channel_term.Transport.Scp.Records.{parse_int}

-- The bits of `sgrAttributes`.
pub record Attributes : Type 0 where
  pub intensity : Bool
  pub italic : Bool
  pub underline : Bool
  pub blink : Bool
  pub inverse : Bool
  pub conceal : Bool
  pub strike : Bool
  pub frame : Bool
  pub overline : Bool
  pub foreground : Bool
  pub background : Bool
  pub underline_color : Bool
  pub unknown : Bool

abbrev pub plain : Attributes
plain = record {
  intensity = false;
  italic = false;
  underline = false;
  blink = false;
  inverse = false;
  conceal = false;
  strike = false;
  frame = false;
  overline = false;
  foreground = false;
  background = false;
  underline_color = false;
  unknown = false;
}

-- `sgrAttributes == 0`
unfoldable pub is_plain : Attributes → Bool
is_plain a = not (
    a.intensity || a.italic || a.underline || a.blink || a.inverse || a.conceal || a.strike
    || a.frame || a.overline || a.foreground || a.background || a.underline_color || a.unknown)

abbrev pub is_in : ℕ → ℕ → ℕ → Bool
is_in low high n = leb low n && leb n high

-- `setSGRCode` of a code that is not negative.
unfoldable pub set_code : ℕ → Attributes → Attributes
set_code n a =
    if n == 0
    then plain
    else (if n == 1 || n == 2
        then record a { intensity = true }
        else (if n == 3
            then record a { italic = true }
            else (if n == 4 || n == 21
                then record a { underline = true }
                else (if n == 5 || n == 6
                    then record a { blink = true }
                    else (if n == 7
                        then record a { inverse = true }
                        else (if n == 8
                            then record a { conceal = true }
                            else (if n == 9
                                then record a { strike = true }
                                else (if n == 22
                                    then record a { intensity = false }
                                    else (if n == 23
                                        then record a { italic = false }
                                        else (if n == 24
                                            then record a { underline = false }
                                            else (if n == 25
                                                then record a { blink = false }
                                                else (if n == 27
                                                    then record a { inverse = false }
                                                    else (if n == 28
                                                        then record a { conceal = false }
                                                        else (if n == 29
                                                            then record a { strike = false }
                                                            else (if is_in 30 37 n
                                                            || is_in 90 97 n
                                                            || n == 38
                                                            then record a { foreground = true }
                                                            else (if n == 39
                                                            then record a { foreground = false }
                                                            else (if is_in 40 47 n
                                                            || is_in 100 107 n
                                                            || n == 48
                                                            then record a { background = true }
                                                            else (if n == 49
                                                            then record a { background = false }
                                                            else (if n == 51 || n == 52
                                                            then record a { frame = true }
                                                            else (if n == 53
                                                            then record a { overline = true }
                                                            else (if n == 54
                                                            then record a { frame = false }
                                                            else (if n == 55
                                                            then record a { overline = false }
                                                            else (if n == 58
                                                            then record a { underline_color = true }
                                                            else (if n == 59
                                                            then record a {
                                                            underline_color = false;
                                                            }
                                                            else record a {
                                                            unknown = true;
                                                            }))))))))))))))))))))))))

-- `setSGRCode` of what `strconv.Atoi` gives; an error sets the unknown attribute too.
abbrev pub set_number : Option ℤ → Attributes → Attributes
set_number (some (pos n)) a = set_code n a
set_number _ a = record a { unknown = true }

-- `strings.Split` by a byte.
abbrev with_head : ℕ → List Bytes → List Bytes
with_head c [] = (c ∷ []) ∷ []
with_head c (w ∷ ws) = (c ∷ w) ∷ ws

unfoldable pub split_on : ℕ → Bytes → List Bytes
split_on x [] = [] ∷ []
split_on x (c ∷ cs) = let rest = split_on x cs in if c == x then [] ∷ rest else with_head c rest

-- The text before the first colon, if there is one.
unfoldable pub before_colon : Bytes → Option Bytes
before_colon [] = none
before_colon (c ∷ cs) =
    let rest = before_colon cs in
    if c == b':' then some [] else elim rest [ none ↦ none | some s ↦ some (c ∷ s) ]

-- `extendedColorParameterCount`
abbrev pub extended_count : List Bytes → ℕ
extended_count [] = 0
extended_count (p ∷ ps) =
    if same_bytes p (b'5' ∷ [])
    then min 2 (length (p ∷ ps))
    else (if same_bytes p (b'2' ∷ []) then min 4 (length (p ∷ ps)) else 0)

abbrev pub is_extended : Option ℤ → Bool
is_extended (some (pos n)) = n == 38 || n == 48 || n == 58
is_extended _ = false

abbrev pub or_zero : Bytes → Bytes
or_zero [] = b'0' ∷ []
or_zero (c ∷ cs) = c ∷ cs

abbrev pub apply_number : Option ℤ → List Bytes → Attributes → ℕ × Attributes
apply_number n ps a = (if is_extended n then extended_count ps else 0, set_number n a)

-- What one part does, given those behind it: how many of them it takes along, and the attributes.
abbrev pub apply_part : Bytes → Option Bytes → List Bytes → Attributes → ℕ × Attributes
apply_part p (some code) ps a = (0, set_number (parse_int code) a)
apply_part p none ps a = apply_number (parse_int p) ps a

-- The loop, with the number of parts that are still taken along.
unfoldable pub apply_parts : ℕ → List Bytes → Attributes → Attributes
apply_parts skip [] a = a
apply_parts (suc skip) (p ∷ ps) a = apply_parts skip ps a
apply_parts zero (p ∷ ps) a =
    let (skip, a') = apply_part (or_zero p) (before_colon (or_zero p)) ps a in
    apply_parts skip ps a'

-- `applySGR`
abbrev pub apply_sgr : Bytes → Attributes → Attributes
apply_sgr [] a = plain
apply_sgr (c ∷ cs) a = apply_parts 0 (split_on b';' (c ∷ cs)) a
