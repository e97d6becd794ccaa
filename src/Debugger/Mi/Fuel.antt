-- ===== src/Debugger/Mi/Fuel.antt =====
-- What each part of the parser leaves: a shorter rest of the line, or an error.
use channel_term.Prelude.{
  ℕ, suc, zero, ◌+◌, ◌-◌, ◌*◌, ◌≤◌, ◌<◌, ◌≡◌, refl, ◌⊎◌, Option, none, some, [], ◌∷◌, ◌++◌, arith,
  length, Bytes,
}
use channel_term.Debugger.Mi.Text.{
  Parsed, parsed, failed, exhausted, text_body, text_round, escape, more_octal, Round, writes,
  closes, fails, take_byte,
}
use channel_term.Debugger.Mi.Height.{height, fields_height}
use channel_term.Debugger.Mi.{
  Value, key, span_key, element, opening, opens_text, opens_tuple, opens_list, as_text, labelled,
}

more_octal_le : (j n : ℕ) (s : Bytes) → length (more_octal j n s).1 ≤ length s
unfolding more_octal
more_octal_le zero n s = omega arith
more_octal_le (suc j) n [] = omega arith
more_octal_le (suc j) n (c ∷ cs) = ground (arith, more_octal_le j (n * 8 + (c - b'0')) cs)

escape_lt : (s : Bytes) (b : ℕ) (r : Bytes) → escape s ≡ writes b r → length r < length s
unfolding escape
escape_lt [] b r h = ground arith
escape_lt (c ∷ cs) b r h = ground (arith, more_octal_le 2 (c - b'0') cs)

text_round_lt : (s : Bytes) (b : ℕ) (r : Bytes) → text_round s ≡ writes b r → length r < length s
unfolding text_round
text_round_lt [] b r h = ground arith
text_round_lt (c ∷ cs) b r h = ground (arith, escape_lt cs b r)

text_closes_lt : (s r : Bytes) → text_round s ≡ closes r → length r < length s
unfolding text_round escape
text_closes_lt [] r h = ground arith
text_closes_lt (c ∷ cs) r h = ground arith

-- A part of the parser has ended: it failed, or it left less than `n` bytes.
abbrev pub Ends {ℓ} : {A : Type ℓ} → ℕ → Parsed A → Type 0
Ends n (parsed a r) = length r < n
Ends n (failed e) = Unit
Ends n exhausted = ⊥

pub text_body-Ends :
    (f : ℕ) (s out : Bytes) → length s ≤ f → Ends (suc (length s)) (text_body f s out)
unfolding text_body
text_body-Ends f [] out h = tt
text_body-Ends zero (c ∷ cs) out h = absurd (omega arith)
text_body-Ends (suc f) (c ∷ cs) out h =
    ends (λ b r. text_body-Ends f r (out ++ b ∷ [])) (text_round (c ∷ cs)) refl
  where
    ends :
        ((b : ℕ) (r : Bytes) → length r ≤ f → Ends (suc (length r)) (text_body f r (out ++ b ∷ [])))
        → (o : Round) → text_round (c ∷ cs) ≡ o
        → Ends (suc (length (c ∷ cs))) (text_body (suc f) (c ∷ cs) out)
    ends ih (closes r) e = ground (arith, text_closes_lt (c ∷ cs) r e)
    ends ih (fails x) e = ground arith
    ends ih (writes b r) e = ground (arith, text_round_lt (c ∷ cs) b r e, ih b r)

pub take_byte_lt : (c : ℕ) (s r : Bytes) → take_byte c s ≡ some r → length r < length s
take_byte_lt c [] r h = ground arith
take_byte_lt c (x ∷ xs) r h = ground arith

span_key_le : (s : Bytes) → length (span_key s).1 ≤ length s
span_key_le [] = omega arith
span_key_le (c ∷ cs) = ground (arith, span_key_le cs)

pub key_lt : (s k r : Bytes) → key s ≡ some (k, r) → length r < length s
unfolding key
key_lt s k r h = ground (arith, span_key_le s, take_byte_lt b'=' (span_key s).1 r)

-- Where the value of a list element starts: as deep as its label leaves room for.
pub element_le :
    (d : ℕ) (s : Bytes) (k : Option Bytes) (d' : ℕ) (r : Bytes)
    → element d s ≡ some (k, d', r)
    → (length r ≤ length s)
      × ((v : Value) → height v + d' ≤ 65 → height (labelled k v) + d + 1 ≤ 65)
unfolding element height fields_height
element_le d s none d' r h = ground (arith, key_lt s)
element_le d s (some k) d' r h = ground (arith, key_lt s k r)

-- A value that starts at depth `d` has been read: also, it is nested no deeper than depth 65.
abbrev pub Reads : ℕ → ℕ → Parsed Value → Type 0
Reads n d (parsed v r) = (length r < n) × (height v + d ≤ 65)
Reads n d (failed e) = Unit
Reads n d exhausted = ⊥

pub text-Reads : (n d : ℕ) (p : Parsed Bytes) → d ≤ 64 → Ends n p → Reads n d (as_text p)
unfolding height
text-Reads n d (parsed b r) h e = ground arith
text-Reads n d (failed x) h e = ground arith
text-Reads n d exhausted h e = ground arith

pub opening_lt :
    (d : ℕ) (s r : Bytes)
    → ((opening d s ≡ opens_text r) ⊎ (opening d s ≡ opens_tuple r)) ⊎ (opening d s ≡ opens_list r)
    → (d ≤ 64) × (length r < length s)
unfolding opening
opening_lt d [] r h = ground arith
opening_lt d (c ∷ cs) r h = ground arith
