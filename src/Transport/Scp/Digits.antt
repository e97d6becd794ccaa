-- ===== src/Transport/Scp/Digits.antt =====
-- The numbers of a record are read back, and its line is cut where it was put together.
use channel_term.Prelude.{
  ℕ, zero, suc, ◌+◌, ◌-◌, ◌*◌, ◌/◌, ◌%◌, ◌^◌, ◌<◌, ◌≡◌, refl, ap, ◌∙◌, arith, false, ◌||◌, some, [],
  ◌∷◌, ◌++◌, ◌==◌, if◌then◌else◌, length, Bytes, pos, lt-or-ge, inl, inr, lt→ltb, ltb-false,
  length-append,
}
use channel_term.Debugger.Mi.Text.{is_digit}
use channel_term.Transport.Scp.Names.{has_byte}
use channel_term.Transport.Scp.Records.{
  line_within, digits_value, parse_mode, sized, positive_int, parse_int, parse_size, cut_space,
}
use channel_term.Transport.Scp.Upload.{octal, decimal_digits, decimal}

pub has_byte-append : (s t : Bytes) (x : ℕ) → has_byte (s ++ t) x ≡ (has_byte s x || has_byte t x)
has_byte-append [] t x = refl
has_byte-append (c ∷ s) t x = ground (arith, has_byte-append s t x)

digits_value-append :
    (n m : ℕ) (s : Bytes) (d : ℕ)
    → d < 10
    → digits_value 10 is_digit n s ≡ some m
    → digits_value 10 is_digit n (s ++ (b'0' + d) ∷ []) ≡ some (m * 10 + d)
unfolding digits_value
digits_value-append n m [] d h e = ground (arith, e)
digits_value-append n m (c ∷ cs) d h e =
    ground (arith, e, digits_value-append (n * 10 + (c - b'0')) m cs d h)

decimal_digits-value : (f n : ℕ) → n < f → digits_value 10 is_digit 0 (decimal_digits f n) ≡ some n
unfolding decimal_digits digits_value
decimal_digits-value zero n h = absurd (omega arith)
decimal_digits-value (suc f) n h = elim (lt-or-ge n 10) [
  | inl small ↦ ground arith
  | inr large ↦
      let ih = decimal_digits-value f (n / 10) (omega arith) in
      let last =
        digits_value-append 0 (n / 10) (decimal_digits f (n / 10)) (n % 10) (omega arith) ih in
      let rest : Bytes = decimal_digits f (n / 10) ++ (b'0' + n % 10) ∷ [] in
      ap (λ b. digits_value 10 is_digit 0 (if b then (b'0' + n) ∷ [] else rest))
        (ltb-false n 10 large)
      ∙ last
      ∙ ap some (omega arith)
]

pub decimal-plain : (f n x : ℕ) → is_digit x ≡ false → has_byte (decimal_digits f n) x ≡ false
unfolding decimal_digits
decimal-plain zero n x h = refl
decimal-plain (suc f) n x h = elim (lt-or-ge n 10) [
  | inl small ↦
      ap (λ b. has_byte (if b then (b'0' + n) ∷ [] else rest) x) (lt→ltb n 10 small)
      ∙ ground (arith, h)
  | inr large ↦
      ap (λ b. has_byte (if b then (b'0' + n) ∷ [] else rest) x) (ltb-false n 10 large)
      ∙ has_byte-append (decimal_digits f (n / 10)) ((b'0' + n % 10) ∷ []) x
      ∙ ground (arith, h, decimal-plain f (n / 10) x h)
]
  where
    rest : Bytes
    rest = decimal_digits f (n / 10) ++ (b'0' + n % 10) ∷ []

decimal_digits-some : (f n : ℕ) → 0 < length (decimal_digits (suc f) n)
unfolding decimal_digits
decimal_digits-some f n =
    ground (arith, length-append (decimal_digits f (n / 10)) ((b'0' + n % 10) ∷ []))

digits_value-digit :
    (n m c : ℕ) (cs : Bytes)
    → digits_value 10 is_digit n (c ∷ cs) ≡ some m
    → ((c == b'+') ≡ false) × ((c == b'-') ≡ false)
unfolding digits_value
digits_value-digit n m c cs e = ground (arith, e)

positive_int-value :
    (c : ℕ) (cs : Bytes) (n : ℕ)
    → digits_value 10 is_digit 0 (c ∷ cs) ≡ some n
    → n < 2 ^ 63
    → positive_int (c ∷ cs) ≡ some (pos n)
positive_int-value c cs n e h = ground (arith, e, h)

unsigned :
    (c : ℕ) (cs : Bytes)
    → ((c == b'+') ≡ false) × ((c == b'-') ≡ false)
    → parse_int (c ∷ cs) ≡ positive_int (c ∷ cs)
unfolding parse_int
unsigned c cs h = ground (arith, h.0, h.1)

pub parse_size-decimal : (n : ℕ) → n < 2 ^ 63 → parse_size (decimal n) ≡ some n
parse_size-decimal n h =
    given (decimal n) (decimal_digits-some n n) (decimal_digits-value (suc n) n (omega arith))
  where
    given :
        (s : Bytes) → 0 < length s → digits_value 10 is_digit 0 s ≡ some n → parse_size s ≡ some n
    given [] l e = absurd (omega arith)
    given (c ∷ cs) l e =
        ap sized (unsigned c cs (digits_value-digit 0 n c cs e) ∙ positive_int-value c cs n e h)

pub parse_mode-octal : (n : ℕ) → n < 512 → parse_mode (octal n) ≡ some n
unfolding digits_value
parse_mode-octal n h = ground (arith, h)

pub cut_space-append :
    (s t : Bytes) → has_byte s b' ' ≡ false → cut_space (s ++ b' ' ∷ t) ≡ some (s, t)
unfolding cut_space
cut_space-append [] t h = refl
cut_space-append (c ∷ s) t h = ground (arith, cut_space-append s t)

pub line_within-append :
    (room : ℕ) (s t : Bytes)
    → has_byte s 10 ≡ false
    → length s < room
    → line_within room (s ++ 10 ∷ t) ≡ some (s, t)
unfolding line_within
line_within-append zero s t h r = absurd (omega arith)
line_within-append (suc room) [] t h r = refl
line_within-append (suc room) (c ∷ s) t h r = ground (arith, line_within-append room s t)
