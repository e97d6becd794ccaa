-- ===== src/Session/Manager/Numbers.antt =====
-- References of one prefix with different numbers are different: the number is read back.
use Prim.Native.Char.{code}
use Prim.Native.String.{String, ◌++◌}
use channel_term.Prelude.{
  ℕ, zero, suc, ◌+◌, ◌-◌, ◌*◌, ◌/◌, ◌%◌, ◌<◌, ◌≡◌, refl, sym, ap, ◌∙◌, arith, inl, inr, lt-or-ge,
}
use text.Mathlib.TextLemmas.{append_cancel_left, nil-append, cons-append}
use channel_term.Session.Manager.Names.{digit, digits, format_uint, reference_name}

unfoldable read_back : String → ℕ → ℕ
read_back String.[] a = a
read_back (String.◌∷◌ c s) a = read_back s (a * 10 + (code c - 48))

read_back-append : (s t : String) (a : ℕ) → read_back (s ++ t) a ≡ read_back t (read_back s a)
unfolding read_back
read_back-append String.[] t a = ap (λ r. read_back r a) (nil-append t)
read_back-append (String.◌∷◌ c s) t a =
    ap (λ r. read_back r a) (cons-append c s t) ∙ read_back-append s t (a * 10 + (code c - 48))

read_back-digit : (d a : ℕ) → d < 10 → read_back (digit d) a ≡ a * 10 + d
unfolding read_back
read_back-digit zero a h = refl
read_back-digit (suc zero) a h = refl
read_back-digit (suc (suc zero)) a h = refl
read_back-digit (suc (suc (suc zero))) a h = refl
read_back-digit (suc (suc (suc (suc zero)))) a h = refl
read_back-digit (suc (suc (suc (suc (suc zero))))) a h = refl
read_back-digit (suc (suc (suc (suc (suc (suc zero)))))) a h = refl
read_back-digit (suc (suc (suc (suc (suc (suc (suc zero))))))) a h = refl
read_back-digit (suc (suc (suc (suc (suc (suc (suc (suc zero)))))))) a h = refl
read_back-digit (suc (suc (suc (suc (suc (suc (suc (suc (suc zero))))))))) a h = refl
read_back-digit (suc (suc (suc (suc (suc (suc (suc (suc (suc (suc d)))))))))) a h =
    absurd (omega arith)

read_back-digits : (f n : ℕ) → n < f → read_back (digits f n) 0 ≡ n
unfolding digits
read_back-digits zero n h = absurd (omega arith)
read_back-digits (suc f) n h = elim (lt-or-ge n 10) [
  | inl small ↦ ground (arith, read_back-digit n 0 small)
  | inr large ↦ ground (
    arith,
    read_back-append (digits f (n / 10)) (digit (n % 10)) 0,
    read_back-digits f (n / 10) (omega arith),
    read_back-digit (n % 10) (read_back (digits f (n / 10)) 0) (omega arith),
  )
]

format_uint-injective : (m n : ℕ) → format_uint m ≡ format_uint n → m ≡ n
format_uint-injective m n e =
    sym (read_back-digits (suc m) m (omega arith))
    ∙ ap (λ s. read_back s 0) e
    ∙ read_back-digits (suc n) n (omega arith)

pub reference_name-injective :
    (prefix : String) (m n : ℕ) → reference_name prefix m ≡ reference_name prefix n → m ≡ n
reference_name-injective prefix m n e =
    format_uint-injective m n (append_cancel_left "-" _ _ (append_cancel_left prefix _ _ e))
