-- ===== src/Cli/Interactive/Quote.antt =====
-- Every byte can be sent: the escape byte by writing `]` behind it.
use channel_term.Prelude.{
  ℕ, ◌≡◌, refl, sym, ap, ◌∙◌, Bool, true, false, List, [], ◌∷◌, ◌++◌, ◌==◌, ==_iff, if◌then◌else◌,
  Bytes, Bool-cases, inl, inr,
}
use mathlib.Core.List.{append_assoc}
use mathlib.Core.Path.{subst}
use channel_term.Cli.Interactive.{
  quit, help, toggle_prompt_timestamp, file_transfer, cancel_escape, unknown_escape, Action, remote,
  escape_pending, Controller, escape_byte, process,
}
use channel_term.Cli.Interactive.Chunks.{at, bytewise, effects, step, steps, process-steps}

-- The input for a text: each escape byte with a `]` behind it.
unfoldable pub quoted : ℕ → Bytes → Bytes
quoted e [] = []
quoted e (b ∷ bs) = let rest = quoted e bs in if b == e then b ∷ b']' ∷ rest else b ∷ rest

-- The bytes that the actions send.
abbrev pub sent : List Action → Bytes
sent [] = []
sent (remote bs ∷ xs) = bs ++ sent xs
sent (_ ∷ xs) = sent xs

-- Whether the actions do nothing but send.
abbrev pub only_sends : List Action → Bool
only_sends [] = true
only_sends (remote bs ∷ xs) = only_sends xs
only_sends (escape_pending ∷ xs) = only_sends xs
only_sends (_ ∷ xs) = false

sent-append : (xs ys : List Action) → sent (xs ++ ys) ≡ sent xs ++ sent ys
sent-append [] ys = refl
sent-append (remote bs ∷ xs) ys =
    ap (◌++◌ bs) (sent-append xs ys) ∙ sym (append_assoc bs (sent xs) (sent ys))
sent-append (quit ∷ xs) ys = sent-append xs ys
sent-append (help ∷ xs) ys = sent-append xs ys
sent-append (toggle_prompt_timestamp ∷ xs) ys = sent-append xs ys
sent-append (file_transfer ∷ xs) ys = sent-append xs ys
sent-append (escape_pending ∷ xs) ys = sent-append xs ys
sent-append (cancel_escape ∷ xs) ys = sent-append xs ys
sent-append (unknown_escape b ∷ xs) ys = sent-append xs ys

sent-bytewise : (bs : Bytes) → sent (bytewise bs) ≡ bs
sent-bytewise [] = refl
sent-bytewise (b ∷ bs) = ap (◌∷◌ b) (sent-bytewise bs)

sent-effects : (xs : List Action) → sent (effects xs) ≡ sent xs
sent-effects [] = refl
sent-effects (remote bs ∷ xs) =
    sent-append (bytewise bs) (effects xs)
    ∙ ap (λ l. l ++ sent (effects xs)) (sent-bytewise bs)
    ∙ ap (◌++◌ bs) (sent-effects xs)
sent-effects (quit ∷ xs) = sent-effects xs
sent-effects (help ∷ xs) = sent-effects xs
sent-effects (toggle_prompt_timestamp ∷ xs) = sent-effects xs
sent-effects (file_transfer ∷ xs) = sent-effects xs
sent-effects (escape_pending ∷ xs) = sent-effects xs
sent-effects (cancel_escape ∷ xs) = sent-effects xs
sent-effects (unknown_escape b ∷ xs) = sent-effects xs

only_sends-bytewise :
    (bs : Bytes) (xs : List Action) → only_sends (bytewise bs ++ xs) ≡ only_sends xs
only_sends-bytewise [] xs = refl
only_sends-bytewise (b ∷ bs) xs = only_sends-bytewise bs xs

only_sends-effects : (xs : List Action) → only_sends (effects xs) ≡ only_sends xs
only_sends-effects [] = refl
only_sends-effects (remote bs ∷ xs) = only_sends-bytewise bs (effects xs) ∙ only_sends-effects xs
only_sends-effects (quit ∷ xs) = refl
only_sends-effects (help ∷ xs) = refl
only_sends-effects (toggle_prompt_timestamp ∷ xs) = refl
only_sends-effects (file_transfer ∷ xs) = refl
only_sends-effects (escape_pending ∷ xs) = only_sends-effects xs
only_sends-effects (cancel_escape ∷ xs) = refl
only_sends-effects (unknown_escape b ∷ xs) = refl

-- What the bytes of a quoted text do.
abbrev Sends : Controller → Bytes → Controller × List Action → Type 0
Sends c s (c', xs) = (c' ≡ c) × (sent xs ≡ s) × (only_sends xs ≡ true)

steps-quoted :
    (e : ℕ) (s : Bytes)
    → Sends (at e false) s (steps (at e false) (quoted (escape_byte (at e false)) s))
unfolding steps step quoted
steps-quoted e [] = (refl, refl, refl)
steps-quoted e (b ∷ s) = elim (Bool-cases (b == escape_byte (at e false))) [
  | inl escapes ↦
      let (same, all, only) = steps-quoted e s in
      rw escapes (
        rw escapes (
          same,
          ap (◌∷◌ (escape_byte (at e false))) all ∙ ap (λ x. x ∷ s) (sym ((==_iff b _).0 escapes)),
          only,
        ))
  | inr plain ↦
      let (same, all, only) = steps-quoted e s in rw plain (rw plain (same, ap (◌∷◌ b) all, only))
]

-- What `Process` makes of the quoted form of a text.
abbrev Transparent : Controller → Bytes → Type 0
Transparent c s = Sends c s (process c (quoted (escape_byte c) s))

transparent : (e : ℕ) (s : Bytes) → Transparent (at e false) s
transparent e s =
    let whole = process-steps (at e false) (quoted (escape_byte (at e false)) s) in
    let xs = (process (at e false) (quoted (escape_byte (at e false)) s)).1 in
    let (same, all, only) = steps-quoted e s in
    (
      ap (λ r. r.0) whole ∙ same,
      sym (sent-effects xs) ∙ ap (λ r. sent r.1) whole ∙ all,
      sym (only_sends-effects xs) ∙ ap (λ r. only_sends r.1) whole ∙ only,
    )

-- From a controller that is not in escape mode, the quoted form of a text is sent as that text, every
-- byte value included; apart from the notices of escape mode there is no local action, and the
-- controller is as before.
pub process-quoted :
    (c : Controller) (s : Bytes)
    → c.pending ≡ false
    → let (c', xs) = process c (quoted (escape_byte c) s) in
      (c' ≡ c) × (sent xs ≡ s) × (only_sends xs ≡ true)
process-quoted c s h =
    subst (λ c. Transparent c s) (sym (ap (at c.escape_byte) h)) (transparent c.escape_byte s)
