-- ===== src/Cli/Interactive/Chunks.antt =====
-- What an input means does not depend on how it is cut into chunks.
use mathlib.Core.List.{append_assoc, append-nil}
use channel_term.Prelude.{
  ℕ, ◌≡◌, refl, sym, ap, ◌∙◌, Bool, true, false, List, [], ◌∷◌, ◌++◌, ◌==◌, if◌then◌else◌, Bytes,
  Bool-cases, inl, inr,
}
use channel_term.Cli.Interactive.{
  Action, remote, escape_pending, Controller, escape_byte, command, flush_remote, set_pending, emit,
  process_from, process,
}

-- The actions one by one, with a `remote` action of one byte for each byte that it sends.
abbrev pub bytewise : Bytes → List Action
bytewise [] = []
bytewise (b ∷ bs) = remote (b ∷ []) ∷ bytewise bs

abbrev pub spread : Action → List Action
spread (remote bs) = bytewise bs
spread a = a ∷ []

abbrev pub effects : List Action → List Action
effects [] = []
effects (a ∷ xs) = spread a ++ effects xs

-- What one byte does.
unfoldable pub step : Controller → ℕ → Controller × List Action
step c value =
    if c.pending
    then (set_pending c false, spread (command c value))
    else (if value == escape_byte c
        then (set_pending c true, escape_pending ∷ [])
        else (c, remote (value ∷ []) ∷ []))

-- What the bytes do one after another.
unfoldable pub steps : Controller → Bytes → Controller × List Action
steps c [] = (c, [])
steps c (value ∷ rest) = let (c', xs) = step c value in emit xs (steps c' rest)

effects-append : (xs bs : List Action) → effects (xs ++ bs) ≡ effects xs ++ effects bs
effects-append [] bs = refl
effects-append (a ∷ xs) bs =
    ap (◌++◌ (spread a)) (effects-append xs bs)
    ∙ sym (append_assoc (spread a) (effects xs) (effects bs))

bytewise-append : (s t : Bytes) → bytewise (s ++ t) ≡ bytewise s ++ bytewise t
bytewise-append [] t = refl
bytewise-append (b ∷ s) t = ap (◌∷◌ (remote (b ∷ []))) (bytewise-append s t)

effects-flush : (run : Bytes) → effects (flush_remote run) ≡ bytewise run
effects-flush [] = refl
effects-flush (b ∷ run) = append-nil (bytewise (b ∷ run))

abbrev pub effects_of : Controller × List Action → Controller × List Action
effects_of (c, xs) = (c, effects xs)

emit-emit :
    (xs bs : List Action) (r : Controller × List Action) → emit xs (emit bs r) ≡ emit (xs ++ bs) r
emit-emit xs bs (c, cs) = ap (λ l. (c, l)) (sym (append_assoc xs bs cs))

effects_of-emit :
    (xs : List Action) (r : Controller × List Action)
    → effects_of (emit xs r) ≡ emit (effects xs) (effects_of r)
effects_of-emit xs (c, bs) = ap (λ l. (c, l)) (effects-append xs bs)

-- The bytes since `remoteStart` are sent, and then one action comes.
effects-flushed :
    (run : Bytes) (a : Action) → effects (flush_remote run ++ a ∷ []) ≡ bytewise run ++ spread a
effects-flushed run a =
    effects-append (flush_remote run) (a ∷ [])
    ∙ ap (λ l. l ++ (spread a ++ [])) (effects-flush run)
    ∙ ap (◌++◌ (bytewise run)) (append-nil (spread a))

flushed-steps :
    (c : Controller) (run : Bytes) (a : Action) (r s : Controller × List Action)
    → effects_of r ≡ emit [] s
    → effects_of (emit (flush_remote run ++ a ∷ []) r) ≡ emit (bytewise run) (emit (spread a) s)
flushed-steps c run a r s h =
    effects_of-emit (flush_remote run ++ a ∷ []) r
    ∙ ap (λ l. emit l (effects_of r)) (effects-flushed run a)
    ∙ ap (emit (bytewise run ++ spread a)) h
    ∙ sym (emit-emit (bytewise run) (spread a) s)

abbrev pub at : ℕ → Bool → Controller
at e pending = record { escape_byte = e; pending = pending }

process_from-steps :
    (e : ℕ) (pending : Bool) (run bytes : Bytes)
    → effects_of (process_from (at e pending) run bytes)
      ≡ emit (bytewise run) (steps (at e pending) bytes)
unfolding process_from steps step
process_from-steps e pending run [] =
    ap (λ l. (at e pending, l)) (effects-flush run ∙ sym (append-nil (bytewise run)))
process_from-steps e true run (value ∷ rest) =
    flushed-steps (at e true) run (command (at e true) value) (process_from (at e false) [] rest)
      (steps (at e false) rest) (process_from-steps e false [] rest)
process_from-steps e false run (value ∷ rest) =
    elim (Bool-cases (value == escape_byte (at e false))) [
      | inl escapes ↦ rw escapes (
          flushed-steps (at e false) run escape_pending (process_from (at e true) [] rest)
            (steps (at e true) rest) (process_from-steps e true [] rest))
      | inr plain ↦ rw plain (
          process_from-steps e false (run ++ value ∷ []) rest
          ∙ ap (λ l. emit l (steps (at e false) rest)) (bytewise-append run (value ∷ []))
          ∙ sym (emit-emit (bytewise run) (remote (value ∷ []) ∷ []) (steps (at e false) rest)))
    ]

-- `Process` does what its bytes do one after another.
pub process-steps : (c : Controller) (bytes : Bytes) → effects_of (process c bytes) ≡ steps c bytes
process-steps c bytes = process_from-steps c.escape_byte c.pending [] bytes

pub steps-append :
    (c : Controller) (s t : Bytes)
    → steps c (s ++ t) ≡ (let (c', xs) = steps c s in emit xs (steps c' t))
unfolding steps
steps-append c [] t = refl
steps-append c (value ∷ s) t =
    ap (emit (step c value).1) (steps-append (step c value).0 s t)
    ∙ emit-emit (step c value).1 (steps (step c value).0 s).1 _

-- However an input is cut in two, the two calls of `Process` together end in the same state as one
-- call on the whole of it, and mean the same: the same local actions and the same bytes to the remote
-- side, in one order.
pub process-append :
    (c : Controller) (s t : Bytes)
    → let (c', first) = process c s in
      let (c'', second) = process c' t in
      effects_of (process c (s ++ t)) ≡ (c'', effects (first ++ second))
process-append c s t =
    process-steps c (s ++ t)
    ∙ steps-append c s t
    ∙ ap (λ r. emit r.1 (steps r.0 t)) (sym (process-steps c s))
    ∙ ap (emit (effects (process c s).1)) (sym (process-steps (process c s).0 t))
    ∙ ap (λ l. ((process (process c s).0 t).0, l))
        (sym (effects-append (process c s).1 (process (process c s).0 t).1))
