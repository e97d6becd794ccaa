-- ===== src/Cli/Interactive/Tests.antt =====
-- An input with local commands in it, and a text with the escape byte in it.
use channel_term.Prelude.{◌≡◌, refl, true, [], ◌∷◌, ◌++◌}
use channel_term.Cli.Interactive.{
  remote, help, escape_pending, Controller, new_controller, process, process_from,
}
use channel_term.Cli.Interactive.Chunks.{effects, effects_of, process-append}
use channel_term.Cli.Interactive.Quote.{quoted, sent, only_sends, process-quoted}

abbrev fresh : Controller
fresh = new_controller 0

mixed :
    (process fresh (b'l' ∷ b's' ∷ 0x1d ∷ b'?' ∷ 13 ∷ 0x1d ∷ 3 ∷ [])).1
    ≡ remote (b'l' ∷ b's' ∷ [])
      ∷ escape_pending
      ∷ help
      ∷ remote (13 ∷ [])
      ∷ escape_pending
      ∷ remote (3 ∷ [])
      ∷ []
unfolding process_from
mixed = refl

-- The escape byte ends the first chunk.
process-append_example :
    let (c', first) = process fresh (b'a' ∷ 0x1d ∷ []) in
    let (c'', second) = process c' (b'q' ∷ []) in
    effects_of (process fresh (b'a' ∷ 0x1d ∷ b'q' ∷ [])) ≡ (c'', effects (first ++ second))
process-append_example = process-append fresh (b'a' ∷ 0x1d ∷ []) (b'q' ∷ [])

process-quoted_example :
    let (c', xs) = process fresh (quoted 0x1d (b'a' ∷ 0x1d ∷ b'b' ∷ [])) in
    (c' ≡ fresh) × (sent xs ≡ b'a' ∷ 0x1d ∷ b'b' ∷ []) × (only_sends xs ≡ true)
process-quoted_example = process-quoted fresh (b'a' ∷ 0x1d ∷ b'b' ∷ []) refl
