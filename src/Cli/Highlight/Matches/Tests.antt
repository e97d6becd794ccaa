-- ===== src/Cli/Highlight/Matches/Tests.antt =====
-- A match inside of a longer one of lower priority.
use channel_term.Prelude.{◌≡◌, refl, arith, some, List, [], ◌∷◌, Bytes, length}
use channel_term.Cli.Highlight.Matches.{Piece, raw, styled, Match, render_matches, render_from}
use channel_term.Cli.Highlight.Matches.Disjoint.{All}
use channel_term.Cli.Highlight.Matches.Ordered.{Ranged}
use channel_term.Cli.Highlight.Matches.Rendered.{text_of, render_matches-text}

abbrev line : Bytes
line = b'a' ∷ b'b' ∷ b'c' ∷ b'd' ∷ b'e' ∷ []

abbrev outer : Match
outer = record { start = 1; stop = 5; style = b'O' ∷ []; priority = 1 }

abbrev inner : Match
inner = record { start = 2; stop = 3; style = b'I' ∷ []; priority = 2 }

nested :
    render_matches line (outer ∷ inner ∷ [])
    ≡ some (
        raw (b'a' ∷ [])
        ∷ styled (b'O' ∷ []) (b'b' ∷ [])
        ∷ raw []
        ∷ styled (b'I' ∷ []) (b'c' ∷ [])
        ∷ raw []
        ∷ styled (b'O' ∷ []) (b'd' ∷ b'e' ∷ [])
        ∷ raw []
        ∷ [])
unfolding render_matches render_from
nested = refl

nested-Ranged : All (Ranged (length line)) (outer ∷ inner ∷ [])
nested-Ranged = omega arith

render_matches-text_example :
    (ps : List Piece) × (render_matches line (outer ∷ inner ∷ []) ≡ some ps) × (text_of ps ≡ line)
render_matches-text_example = render_matches-text line (outer ∷ inner ∷ []) nested-Ranged
