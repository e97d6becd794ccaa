-- ===== src/Cli/Highlight/Vt/Sequences.antt =====
-- Whole sequences: a title leaves no trace, and the shell's size probe is recognized.
use channel_term.Prelude.{
  ℕ, ◌≡◌, refl, ap, ◌∙◌, arith, Bool, true, false, ◌&&◌, ◌||◌, not, Option, none, some, List, [],
  ◌∷◌, ◌++◌, ◌==◌, if◌then◌else◌, take, Bytes,
}
use channel_term.Cli.Highlight.Vt.{
  ground_state, escape, osc, Tracker, size_probe, is_boundary, in_state, feed,
}
use channel_term.Cli.Highlight.Vt.Sgr.{Attributes, plain, is_plain}

-- After a byte: what the rest does.
abbrev pub and_run : Bool → Option (Tracker × List Bool) → Option (Tracker × List Bool)
and_run signal none = none
and_run signal (some (t, signals)) = some (t, signal ∷ signals)

-- The bytes one after another, with their signals.
unfoldable pub run : Tracker → Bytes → Option (Tracker × List Bool)
run t [] = some (t, [])
run t (value ∷ rest) = elim (feed t value) [
  | none ↦ none
  | some (t', signal) ↦ and_run signal (run t' rest)
]

-- A tracker between two sequences.
abbrev pub resting : Bytes → Bool → Attributes → Bool → Tracker
resting parameters alternate a has_text = record {
  state = ground_state;
  csi_parameters = parameters;
  alternate_screen = alternate;
  attributes = a;
  line_has_text = has_text;
  size_probe_offset = 0;
}

abbrev pub silence : Bytes → List Bool
silence [] = []
silence (_ ∷ rest) = false ∷ silence rest

-- The whole probe, on a line without text, outside of the alternate screen and without attributes: the
-- last byte gives the only signal, and the tracker is as before.
pub run-size_probe :
    (parameters : Bytes)
    → run (resting parameters false plain false) size_probe
      ≡ some (resting [] false plain false, silence (take 20 size_probe) ++ true ∷ [])
unfolding run feed in_state is_plain
run-size_probe parameters = refl

-- The bytes that end or abort a title.
abbrev pub ends_title : ℕ → Bool
ends_title value = value == 7 || value == 0x1b || value == 0x18 || value == 0x1a

abbrev pub is_title : Bytes → Bool
is_title [] = true
is_title (b ∷ bs) = not (ends_title b) && is_title bs

abbrev in_title : Bytes → Bool → Attributes → Bool → Tracker
in_title parameters alternate a has_text = record (resting parameters alternate a has_text) {
  state = osc;
}

feed-title :
    (parameters : Bytes) (alternate : Bool) (a : Attributes) (has_text : Bool) (b : ℕ)
    → ends_title b ≡ false
    → feed (in_title parameters alternate a has_text) b
      ≡ some (in_title parameters alternate a has_text, false)
unfolding feed in_state
feed-title parameters alternate a has_text b h = ground (arith, h)

-- The end of the title.
feed-bell :
    (parameters : Bytes) (alternate : Bool) (a : Attributes) (has_text : Bool)
    → feed (in_title parameters alternate a has_text) 7
      ≡ some (
        resting parameters alternate a has_text,
        is_boundary (resting parameters alternate a has_text),
      )
unfolding feed in_state
feed-bell parameters alternate a has_text = refl

run-cons :
    (t t' : Tracker) (value : ℕ) (rest : Bytes) (signal : Bool)
    → feed t value ≡ some (t', signal)
    → run t (value ∷ rest) ≡ and_run signal (run t' rest)
unfolding run
run-cons t t' value rest signal e = rw (e, run)

run-nil : (t : Tracker) → run t [] ≡ some (t, [])
unfolding run
run-nil t = refl

run-title :
    (parameters : Bytes) (alternate : Bool) (a : Attributes) (has_text : Bool) (title : Bytes)
    → is_title title ≡ true
    → run (in_title parameters alternate a has_text) (title ++ 7 ∷ [])
      ≡ some (
        resting parameters alternate a has_text,
        silence title ++ is_boundary (resting parameters alternate a has_text) ∷ [],
      )
run-title parameters alternate a has_text [] h =
    run-cons (in_title parameters alternate a has_text) (resting parameters alternate a has_text) 7
      [] _ (feed-bell parameters alternate a has_text)
    ∙ ap (and_run _) (run-nil (resting parameters alternate a has_text))
run-title parameters alternate a has_text (b ∷ title) h =
    run-cons (in_title parameters alternate a has_text) (in_title parameters alternate a has_text) b
      (title ++ 7 ∷ []) false (feed-title parameters alternate a has_text b (ground (arith, h)))
    ∙ ap (and_run false) (run-title parameters alternate a has_text title (ground (arith, h)))

-- The two bytes that open a title.
abbrev opened : Bytes → Bool → Attributes → Bool → Bool → Tracker
opened parameters alternate a has_text matched = record (resting parameters alternate a has_text) {
  state = escape;
  size_probe_offset = if matched then 1 else 0;
}

feed-escape :
    (parameters : Bytes) (alternate : Bool) (a : Attributes) (has_text : Bool)
    → feed (resting parameters alternate a has_text) 0x1b
      ≡ some (
        opened parameters alternate a has_text
            (is_boundary (resting parameters alternate a has_text)),
        false,
      )
unfolding feed in_state
feed-escape parameters alternate a has_text = refl

feed-bracket :
    (parameters : Bytes) (alternate : Bool) (a : Attributes) (has_text matched : Bool)
    → feed (opened parameters alternate a has_text matched) b']'
      ≡ some (in_title parameters alternate a has_text, false)
unfolding feed in_state
feed-bracket parameters alternate a has_text true = refl
feed-bracket parameters alternate a has_text false = refl

-- A title that a remote program sets, of any bytes but BEL, ESC, CAN and SUB: it neither counts as text
-- nor changes an attribute or the screen, whatever it spells out, and only its end gives a signal,
-- exactly where a prompt may follow.
pub run-window_title :
    (parameters : Bytes) (alternate : Bool) (a : Attributes) (has_text : Bool) (title : Bytes)
    → is_title title ≡ true
    → run (resting parameters alternate a has_text) (0x1b ∷ b']' ∷ (title ++ 7 ∷ []))
      ≡ some (
        resting parameters alternate a has_text,
        false
            ∷ false
            ∷ (silence title ++ is_boundary (resting parameters alternate a has_text) ∷ []),
      )
run-window_title parameters alternate a has_text title h =
    let r = resting parameters alternate a has_text in
    let o = opened parameters alternate a has_text (is_boundary r) in
    run-cons r o 0x1b (b']' ∷ (title ++ 7 ∷ [])) false (feed-escape parameters alternate a has_text)
    ∙ ap (and_run false) (
        run-cons o (in_title parameters alternate a has_text) b']' (title ++ 7 ∷ []) false
          (feed-bracket parameters alternate a has_text (is_boundary r))
        ∙ ap (and_run false) (run-title parameters alternate a has_text title h))
