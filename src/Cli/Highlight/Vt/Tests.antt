-- ===== src/Cli/Highlight/Vt/Tests.antt =====
-- Colours, a reset, and a size probe behind a saved cursor.
use channel_term.Prelude.{◌≤◌, ◌≡◌, refl, Bool, true, false, some, [], ◌∷◌, length, Bytes}
use channel_term.Transport.Scp.Records.{parse_int, digits_value}
use channel_term.Cli.Highlight.Vt.{
  Tracker, ground_state, escape, csi, new_tracker, size_probe, feed, in_state,
}
use channel_term.Cli.Highlight.Vt.Sgr.{
  plain, is_plain, apply_sgr, apply_parts, split_on, before_colon, set_code,
}
use channel_term.Cli.Highlight.Vt.Sequences.{run, resting, silence}
use channel_term.Cli.Highlight.Vt.Safe.{Fed, fresh, fed, flushed, AreUnset, tracker_safe}

-- 1;38;5;0;41: the zero belongs to the extended colour.
colours :
    apply_sgr
      (b'1' ∷ b';' ∷ b'3' ∷ b'8' ∷ b';' ∷ b'5' ∷ b';' ∷ b'0' ∷ b';' ∷ b'4' ∷ b'1' ∷ [])
      plain
    ≡ record plain { intensity = true; foreground = true; background = true }
unfolding apply_parts split_on before_colon parse_int digits_value set_code
colours = refl

-- The states of ESC [ m.
abbrev escaped : Tracker
escaped = record new_tracker { state = escape; size_probe_offset = 1 }

abbrev in_sequence : Tracker
in_sequence = record new_tracker { state = csi }

fed_reset : Fed (b'm' ∷ b'[' ∷ 0x1b ∷ []) new_tracker true
unfolding feed in_state is_plain
fed_reset =
    fed b'm' (fed {t' = in_sequence} b'[' (fed {t' = escaped} 0x1b (flushed fresh) refl) refl) refl

tracker_safe_example :
    (true ≡ true
      → (new_tracker.state ≡ ground_state)
        × (new_tracker.alternate_screen ≡ false)
        × AreUnset new_tracker.attributes
        × (new_tracker.line_has_text ≡ false))
    × (length new_tracker.csi_parameters ≤ 128)
    × ((r : Tracker × Bool) × (feed new_tracker 0x1b ≡ some r))
tracker_safe_example = tracker_safe 0x1b fed_reset

-- A title that spells out the sequence for bold text, without its escape.
abbrev title : Bytes
title = b'[' ∷ b'1' ∷ b'm' ∷ 10 ∷ []

-- A saved cursor directly before the probe hides it: no byte gives a signal.
saved_cursor_hides_probe :
    run (resting [] false plain false) (0x1b ∷ b'7' ∷ size_probe)
    ≡ some (resting [] false plain false, silence (0x1b ∷ b'7' ∷ size_probe))
unfolding run feed in_state is_plain
saved_cursor_hides_probe = refl
