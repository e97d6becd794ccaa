-- ===== src/Cli/Highlight/Vt.antt =====
-- internal/cli/highlight/vt.go: what is tracked of the terminal's state. The `uint16` of attributes is a
-- record with a flag for each bit.
pub mod Sgr
pub mod Signals
pub mod Safe
pub mod Sequences
mod Tests
use channel_term.Prelude.{
  ℕ, zero, suc, ◌≤◌, Bool, true, false, ◌&&◌, ◌||◌, not, Option, none, some, List, [], ◌∷◌, ◌++◌,
  ◌==◌, ltb, leb, if◌then◌else◌, length, get_elem?, Bytes, ℤ, pos, negsuc, strip_prefix,
}
use channel_term.Transport.Scp.Records.{parse_int}
use channel_term.Cli.Highlight.Vt.Sgr.{Attributes, plain, is_plain, split_on, apply_sgr}

pub data VtState : Type 0 where
  ground_state escape csi osc osc_escape string string_escape : VtState

-- `vtTracker`
pub record Tracker : Type 0 where
  pub state : VtState
  pub csi_parameters : Bytes
  pub alternate_screen : Bool
  pub attributes : Attributes
  pub line_has_text : Bool
  pub size_probe_offset : ℕ

abbrev pub new_tracker : Tracker
new_tracker = record {
  state = ground_state;
  csi_parameters = [];
  alternate_screen = false;
  attributes = plain;
  line_has_text = false;
  size_probe_offset = 0;
}

-- `maxCSIParameterBytes`
abbrev pub max_parameters : ℕ
max_parameters = 128

-- `shellSizeProbe`
abbrev pub size_probe : Bytes
size_probe =
    0x1b ∷ b'7' ∷ 0x1b ∷ b'[' ∷ b'r' ∷ 0x1b ∷ b'[' ∷ b'9' ∷ b'9' ∷ b'9' ∷ b';' ∷ b'9' ∷ b'9' ∷ b'9'
    ∷ b'H' ∷ 0x1b ∷ b'[' ∷ b'6' ∷ b'n' ∷ 0x1b ∷ b'8' ∷ []

abbrev pub is_ground : VtState → Bool
is_ground ground_state = true
is_ground _ = false

-- `canResumeHighlighting`
abbrev pub can_resume : Tracker → Bool
can_resume t = is_ground t.state && not t.alternate_screen && is_plain t.attributes

-- A prompt may follow here.
abbrev pub is_boundary : Tracker → Bool
is_boundary t = not t.line_has_text && can_resume t

-- The offset in the probe after a byte that does not go on with it.
abbrev pub restart : Tracker → ℕ → ℕ
restart t value = if value == 0x1b && is_boundary t then 1 else 0

abbrev pub advance : ℕ → ℕ × Bool
advance offset = if offset == length size_probe then (0, true) else (offset, false)

abbrev pub follow : Tracker → ℕ → Option ℕ → Option (ℕ × Bool)
follow t value none = none
follow t value (some b) =
    some (if value == b then advance (suc t.size_probe_offset) else (restart t value, false))

-- The offset in the probe, and whether it is complete; `none` is an index out of range.
abbrev pub probe : Tracker → ℕ → Option (ℕ × Bool)
probe t value =
    if ltb 0 t.size_probe_offset
    then follow t value (get_elem? size_probe t.size_probe_offset)
    else some (restart t value, false)

abbrev pub to_state : Tracker → VtState → Tracker
to_state t s = record t { state = s }

abbrev pub is_text : ℕ → Bool
is_text value = leb 0x20 value && not (value == 0x7f)

-- A mode of `CSI ?` after another, with whether all so far leave a prompt boundary.
abbrev pub set_mode : Bool → Option ℤ → Tracker × Bool → Tracker × Bool
set_mode enabled none (t, boundary) = (t, false)
set_mode enabled (some (negsuc _)) (t, boundary) = (t, false)
set_mode enabled (some (pos mode)) (t, boundary) =
    if mode == 25 || mode == 2004
    then (t, boundary)
    else (if mode == 47 || mode == 1047 || mode == 1049
        then (record t { alternate_screen = enabled }, boundary && not enabled)
        else (t, false))

unfoldable pub set_modes : Bool → List Bytes → Tracker × Bool → Tracker × Bool
set_modes enabled [] r = r
set_modes enabled (p ∷ ps) r = set_modes enabled ps (set_mode enabled (parse_int p) r)

abbrev pub private_modes : Bool → Tracker → Option Bytes → Tracker × Bool
private_modes enabled t none = (t, false)
private_modes enabled t (some modes) = set_modes enabled (split_on b';' modes) (t, true)

-- `finishCSI`
abbrev pub finish_csi : Tracker → ℕ → Tracker × Bool
finish_csi t final =
    let parameters = t.csi_parameters in
    let t' = record t { csi_parameters = [] } in
    if final == b'm'
    then (record t' { attributes = apply_sgr parameters t.attributes }, true)
    else (if final == b'h' || final == b'l'
        then private_modes (final == b'h') t' (strip_prefix (b'?' ∷ []) parameters)
        else (t', false))

-- Whether a signal is given, in the state after a byte.
abbrev pub signal_if : Bool → Tracker → Tracker × Bool
signal_if b t = (t, b && is_boundary t)

abbrev pub quiet : Tracker → Tracker × Bool
quiet t = (t, false)

abbrev pub in_ground : Tracker → ℕ → Tracker
in_ground t value =
    if value == 0x1b
    then to_state t escape
    else (if value == 10
        then record t { line_has_text = false }
        else (if is_text value then record t { line_has_text = true } else t))

-- RIS resets the terminal.
abbrev pub reset : Tracker → Tracker
reset t = record t {
  state = ground_state;
  alternate_screen = false;
  attributes = plain;
  line_has_text = false;
}

abbrev pub in_escape : Tracker → ℕ → Bool → Tracker × Bool
in_escape t value complete =
    if value == b'8'
    then signal_if complete (to_state t ground_state)
    else (if value == b'['
        then quiet (record t { state = csi; csi_parameters = [] })
        else (if value == b']'
            then quiet (to_state t osc)
            else (if value == b'P' || value == b'X' || value == b'^' || value == b'_'
                then quiet (to_state t string)
                else (if value == b'c'
                    then (reset t, true)
                    else (if value == 0x1b
                        then quiet (to_state t escape)
                        else quiet (to_state t ground_state))))))

abbrev pub keep_parameter : Tracker → ℕ → Tracker
keep_parameter t value =
    if ltb (length t.csi_parameters) max_parameters
    then record t { csi_parameters = t.csi_parameters ++ value ∷ [] }
    else t

abbrev pub end_csi : Tracker × Bool → Tracker × Bool
end_csi (t, boundary) = signal_if boundary (to_state t ground_state)

abbrev pub in_csi : Tracker → ℕ → Tracker × Bool
in_csi t value =
    if value == 0x1b
    then quiet (to_state t escape)
    else (if leb 0x30 value && leb value 0x3f
        then quiet (keep_parameter t value)
        else (if leb 0x20 value && leb value 0x2f
            then quiet t
            else (if leb 0x40 value && leb value 0x7e
                then end_csi (finish_csi t value)
                else quiet (to_state t ground_state))))

abbrev pub in_osc : Tracker → ℕ → Tracker × Bool
in_osc t value =
    if value == 7
    then signal_if true (to_state t ground_state)
    else (if value == 0x1b then quiet (to_state t osc_escape) else quiet t)

abbrev pub in_osc_escape : Tracker → ℕ → Tracker × Bool
in_osc_escape t value =
    if value == b'\\'
    then signal_if true (to_state t ground_state)
    else (if value == 0x1b then quiet t else quiet (to_state t osc))

abbrev pub in_string : Tracker → ℕ → Tracker
in_string t value = if value == 0x1b then to_state t string_escape else t

abbrev pub in_string_escape : Tracker → ℕ → Tracker
in_string_escape t value =
    if value == b'\\'
    then to_state t ground_state
    else (if value == 0x1b then t else to_state t string)

-- The byte in the parser's state, with whether it completes the probe.
unfoldable pub in_state : VtState → Tracker → ℕ → Bool → Tracker × Bool
in_state ground_state t value complete = quiet (in_ground t value)
in_state escape t value complete = in_escape t value complete
in_state csi t value complete = in_csi t value
in_state osc t value complete = in_osc t value
in_state osc_escape t value complete = in_osc_escape t value
in_state string t value complete = quiet (in_string t value)
in_state string_escape t value complete = quiet (in_string_escape t value)

-- `feed`, once the probe has been looked at.
abbrev pub feed_with : Tracker → ℕ → Option (ℕ × Bool) → Option (Tracker × Bool)
feed_with t value none = none
feed_with t value (some (offset, complete)) =
    let t' = record t { size_probe_offset = offset } in
    some (
      if value == 0x18 || value == 0x1a
      then quiet (record t' { state = ground_state; csi_parameters = [] })
      else in_state t.state t' value complete)

-- `feed`; `none` is a panic.
unfoldable pub feed : Tracker → ℕ → Option (Tracker × Bool)
feed t value = feed_with t value (probe t value)
