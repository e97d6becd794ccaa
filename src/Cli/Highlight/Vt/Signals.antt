-- ===== src/Cli/Highlight/Vt/Signals.antt =====
-- A signal is given at a safe point only, and what is kept of a sequence is bounded.
use channel_term.Prelude.{
  ℕ, ◌≤◌, ◌<◌, ◌≡◌, refl, arith, Bool, true, false, ◌&&◌, ◌||◌, Option, none, some, List, [], ◌∷◌,
  ◌==◌, leb, if◌then◌else◌, length, length-append, Bytes, ℤ, pos, negsuc, strip_prefix,
}
use channel_term.Transport.Scp.Records.{parse_int}
use channel_term.Cli.Highlight.Vt.{
  VtState, ground_state, escape, csi, osc, osc_escape, string, string_escape, Tracker, is_boundary,
  to_state, set_mode, set_modes, private_modes, finish_csi, signal_if, quiet, in_ground, reset,
  in_escape, keep_parameter, end_csi, in_csi, in_string, in_string_escape, in_state,
}
use channel_term.Cli.Highlight.Vt.Sgr.{is_plain, split_on, apply_sgr}

-- What is kept of the sequence that is read.
pub record Bounded (t : Tracker) : Type 0 where
  pub parameters : length t.csi_parameters ≤ 128
  pub offset : t.size_probe_offset < 21

-- A signal is given only where a prompt may follow, and what is kept is bounded.
pub record Good (r : Tracker × Bool) : Type 0 where
  pub safe : r.1 ≡ true → is_boundary r.0 ≡ true
  pub bounded : Bounded r.0

pub if-Good : (b : Bool) (r s : Tracker × Bool) → Good r → Good s → Good (if b then r else s)
if-Good true r s p q = p
if-Good false r s p q = q

signal_if-Good : (b : Bool) (t : Tracker) → Bounded t → Good (signal_if b t)
signal_if-Good b t k = record { safe = λ h. ground (arith, h); bounded = k }

pub quiet-Good : (t : Tracker) → Bounded t → Good (quiet t)
quiet-Good t k = record { safe = λ h. absurd (ground (arith, h)); bounded = k }

reset-Good : (t : Tracker) → Bounded t → Good (reset t, true)
unfolding is_plain
reset-Good t k = record {
  safe = λ h. refl;
  bounded = record { parameters = k.parameters; offset = k.offset };
}

to_state-Bounded : (t : Tracker) (s : VtState) → Bounded t → Bounded (to_state t s)
to_state-Bounded t s k = record { parameters = k.parameters; offset = k.offset }

pub emptied-Bounded :
    (t : Tracker) (s : VtState) → Bounded t → Bounded (record t { state = s; csi_parameters = [] })
emptied-Bounded t s k = record { parameters = omega arith; offset = k.offset }

in_ground-Bounded : (t : Tracker) (value : ℕ) → Bounded t → Bounded (in_ground t value)
in_ground-Bounded t value k = record {
  parameters = ground (arith, k.parameters);
  offset = ground (arith, k.offset);
}

in_escape-Good :
    (t : Tracker) (value : ℕ) (complete : Bool) → Bounded t → Good (in_escape t value complete)
in_escape-Good t value complete k =
    if-Good (value == b'8') _ _
      (signal_if-Good complete (to_state t ground_state) (to ground_state))
      (if-Good (value == b'[') _ _
        (quiet-Good (record t { state = csi; csi_parameters = [] }) (emptied-Bounded t csi k))
        (if-Good (value == b']') _ _ (quiet-Good (to_state t osc) (to osc)) (
          if-Good (value == b'P' || value == b'X' || value == b'^' || value == b'_') _ _
            (quiet-Good (to_state t string) (to string))
            (if-Good (value == b'c') _ _ (reset-Good t k) (
              if-Good (value == 0x1b) _ _ (quiet-Good (to_state t escape) (to escape))
                (quiet-Good (to_state t ground_state) (to ground_state)))))))
  where
    to : (s : VtState) → Bounded (to_state t s)
    to s = to_state-Bounded t s k

keep_parameter-Bounded : (t : Tracker) (value : ℕ) → Bounded t → Bounded (keep_parameter t value)
keep_parameter-Bounded t value k = record {
  parameters = ground (arith, k.parameters, length-append t.csi_parameters (value ∷ []));
  offset = ground (arith, k.offset);
}

-- The private modes do not touch what is kept.
set_mode-Bounded :
    (enabled : Bool) (n : Option ℤ) (r : Tracker × Bool)
    → Bounded r.0
    → Bounded (set_mode enabled n r).0
set_mode-Bounded enabled none (t, boundary) k = k
set_mode-Bounded enabled (some (negsuc n)) (t, boundary) k = k
set_mode-Bounded enabled (some (pos mode)) (t, boundary) k = record {
  parameters = ground (arith, k.parameters);
  offset = ground (arith, k.offset);
}

set_modes-Bounded :
    (enabled : Bool) (ps : List Bytes) (r : Tracker × Bool)
    → Bounded r.0
    → Bounded (set_modes enabled ps r).0
unfolding set_modes
set_modes-Bounded enabled [] r k = k
set_modes-Bounded enabled (p ∷ ps) r k =
    set_modes-Bounded enabled ps (set_mode enabled (parse_int p) r)
      (set_mode-Bounded enabled (parse_int p) r k)

private_modes-Bounded :
    (enabled : Bool) (t : Tracker) (o : Option Bytes)
    → Bounded t
    → Bounded (private_modes enabled t o).0
private_modes-Bounded enabled t none k = k
private_modes-Bounded enabled t (some modes) k =
    set_modes-Bounded enabled (split_on b';' modes) (t, true) k

finish_csi-Bounded : (t : Tracker) (final : ℕ) → Bounded t → Bounded (finish_csi t final).0
finish_csi-Bounded t final k = given (final == b'm') (final == b'h' || final == b'l')
  where
    empty : Bounded (record t { csi_parameters = [] })
    empty = emptied-Bounded t t.state k

    given :
        (m private : Bool)
        → Bounded
            (if m
              then (
                record t {
                  csi_parameters = [];
                  attributes = apply_sgr t.csi_parameters t.attributes;
                },
                true,
              )
              else (if private
                  then private_modes
                      (final == b'h')
                      (record t { csi_parameters = [] })
                      (strip_prefix (b'?' ∷ []) t.csi_parameters)
                  else (record t { csi_parameters = [] }, false))).0
    given true private = record { parameters = omega arith; offset = k.offset }
    given false true =
        private_modes-Bounded (final == b'h') (record t { csi_parameters = [] })
          (strip_prefix (b'?' ∷ []) t.csi_parameters) empty
    given false false = empty

end_csi-Good : (r : Tracker × Bool) → Bounded r.0 → Good (end_csi r)
end_csi-Good (t, boundary) k =
    signal_if-Good boundary (to_state t ground_state) (to_state-Bounded t ground_state k)

in_csi-Good : (t : Tracker) (value : ℕ) → Bounded t → Good (in_csi t value)
in_csi-Good t value k =
    if-Good (value == 0x1b) _ _ (quiet-Good (to_state t escape) (to_state-Bounded t escape k)) (
      if-Good (leb 0x30 value && leb value 0x3f) _ _
        (quiet-Good (keep_parameter t value) (keep_parameter-Bounded t value k))
        (if-Good (leb 0x20 value && leb value 0x2f) _ _ (quiet-Good t k) (
          if-Good (leb 0x40 value && leb value 0x7e) _ _
            (end_csi-Good (finish_csi t value) (finish_csi-Bounded t value k))
            (quiet-Good (to_state t ground_state) (to_state-Bounded t ground_state k)))))

pub in_state-Good :
    (s : VtState) (t : Tracker) (value : ℕ) (complete : Bool)
    → Bounded t
    → Good (in_state s t value complete)
unfolding in_state
in_state-Good ground_state t value complete k =
    quiet-Good (in_ground t value) (in_ground-Bounded t value k)
in_state-Good escape t value complete k = in_escape-Good t value complete k
in_state-Good csi t value complete k = in_csi-Good t value k
in_state-Good osc t value complete k =
    if-Good (value == 7) _ _
      (signal_if-Good true (to_state t ground_state) (to_state-Bounded t ground_state k))
      (if-Good (value == 0x1b) _ _
        (quiet-Good (to_state t osc_escape) (to_state-Bounded t osc_escape k)) (quiet-Good t k))
in_state-Good osc_escape t value complete k =
    if-Good (value == b'\\') _ _
      (signal_if-Good true (to_state t ground_state) (to_state-Bounded t ground_state k))
      (if-Good (value == 0x1b) _ _ (quiet-Good t k)
        (quiet-Good (to_state t osc) (to_state-Bounded t osc k)))
in_state-Good string t value complete k =
    quiet-Good (in_string t value)
      (record { parameters = ground (arith, k.parameters); offset = ground (arith, k.offset) })
in_state-Good string_escape t value complete k =
    quiet-Good (in_string_escape t value)
      (record { parameters = ground (arith, k.parameters); offset = ground (arith, k.offset) })
