-- ===== src/Cli/Highlight/Vt/Safe.antt =====
-- A tracker in use: it never reads out of range, and its signals can be relied on.
use mathlib.Core.Path.{subst}
use mathlib.Core.Option.{some-injective}
use channel_term.Prelude.{
  ℕ, zero, suc, ◌≤◌, ◌<◌, ◌≡◌, refl, sym, ◌∙◌, arith, Bool, true, false, ◌&&◌, ◌||◌, Option, none,
  some, [], ◌∷◌, ◌==◌, ltb, if◌then◌else◌, length, get_elem?, Bytes, Bool-cases, inl, inr,
}
use channel_term.Cli.Highlight.Vt.{
  ground_state, Tracker, new_tracker, size_probe, is_boundary, restart, advance, follow, probe,
  feed_with, feed,
}
use channel_term.Cli.Highlight.Vt.Sgr.{Attributes, is_plain}
use channel_term.Cli.Highlight.Vt.Signals.{
  Bounded, Good, if-Good, quiet-Good, emptied-Bounded, in_state-Good,
}

get_elem?-below : (xs : Bytes) (k : ℕ) → k < length xs → (b : ℕ) × (get_elem? xs k ≡ some b)
get_elem?-below [] k h = absurd (omega arith)
get_elem?-below (x ∷ xs) zero h = (x, refl)
get_elem?-below (x ∷ xs) (suc k) h = get_elem?-below xs k (omega arith)

-- An offset within the probe, and no panic.
abbrev Within : Option (ℕ × Bool) → Type 0
Within none = ⊥
Within (some (offset, complete)) = offset < 21

restart-small : (t : Tracker) (value : ℕ) → restart t value < 21
restart-small t value = given (value == 0x1b && is_boundary t)
  where
    given : (b : Bool) → (if b then 1 else 0) < 21
    given true = omega arith
    given false = omega arith

advance-Within : (offset : ℕ) → offset < 22 → Within (some (advance offset))
advance-Within offset h = elim (Bool-cases (offset == 21)) [
  | inl full ↦ rw full (omega arith)
  | inr more ↦ rw more (ground (arith, more))
]

follow-Within : (t : Tracker) (value b : ℕ) → Bounded t → Within (follow t value (some b))
follow-Within t value b k = elim (Bool-cases (value == b)) [
  | inl goes ↦ rw goes (advance-Within (suc t.size_probe_offset) (omega (arith, k.offset)))
  | inr stops ↦ rw stops (restart-small t value)
]

-- The probe is never read out of range, and its offset stays within it.
probe-Within : (t : Tracker) (value : ℕ) → Bounded t → Within (probe t value)
probe-Within t value k = given (ltb 0 t.size_probe_offset)
  where
    given :
        (b : Bool)
        → Within (
            if b
            then follow t value (get_elem? size_probe t.size_probe_offset)
            else some (restart t value, false))
    given true =
        let (b, found) = get_elem?-below size_probe t.size_probe_offset k.offset in
        subst (λ o. Within (follow t value o)) (sym found) (follow-Within t value b k)
    given false = restart-small t value

feed_with-Good :
    (t : Tracker) (value : ℕ) (o : Option (ℕ × Bool))
    → Bounded t
    → Within o
    → (r : Tracker × Bool) × (feed_with t value o ≡ some r) × Good r
feed_with-Good t value none k w = absurd w
feed_with-Good t value (some (offset, complete)) k w = (
  _,
  refl,
  if-Good (value == 0x18 || value == 0x1a) _ _
      (quiet-Good (record moved { state = ground_state; csi_parameters = [] })
        (emptied-Bounded moved ground_state kept))
      (in_state-Good t.state moved value complete kept),
)
  where
    moved : Tracker
    moved = record t { size_probe_offset = offset }

    kept : Bounded moved
    kept = record { parameters = k.parameters; offset = w }

-- One byte, in any state: `feed` does not panic.
pub feed-Good :
    (t : Tracker) (value : ℕ) → Bounded t → (r : Tracker × Bool) × (feed t value ≡ some r) × Good r
unfolding feed
feed-Good t value k = feed_with-Good t value (probe t value) k (probe-Within t value k)

-- The bytes that have been fed to a new tracker, the last one first, and whether the last one gave
-- a signal. Between two bytes `Flush` can make a line of its own of what comes next.
pub data Fed : Bytes → Tracker → Bool → Type 0 where
  fresh : Fed [] new_tracker false
  fed :
      {bytes : Bytes} {t t' : Tracker} {before signal : Bool} (value : ℕ)
      → Fed bytes t before
      → feed t value ≡ some (t', signal)
      → Fed (value ∷ bytes) t' signal
  flushed :
      {bytes : Bytes} {t : Tracker} {signal : Bool}
      → Fed bytes t signal
      → Fed bytes (record t { line_has_text = false }) false

pub new-Bounded : Bounded new_tracker
new-Bounded = record { parameters = omega arith; offset = omega arith }

Fed-Good : {bytes : Bytes} {t : Tracker} {signal : Bool} → Fed bytes t signal → Good (t, signal)
Fed-Good fresh = record { safe = λ h. absurd (ground (arith, h)); bounded = new-Bounded }
Fed-Good (fed {t = t} value before e) =
    let (r, e', good) = feed-Good t value (Fed-Good before).bounded in
    subst Good (some-injective _ _ (sym e' ∙ e)) good
Fed-Good (flushed before) =
    let k = (Fed-Good before).bounded in
    record {
      safe = λ h. absurd (ground (arith, h));
      bounded = record { parameters = k.parameters; offset = k.offset };
    }

-- The attributes of a terminal that nothing has set.
abbrev pub AreUnset : Attributes → Type 0
AreUnset a =
    (a.intensity ≡ false)
    × (a.italic ≡ false)
    × (a.underline ≡ false)
    × (a.blink ≡ false)
    × (a.inverse ≡ false)
    × (a.conceal ≡ false)
    × (a.strike ≡ false)
    × (a.frame ≡ false)
    × (a.overline ≡ false)
    × (a.foreground ≡ false)
    × (a.background ≡ false)
    × (a.underline_color ≡ false)
    × (a.unknown ≡ false)

is_plain-AreUnset : (a : Attributes) → is_plain a ≡ true → AreUnset a
unfolding is_plain
is_plain-AreUnset a h = ground arith

at_boundary :
    (t : Tracker)
    → is_boundary t ≡ true
    → (t.state ≡ ground_state)
      × (t.alternate_screen ≡ false)
      × AreUnset t.attributes
      × (t.line_has_text ≡ false)
at_boundary t h =
    (ground arith, ground arith, is_plain-AreUnset t.attributes (ground arith), ground arith)

-- Whatever bytes a new tracker has been fed, and however it was flushed between them: a signal after
-- the last of them means that no sequence is under way, the alternate screen is off, no attribute is
-- set and the line has no text; the next byte of any value does not read out of range; and at most
-- 128 bytes of parameters are kept.
pub tracker_safe :
    {bytes : Bytes} {t : Tracker} {signal : Bool} (value : ℕ)
    → Fed bytes t signal
    → (signal ≡ true
        → (t.state ≡ ground_state)
          × (t.alternate_screen ≡ false)
          × AreUnset t.attributes
          × (t.line_has_text ≡ false))
      × (length t.csi_parameters ≤ 128)
      × ((r : Tracker × Bool) × (feed t value ≡ some r))
tracker_safe {t = t} value before =
    let good = Fed-Good before in
    let (r, e, _) = feed-Good t value good.bounded in
    (λ h. at_boundary t (good.safe h), good.bounded.parameters, (r, e))
