-- ===== src/Lease/Expiry.antt =====
-- Expiry of a lease: `scheduleExpiryLocked`, `stopExpiryLocked`, `expireLocked`, `expire`.
-- A panic (closing a closed channel) is `none`.
use Prim.Native.String.{String}
use channel_term.Prelude.{
  ℕ, ◌+◌, ◌∷◌, Bool, true, false, ◌||◌, not, Option, none, some, ltb, ◌==◌, if◌then◌else◌,
}
use text.Mathlib.Text.{◌==◌ as str_eq}
use channel_term.Lease.State.{
  Lease, is_file_transfer, is_debug, Control, expired, confirming, ControlState, Resolution,
  was_expired, Coordinator,
}

-- `stopExpiryLocked`
abbrev pub stop_expiry : Coordinator → Coordinator
stop_expiry c = record c { timer = none }

-- `scheduleExpiryLocked`
abbrev pub schedule_expiry : Coordinator → Lease → Coordinator
schedule_expiry c l = record c { timer = some l.expires_at }

-- `stopConfirmationTimer`
abbrev pub stop_confirmation_timer : Control → Control
stop_confirmation_timer k = record k { timer = false }

-- A control object with its final state and resolution, its timer stopped and its two channels
-- closed.
abbrev pub settle : Control → ControlState → Option Resolution → Control
settle k s r = record k {
  timer = false;
  state = s;
  resolution = r;
  changed = k.changed + 1;
  released = true;
}

-- Whether expiry of `l` has to close the Session.
abbrev pub aborts : Coordinator → Lease → Bool
aborts c l = ltb 0 c.active_writes || is_debug l.kind || is_file_transfer l.kind

-- `expireLocked` for the session's lease `l`: the new state and `abortSession`. Closing the
-- control's `released` channel panics if it is closed already.
unfoldable pub expire_locked : Coordinator → Lease → Option (Coordinator × Bool)
expire_locked c l =
    let c' = record c {
      lease = none;
      timer = none;
      recovering = (if aborts c l then some l else c.recovering);
    } in
    elim c.control [
      | none ↦ some (c', aborts c l)
      | some k ↦
          if k.released
          then none
          else some (
            record c' {
              control = none;
              settled =
                  settle k expired (some (record { answer = was_expired; progress = k.progress }))
                  ∷ c.settled;
            },
            aborts c l,
          )
    ]

-- The timer callback of `scheduleExpiryLocked`, with the owner and deadline that it captured.
unfoldable pub expire : Coordinator → String → ℕ → ℕ → Option (Coordinator × Option (Lease × Bool))
expire c owner expires_at now = elim c.lease [
  | none ↦ some (c, none)
  | some l ↦
      if not (str_eq l.owner owner) || not (l.expires_at == expires_at) || ltb now l.expires_at
      then some (c, none)
      else elim (expire_locked c l) [ none ↦ none | some (c', abort) ↦ some (c', some (l, abort)) ]
]

abbrev pub is_confirming : ControlState → Bool
is_confirming confirming = true
is_confirming _ = false
