-- ===== src/Session/Lifecycle/Access.antt =====
-- internal/core/session/session.go: the reads of the three histories, `PublishEvent` and `Resize`, which
-- look at the lifecycle state first, and the accessors.
use Prim.Native.String.{String}
use channel_term.Prelude.{
  Bool, ℕ, ◌||◌, not, Option, none, some, some, List, ◌==◌, if◌then◌else◌, ℤ,
}
use channel_term.Lease.Text.{is_empty}
use channel_term.Session.Stream.{StreamError, resize_unsupported, not_open, Result, err, Wake}
use channel_term.Session.Receive
use channel_term.Session.Activity
use channel_term.Session.Events
use channel_term.Session.Lifecycle.{
  State, fresh, connecting, opened, closing, closed, failed, Core, is_open,
}

abbrev gated {ℓ} : {A : Type ℓ} → Core → Option (Result A) → Option (Result A)
gated s r = if is_open s.state then r else some (err not_open)

abbrev gated_recent {ℓ} : {A : Type ℓ} → Core → Result A → Result A
gated_recent s r = if is_open s.state then r else err not_open

unfoldable pub read_output :
    Core → ℕ → ℤ → List (Wake Receive.Buffer) → Option (Result Receive.Chunk)
read_output s next limit ws = gated s (Receive.read_output s.receive next limit ws)

unfoldable pub read_recent : Core → ℤ → Result Receive.Chunk
read_recent s limit = gated_recent s (Receive.read_recent s.receive limit)

unfoldable pub read_activity :
    Core → ℕ → ℤ → List (Wake Activity.Buffer) → Option (Result Activity.Chunk)
read_activity s next limit ws = gated s (Activity.read_activity s.activity next limit ws)

unfoldable pub read_recent_activity : Core → ℤ → Result Activity.Chunk
read_recent_activity s limit = gated_recent s (Activity.read_recent s.activity limit)

unfoldable pub read_events : Core → ℕ → ℤ → List (Wake Events.Buffer) → Option (Result Events.Chunk)
read_events s next limit ws = gated s (Events.read_events s.events next limit ws)

unfoldable pub read_recent_events : Core → ℤ → Result Events.Chunk
read_recent_events s limit = gated_recent s (Events.read_recent s.events limit)

-- `PublishEvent` at the time `now`; the zero timestamp is 0.
unfoldable pub publish_event : Core → Events.Event → ℕ → Core
publish_event s e now = if is_empty e.kind || not (is_open s.state) then s else record s {
  events =
      Events.append s.events (record e {
        timestamp = (if e.timestamp == 0 then now else e.timestamp);
        session_id = s.id;
      });
}

-- `SessionState.String`
abbrev pub state_text : State → String
state_text fresh = "new"
state_text connecting = "connecting"
state_text opened = "open"
state_text closing = "closing"
state_text closed = "closed"
state_text failed = "failed"

-- `Resize`, for a Channel with the method `resizer`, or without one. It returns the error, if any.
abbrev pub resize : Core → Option (ℕ → ℕ → Option StreamError) → ℕ → ℕ → Option StreamError
resize s resizer cols rows =
    if is_open s.state
    then elim resizer [ none ↦ some resize_unsupported | some r ↦ r cols rows ]
    else some not_open

-- `HasPendingInput`
abbrev pub has_pending_input : Core → Bool
has_pending_input s = s.input_pending

-- `managerShouldReap`
abbrev pub manager_should_reap : Core → Bool
manager_should_reap s = s.reap
