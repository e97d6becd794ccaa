-- ===== src/Session/Lifecycle/Steps.antt =====
-- The Session as a step relation: the caller of `Connect` and `Close`, the reader, writers and
-- publishers, each in the parts between which the others may run. As the source demands, `Close`
-- does not run while `Connect` does.
use channel_term.Prelude.{ℕ, ◌≡◌, ◌≢◌, Option, some, List}
use channel_term.Session.Stream.{StreamError}
use channel_term.Session.Events
use channel_term.Session.Lifecycle.{
  Core, connecting, running, Dialed, connect_begin, connect_end, deliver, mark_read_error,
  read_error_step, stop_reading,
}
use channel_term.Session.Lifecycle.Ends.{close_begin, close_step}
use channel_term.Session.Lifecycle.Access.{publish_event}
use channel_term.Session.Lifecycle.Writes.{Request, record_write_activity}

pub data Step (s : Core) : Core → Type 0 where
  begins_connect : (cancelled : Option StreamError) → Step s (connect_begin s cancelled).0
  ends_connect : (d : Dialed) → s.state ≡ connecting → Step s (connect_end s d).0
  receives : (p : List ℕ) → s.reader ≡ running → Step s (deliver s p)
  read_fails : (e : StreamError) → s.reader ≡ running → Step s (mark_read_error s e)
  reader_goes_on : Step s (read_error_step s)
  reader_stops : s.reader ≡ running → Step s (stop_reading s)
  publishes : (e : Events.Event) (now : ℕ) → Step s (publish_event s e now)
  -- `PublishEvent` has found the Session open before.
  publishes_late : (e : Events.Event) → Step s (record s { events = Events.append s.events e })
  records : (t : ℕ) (r : Request) (written : ℕ) → Step s (record_write_activity s t r written)
  begins_close : s.state ≢ connecting → Step s (close_begin s).0
  closes : (failure : Option StreamError) (s' : Core) → close_step s failure ≡ some s' → Step s s'

pub data Reach (s₀ : Core) : Core → Type 0 where
  start : Reach s₀ s₀
  next : {s s' : Core} → Reach s₀ s → Step s s' → Reach s₀ s'
