-- ===== src/Session/Lifecycle/Invariant.antt =====
-- What holds in each state of the lifecycle, whatever the order of the steps.
use channel_term.Prelude.{
  take, ◌==◌, ◌≢◌, if◌then◌else◌, ℕ, ◌≡◌, refl, Bool, true, false, Option, some, List, arith,
}
use Prim.Native.String.{String}
use channel_term.Session.Stream.{StreamError, ok}
use channel_term.Session.Receive
use channel_term.Session.Receive.Appends.{append-closed as receive-closed}
use channel_term.Session.Activity
use channel_term.Session.Activity.Retention.{append-closed as activity-closed, append_gone}
use channel_term.Session.Events
use channel_term.Session.Events.History.{append-closed as events-closed, append_gone as gone_events}
use channel_term.Session.Lifecycle.{
  Core, connecting, Reader, absent, running, returned, fails_receive, fails_activity, fails_events,
  signals, Closer, unbegun, closes_receive, closes_activity, closes_events, stops_reader,
  closes_channel, joins, releases_receive, releases_activity, releases_events, records_error,
  tells_manager, ended, Dialed, refused, nothing, connected, connect_begin, connect_end, deliver,
  mark_read_error, read_error_step, stop_reading, close_histories, Setting, new, build,
}
use channel_term.Session.Lifecycle.Ends.{close_begin, close_step}
use channel_term.Session.Lifecycle.Access.{publish_event}
use channel_term.Session.Lifecycle.Writes.{Request, record_write_activity}
use channel_term.Session.Lifecycle.Steps.{
  Step, begins_connect, ends_connect, receives, read_fails, reader_goes_on, reader_stops, publishes,
  publishes_late, records, begins_close, closes, Reach, start, next,
}
use channel_term.Session.Lifecycle.Lawful.{Inv}

module _ (s : Core) where
  connect_begin-Inv : (c : Option StreamError) → Inv s → Inv (connect_begin s c).0
  unfolding connect_begin close_histories Receive.close Activity.close Events.close
  connect_begin-Inv c v = ground arith

  connect_end-Inv : (d : Dialed) → s.state ≡ connecting → Inv s → Inv (connect_end s d).0
  unfolding connect_end close_histories Receive.close Activity.close Events.close
  connect_end-Inv (refused e) h v = ground arith
  connect_end-Inv nothing h v = ground arith
  connect_end-Inv connected h v = ground arith

  deliver-Inv : (p : List ℕ) → s.reader ≡ running → Inv s → Inv (deliver s p)
  unfolding deliver
  deliver-Inv p h v = ground (arith, receive-closed s.receive p)

  mark-Inv : (e : StreamError) → s.reader ≡ running → Inv s → Inv (mark_read_error s e)
  unfolding mark_read_error
  mark-Inv e h v = ground arith

  reads-Inv : (o : Reader) → s.reader ≡ o → Inv s → Inv (read_error_step s)
  unfolding read_error_step Receive.close Activity.close Events.close
  reads-Inv absent h v = ground arith
  reads-Inv running h v = ground arith
  reads-Inv returned h v = ground arith
  reads-Inv signals h v = ground arith
  reads-Inv (fails_receive true e) h v = ground arith
  reads-Inv (fails_receive false e) h v = ground arith
  reads-Inv (fails_activity true e) h v = ground arith
  reads-Inv (fails_activity false e) h v = ground arith
  reads-Inv (fails_events true e) h v = ground arith
  reads-Inv (fails_events false e) h v = ground arith

  stop-Inv : s.reader ≡ running → Inv s → Inv (stop_reading s)
  unfolding stop_reading
  stop-Inv h v = ground arith

  close_begin-Inv : s.state ≢ connecting → Inv s → Inv (close_begin s).0
  unfolding close_begin
  close_begin-Inv ne v = ground arith

  close_step-Inv :
      (f : Option StreamError) (s' : Core) (o : Closer)
      → s.closer ≡ o
      → close_step s f ≡ some s'
      → Inv s
      → Inv s'
  unfolding close_step Receive.close Activity.close Events.close Receive.release Activity.release
      Events.release
  close_step-Inv f s' unbegun h g v = ground arith
  close_step-Inv f s' closes_receive h g v = ground arith
  close_step-Inv f s' closes_activity h g v = ground arith
  close_step-Inv f s' closes_events h g v = ground arith
  close_step-Inv f s' stops_reader h g v = ground arith
  close_step-Inv f s' closes_channel h g v = ground arith
  close_step-Inv f s' (joins e) h g v = ground arith
  close_step-Inv f s' (releases_receive e) h g v = ground arith
  close_step-Inv f s' (releases_activity e) h g v = ground arith
  close_step-Inv f s' (releases_events e) h g v = ground arith
  close_step-Inv f s' (records_error e) h g v = ground arith
  close_step-Inv f s' tells_manager h g v = ground arith
  close_step-Inv f s' ended h g v = ground arith

  publish-Inv : (e : Events.Event) (now : ℕ) → Inv s → Inv (publish_event s e now)
  unfolding publish_event
  publish-Inv e now v = ground (
    arith,
    events-closed s.events (record e {
      timestamp = (if e.timestamp == 0 then now else e.timestamp);
      session_id = s.id;
    }),
  )

  publish_late-Inv :
      (e : Events.Event) → Inv s → Inv (record s { events = Events.append s.events e })
  publish_late-Inv e v = ground (arith, events-closed s.events e, gone_events s.events e)

  abbrev entry : ℕ → Request → ℕ → Activity.Entry
  entry t r written = record { timestamp = t; actor = r.actor; payload = take written r.payload }

  records-Inv :
      (t : ℕ) (r : Request) (written : ℕ) → Inv s → Inv (record_write_activity s t r written)
  unfolding record_write_activity
  records-Inv t r written v = ground (
    arith,
    activity-closed s.activity (entry t r written),
    append_gone s.activity (entry t r written),
  )

Step-Inv : {s s' : Core} → Step s s' → Inv s → Inv s'
Step-Inv {s} (begins_connect c) v = connect_begin-Inv s c v
Step-Inv {s} (ends_connect d h) v = connect_end-Inv s d h v
Step-Inv {s} (receives p h) v = deliver-Inv s p h v
Step-Inv {s} (read_fails e h) v = mark-Inv s e h v
Step-Inv {s} reader_goes_on v = reads-Inv s s.reader refl v
Step-Inv {s} (reader_stops h) v = stop-Inv s h v
Step-Inv {s} (publishes e now) v = publish-Inv s e now v
Step-Inv {s} (publishes_late e) v = publish_late-Inv s e v
Step-Inv {s} (records t r written) v = records-Inv s t r written v
Step-Inv {s} (begins_close ne) v = close_begin-Inv s ne v
Step-Inv {s} (closes f s' h) v = close_step-Inv s f s' s.closer refl h v

-- A new Session.
pub new-Inv :
    (id : String) (nil_source : Bool) (os : List Setting) (s : Core)
    → new id nil_source os ≡ ok s
    → Inv s
unfolding new build Receive.new Activity.new Events.new
new-Inv id nil_source os s h = ground arith

pub lifecycle-Inv :
    (id : String) (nil_source : Bool) (os : List Setting) (s₀ s : Core)
    → new id nil_source os ≡ ok s₀
    → Reach s₀ s
    → Inv s
lifecycle-Inv id nil_source os s₀ _ h start = new-Inv id nil_source os s₀ h
lifecycle-Inv id nil_source os s₀ _ h (next r st) =
    Step-Inv st (lifecycle-Inv id nil_source os s₀ _ h r)
