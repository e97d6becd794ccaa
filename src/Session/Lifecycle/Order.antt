-- ===== src/Session/Lifecycle/Order.antt =====
-- The order of the lifecycle's states, and that `Close` cannot panic.
use Prim.Native.String.{String}
use channel_term.Prelude.{◌≡◌, ◌≢◌, refl, Bool, true, false, Option, none, some, List, arith, leb}
use channel_term.Session.Stream.{StreamError, ok}
use channel_term.Session.Lifecycle.{
  Core, State, fresh, connecting, opened, closing, closed, failed, connect_begin, connect_end,
  refused, nothing, connected, deliver, mark_read_error, read_error_step, stop_reading,
  close_histories, Reader, absent, running, returned, fails_receive, fails_activity, fails_events,
  signals, Closer, unbegun, closes_receive, closes_activity, closes_events, stops_reader,
  closes_channel, joins, releases_receive, releases_activity, releases_events, records_error,
  tells_manager, ended, is_ending, Setting, new,
}
use channel_term.Session.Lifecycle.Ends.{close_begin, close_step}
use channel_term.Session.Lifecycle.Access.{publish_event}
use channel_term.Session.Lifecycle.Writes.{record_write_activity}
use channel_term.Session.Lifecycle.Steps.{
  Step, begins_connect, ends_connect, receives, read_fails, reader_goes_on, reader_stops, publishes,
  publishes_late, records, begins_close, closes, Reach,
}
use channel_term.Session.Lifecycle.Invariant.{lifecycle-Inv}
use channel_term.Session.Lifecycle.Lawful.{Inv, progress, is_closed}

-- The states that may follow a state in one step, which may also keep it.
abbrev pub may_follow : State → State → Bool
may_follow fresh fresh = true
may_follow fresh connecting = true
may_follow fresh failed = true
may_follow fresh closing = true
may_follow connecting connecting = true
may_follow connecting opened = true
may_follow connecting failed = true
may_follow opened opened = true
may_follow opened failed = true
may_follow opened closing = true
may_follow failed failed = true
may_follow failed closing = true
may_follow closing closing = true
may_follow closing closed = true
may_follow closed closed = true
may_follow _ _ = false

same : (a b : State) → a ≡ b → may_follow a b ≡ true
same a b h = ground arith

close_histories_state : (s : Core) (e : StreamError) → (close_histories s e).state ≡ s.state
unfolding close_histories
close_histories_state s e = refl

reads_state : (s : Core) (o : Reader) → s.reader ≡ o → (read_error_step s).state ≡ s.state
unfolding read_error_step
reads_state s absent h = ground arith
reads_state s running h = ground arith
reads_state s returned h = ground arith
reads_state s signals h = ground arith
reads_state s (fails_receive b e) h = ground arith
reads_state s (fails_activity b e) h = ground arith
reads_state s (fails_events b e) h = ground arith

closes_follow :
    (s s' : Core) (f : Option StreamError) (o : Closer)
    → s.closer ≡ o
    → close_step s f ≡ some s'
    → is_ending s.state ≡ leb 1 (progress s.closer)
    → is_closed s.state ≡ leb 11 (progress s.closer)
    → may_follow s.state s'.state ≡ true
unfolding close_step
closes_follow s s' f unbegun h g b r = ground arith
closes_follow s s' f closes_receive h g b r = ground arith
closes_follow s s' f closes_activity h g b r = ground arith
closes_follow s s' f closes_events h g b r = ground arith
closes_follow s s' f stops_reader h g b r = ground arith
closes_follow s s' f closes_channel h g b r = ground arith
closes_follow s s' f (joins e) h g b r = ground arith
closes_follow s s' f (releases_receive e) h g b r = ground arith
closes_follow s s' f (releases_activity e) h g b r = ground arith
closes_follow s s' f (releases_events e) h g b r = ground arith
closes_follow s s' f (records_error e) h g b r = ground arith
closes_follow s s' f tells_manager h g b r = ground arith
closes_follow s s' f ended h g b r = ground arith

-- Each step of a Session that satisfies the invariant keeps the lifecycle state or moves it forward:
-- from new to connecting, failed or closing; from connecting to open or failed; from open to failed
-- or closing; from failed to closing; from closing to closed; and a closed Session stays closed.
pub states_ordered : (s s' : Core) → Inv s → Step s s' → may_follow s.state s'.state ≡ true
unfolding connect_begin connect_end deliver mark_read_error stop_reading close_begin publish_event
    record_write_activity close_histories
states_ordered s _ v (begins_connect c) = ground arith
states_ordered s _ v (ends_connect (refused e) h) = ground arith
states_ordered s _ v (ends_connect nothing h) = ground arith
states_ordered s _ v (ends_connect connected h) = ground arith
states_ordered s _ v (receives p h) = ground arith
states_ordered s _ v (read_fails e h) = ground arith
states_ordered s _ v reader_goes_on = ground (arith, reads_state s s.reader refl)
states_ordered s _ v (reader_stops h) = ground arith
states_ordered s _ v (publishes e now) = ground arith
states_ordered s _ v (publishes_late e) = ground arith
states_ordered s _ v (records t r written) = ground arith
states_ordered s _ v (begins_close ne) = ground arith
states_ordered s _ v (closes f s' h) = closes_follow s s' f s.closer refl h v.begun v.recorded

stops_once :
    (s : Core) (f : Option StreamError) (o : Closer)
    → s.closer ≡ o
    → s.stopped ≡ leb 5 (progress s.closer)
    → close_step s f ≢ none
unfolding close_step
stops_once s f unbegun h st = ground arith
stops_once s f closes_receive h st = ground arith
stops_once s f closes_activity h st = ground arith
stops_once s f closes_events h st = ground arith
stops_once s f stops_reader h st = ground arith
stops_once s f closes_channel h st = ground arith
stops_once s f (joins e) h st = ground arith
stops_once s f (releases_receive e) h st = ground arith
stops_once s f (releases_activity e) h st = ground arith
stops_once s f (releases_events e) h st = ground arith
stops_once s f (records_error e) h st = ground arith
stops_once s f tells_manager h st = ground arith
stops_once s f ended h st = ground arith

-- In every state that a Session which `New` returned can reach, whatever `Connect`, other calls of
-- `Close`, the reader, writers and publishers do between the steps of `Close`, its next step does not
-- panic: it never closes `readerStop` a second time. `Close` does not begin while `Connect` runs.
pub close_safe :
    (id : String) (nil_source : Bool) (os : List Setting) (s₀ s : Core)
    (failure : Option StreamError)
    → new id nil_source os ≡ ok s₀
    → Reach s₀ s
    → close_step s failure ≢ none
close_safe id nil_source os s₀ s failure made reached =
    stops_once s failure s.closer refl (lifecycle-Inv id nil_source os s₀ s made reached).stopping
