-- ===== src/Session/Lifecycle/Ends.antt =====
-- internal/core/session/session.go: `Close`. It holds `mu` at its beginning and for its result only:
-- what it does in between is one step for each history that it closes or releases, for `readerStop`,
-- for the Channel and for the wait until the reader has returned.
use channel_term.Prelude.{Bool, true, false, Option, none, some, if◌then◌else◌}
use channel_term.Session.Stream.{StreamError, eof}
use channel_term.Session.Receive
use channel_term.Session.Activity
use channel_term.Session.Events
use channel_term.Session.Lifecycle.{
  Core, closing, closed, Reader, absent, returned, unbegun, closes_receive, closes_activity,
  closes_events, stops_reader, closes_channel, joins, releases_receive, releases_activity,
  releases_events, records_error, tells_manager, ended,
}

-- How `Close` begins: it returns at once, or goes on.
pub data Closing : Type 0 where
  returns : Option StreamError → Closing
  goes_on : Closing

unfoldable pub close_begin : Core → Core × Closing
close_begin s = elim s.state [
  | closed ↦ (s, returns s.close_err)
  | closing ↦ (s, returns none)
  | _ ↦ (record s { state = closing; closer = closes_receive }, goes_on)
]

-- Whether there is no reader that `Close` has to wait for.
abbrev pub has_joined : Reader → Bool
has_joined absent = true
has_joined returned = true
has_joined _ = false

-- The next step of the call of `Close` that goes on, with the error of `Channel.Close`, if this is
-- the step that calls it. Closing `readerStop` twice is a panic, `none`.
unfoldable pub close_step : Core → Option StreamError → Option Core
close_step s failure = elim s.closer [
  | unbegun ↦ some s
  | closes_receive ↦
      some (record s { receive = Receive.close s.receive (some eof); closer = closes_activity })
  | closes_activity ↦
      some (record s { activity = Activity.close s.activity (some eof); closer = closes_events })
  | closes_events ↦
      some (record s { events = Events.close s.events (some eof); closer = stops_reader })
  | stops_reader ↦
      if s.stopped then none else some (record s { stopped = true; closer = closes_channel })
  | closes_channel ↦ some (record s { closer = joins (if s.has_channel then failure else none) })
  | joins e ↦
      if has_joined s.reader then some (record s { closer = releases_receive e }) else some s
  | releases_receive e ↦
      some (record s { receive = Receive.release s.receive; closer = releases_activity e })
  | releases_activity e ↦
      some (record s { activity = Activity.release s.activity; closer = releases_events e })
  | releases_events e ↦
      some (record s { events = Events.release s.events; closer = records_error e })
  | records_error e ↦ some (record s { close_err = e; state = closed; closer = tells_manager })
  | tells_manager ↦ some (record s { done = true; closer = ended })
  | ended ↦ some s
]
