-- ===== src/Session/Lifecycle/Lawful.antt =====
-- The invariant of the lifecycle: how far the reader's error path and `Close` have come, and what has
-- to hold then.
use channel_term.Prelude.{length, leb, ◌==◌, ℕ, ◌≡◌, Bool, true, false, ◌&&◌, ◌||◌, not}
use channel_term.Session.Lifecycle.{
  Core, State, fresh, connecting, opened, closing, closed, failed, Reader, absent, running,
  returned, fails_receive, fails_activity, fails_events, signals, is_ending, Closer, unbegun,
  closes_receive, closes_activity, closes_events, stops_reader, closes_channel, joins,
  releases_receive, releases_activity, releases_events, records_error, tells_manager, ended,
}
use channel_term.Session.Lifecycle.Ends.{has_joined}

abbrev pub all_open : Core → Bool
all_open s = not s.receive.closed && not s.activity.closed && not s.events.closed

abbrev pub all_closed : Core → Bool
all_closed s = s.receive.closed && s.activity.closed && s.events.closed

abbrev pub is_running : Reader → Bool
is_running running = true
is_running _ = false

abbrev pub is_absent : Reader → Bool
is_absent absent = true
is_absent _ = false

abbrev pub is_returned : Reader → Bool
is_returned returned = true
is_returned _ = false

-- On its error path, for an error that the Channel gave of itself.
abbrev pub has_failed : Reader → Bool
has_failed (fails_receive false e) = true
has_failed (fails_activity false e) = true
has_failed (fails_events false e) = true
has_failed signals = true
has_failed _ = false

-- How far a reader on its error path has come: the number of histories it has closed.
abbrev pub read_closed : Reader → ℕ
read_closed (fails_activity b e) = 1
read_closed (fails_events b e) = 2
read_closed signals = 3
read_closed _ = 0

-- How far `Close` has come: it has begun (1), closed the three histories (2, 3, 4), closed
-- `readerStop` (5) and the Channel (6), joined the reader (7), released the three histories
-- (8, 9, 10), recorded its result (11) and told the Manager (12).
abbrev pub progress : Closer → ℕ
progress unbegun = 0
progress closes_receive = 1
progress closes_activity = 2
progress closes_events = 3
progress stops_reader = 4
progress closes_channel = 5
progress (joins e) = 6
progress (releases_receive e) = 7
progress (releases_activity e) = 8
progress (releases_events e) = 9
progress (records_error e) = 10
progress tells_manager = 11
progress ended = 12

abbrev pub implies : Bool → Bool → Bool
implies a b = not a || b

abbrev pub is_closed : State → Bool
is_closed closed = true
is_closed _ = false

-- What holds in each state before `Close`: of the reader, the histories, and the signals to the
-- Manager.
abbrev pub Lawful : State → Core → Type 0
Lawful fresh s =
    (is_absent s.reader ≡ true) × (all_open s ≡ true) × (s.done ≡ false) × (s.reap ≡ false)
Lawful connecting s =
    (is_absent s.reader ≡ true) × (all_open s ≡ true) × (s.done ≡ false) × (s.reap ≡ false)
Lawful opened s =
    (is_running s.reader ≡ true) × (all_open s ≡ true) × (s.done ≡ false) × (s.reap ≡ false)
Lawful failed s =
    ((is_absent s.reader || is_returned s.reader || has_failed s.reader) ≡ true)
    × ((all_closed s || has_failed s.reader) ≡ true)
    × (s.reap ≡ not (is_absent s.reader))
    × (s.done ≡ is_returned s.reader)
Lawful closing s = Unit
Lawful closed s = Unit

pub record Inv (s : Core) : Type 0 where
  pub lawful : Lawful s.state s
  pub begun : is_ending s.state ≡ leb 1 (progress s.closer)
  pub recorded : is_closed s.state ≡ leb 11 (progress s.closer)
  pub stopping : s.stopped ≡ leb 5 (progress s.closer)
  -- The histories that `Close` or the reader has closed are closed.
  pub receive_closed :
      implies (leb 2 (progress s.closer) || leb 1 (read_closed s.reader)) s.receive.closed ≡ true
  pub activity_closed :
      implies (leb 3 (progress s.closer) || leb 2 (read_closed s.reader)) s.activity.closed ≡ true
  pub events_closed :
      implies (leb 4 (progress s.closer) || leb 3 (read_closed s.reader)) s.events.closed ≡ true
  pub joined : implies (leb 7 (progress s.closer)) (has_joined s.reader) ≡ true
  -- The histories that `Close` has released have no storage.
  pub receive_gone : implies (leb 8 (progress s.closer)) (length s.receive.items == 0) ≡ true
  pub activity_gone : implies (leb 9 (progress s.closer)) (length s.activity.items == 0) ≡ true
  pub events_gone : implies (leb 10 (progress s.closer)) (length s.events.items == 0) ≡ true
  pub told : implies (leb 12 (progress s.closer)) s.done ≡ true
