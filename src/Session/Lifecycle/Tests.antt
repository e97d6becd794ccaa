-- ===== src/Session/Lifecycle/Tests.antt =====
-- A Session with small histories, from `New` to `Close`, on concrete input.
use channel_term.Prelude.{ℕ, ◌≡◌, ◌≢◌, refl, true, false, none, some, List, [], ◌∷◌, ℤ, arith}
use channel_term.Lease.Text.{is_empty}
use channel_term.Session.Stream.{failure, ok}
use channel_term.Session.Receive
use channel_term.Session.Activity
use channel_term.Session.Activity.{user, unknown}
use channel_term.Session.Events
use channel_term.Session.Lifecycle.{
  Core, fresh, opened, absent, with_receive_bytes, with_activity_events, with_activity_bytes,
  with_events, Setting, new, configure, apply_setting, build, connected, connect_begin, connect_end,
  mark_read_error, unbegun,
}
use channel_term.Session.Lifecycle.Ends.{close_begin, close_step}
use channel_term.Session.Lifecycle.Writes.{
  Request, Reply, Written, write, write_loop, record_write_activity,
}
use channel_term.Session.Lifecycle.Writes.Exact.{
  Reported, Recorded, write_exact, write_loop_returns,
}
use channel_term.Session.Lifecycle.Steps.{
  Reach, start, next, begins_connect, ends_connect, read_fails, begins_close,
}
use channel_term.Session.Lifecycle.Invariant.{lifecycle-Inv}
use channel_term.Session.Lifecycle.Lawful.{Inv}
use channel_term.Session.Lifecycle.Order.{may_follow, states_ordered, close_safe}

abbrev settings : List Setting
settings =
    with_receive_bytes (ℤ.pos 3)
    ∷ with_activity_events (ℤ.pos 2)
    ∷ with_activity_bytes (ℤ.pos 5)
    ∷ with_events (ℤ.pos 1)
    ∷ []

abbrev small : Core
small = record {
  id = "S";
  receive = record {
    items = 0 ∷ 0 ∷ 0 ∷ [];
    start = 0;
    size = 0;
    base = 0;
    notify = 0;
    closed = false;
    failure = none;
  };
  activity = record {
    items = Activity.no_entry ∷ Activity.no_entry ∷ [];
    start = 0;
    size = 0;
    base = 0;
    bytes = 0;
    max_bytes = 5;
    notify = 0;
    closed = false;
    failure = none;
  };
  events = record {
    items = Events.no_event ∷ [];
    start = 0;
    size = 0;
    base = 0;
    notify = 0;
    closed = false;
    failure = none;
  };
  input_pending = false;
  state = fresh;
  has_channel = false;
  close_err = none;
  reader = absent;
  closer = unbegun;
  stopped = false;
  done = false;
  reap = false;
}

new_small : new "S" false settings ≡ ok small
unfolding is_empty new configure apply_setting build Receive.new Activity.new Events.new
new_small = refl

abbrev live : Core
live = (connect_end (connect_begin small none).0 connected).0

live_reached : Reach small live
unfolding connect_begin
live_reached = next (next start (begins_connect none)) (ends_connect connected refl)

live-Inv : Inv live
live-Inv = lifecycle-Inv "S" false settings small live new_small live_reached

states_ordered_example : may_follow live.state (mark_read_error live (failure 7)).state ≡ true
unfolding connect_begin connect_end
states_ordered_example =
    states_ordered live (mark_read_error live (failure 7)) live-Inv (read_fails (failure 7) refl)

-- `Close` has begun, and its next step is to close the receive buffer.
abbrev ending : Core
ending = (close_begin live).0

ending_reached : Reach small ending
unfolding connect_begin connect_end close_begin
ending_reached = next live_reached (begins_close (λ e. ground arith))

close_safe_example : close_step ending none ≢ none
close_safe_example = close_safe "S" false settings small ending none new_small ending_reached

abbrev replies : List Reply
replies =
    record { count = 2; failure = none } ∷ record { count = 9; failure = some (failure 7) } ∷ []

abbrev typed : Request
typed = record { actor = user; payload = 97 ∷ 13 ∷ 98 ∷ 8 ∷ [] }

-- A short write, and an error with the rest.
abbrev recorded : Core
recorded = record_write_activity live 9 typed 4

write_exact_example :
    (w : Written) × (write_loop replies typed.payload 0 [] ≡ some w)
    × Reported typed.payload w
    × (4 ≡ w.count)
    × (some (failure 7) ≡ w.failure)
    × Recorded live 9 typed w recorded
    × (live.state ≡ opened)
    × ((k : ℕ) → user ≢ unknown k)
unfolding connect_begin connect_end write write_loop
write_exact_example = write_exact live live recorded typed 9 4 replies (some (failure 7)) refl

write_loop_returns_example : write_loop replies (97 ∷ 98 ∷ []) 0 [] ≢ none
write_loop_returns_example = write_loop_returns replies (97 ∷ 98 ∷ []) 0 [] (omega arith)
