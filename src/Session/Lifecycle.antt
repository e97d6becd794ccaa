-- ===== src/Session/Lifecycle.antt =====
-- internal/core/session/session.go: the lifecycle of `Core`. `Connect` and `Close` leave `mu` while
-- they wait for the Channel, and so does the reader's error path, so each is modelled in its parts.
pub mod Access
pub mod Ends
pub mod Writes
pub mod Steps
pub mod Lawful
pub mod Invariant
pub mod Order
mod Tests
use Prim.Native.String.{String}
use channel_term.Prelude.{
  ◌*◌, ℕ, Bool, true, false, ◌&&◌, ◌||◌, not, Option, none, some, List, [], ◌∷◌, ◌==◌,
  if◌then◌else◌, length, ℤ, positive?,
}
use text.Mathlib.Text.{◌==◌ as str_eq}
use channel_term.Lease.Text.{is_empty}
use channel_term.Session.Stream.{
  StreamError, eof, invalid_capacity, invalid_activity_capacity, invalid_byte_capacity,
  invalid_event_capacity, invalid_id, nil_transport, nil_channel, not_open, bad_state, Result, ok,
  err, Wake,
}
use channel_term.Session.Receive
use channel_term.Session.Activity
use channel_term.Session.Events

-- `SessionState`
pub data State : Type 0 where
  fresh connecting opened closing closed failed : State

-- The dedicated reader: not started, in its loop, on its error path with what `handleReadError` saw
-- under `mu` (whether the Session was closing, and the error), where it closes one history after the
-- other and signals the Manager, or returned.
pub data Reader : Type 0 where
  absent running : Reader
  fails_receive fails_activity fails_events : Bool → StreamError → Reader
  signals : Reader
  returned : Reader

-- Where the call of `Close` stands that goes on behind `mu`; `unbegun` while there is none. The error
-- is that of `Channel.Close`.
pub data Closer : Type 0 where
  unbegun closes_receive closes_activity closes_events stops_reader closes_channel : Closer
  joins releases_receive releases_activity releases_events records_error :
      Option StreamError → Closer
  tells_manager ended : Closer

pub record Core : Type 0 where
  pub id : String
  pub receive : Receive.Buffer
  pub activity : Activity.Buffer
  pub events : Events.Buffer
  pub input_pending : Bool
  pub state : State
  pub has_channel : Bool
  pub close_err : Option StreamError
  pub reader : Reader
  pub closer : Closer
  pub stopped : Bool
  pub done : Bool
  pub reap : Bool

-- `config`, and the options that change it.
pub record Config : Type 0 where
  pub receive_bytes : ℤ
  pub activity_events : ℤ
  pub activity_bytes : ℤ
  pub events : ℤ

pub data Setting : Type 0 where
  skipped : Setting
  with_receive_bytes with_activity_events with_activity_bytes with_events : ℤ → Setting

abbrev pub default_config : Config
default_config = record {
  receive_bytes = ℤ.pos (16 * 1024 * 1024);
  activity_events = ℤ.pos 1024;
  activity_bytes = ℤ.pos (16 * 1024 * 1024);
  events = ℤ.pos 1024;
}

abbrev checked : ℤ → StreamError → Config → Result Config
checked n e cfg = elim (positive? n) [ none ↦ err e | some k ↦ ok cfg ]

unfoldable pub apply_setting : Config → Setting → Result Config
apply_setting cfg skipped = ok cfg
apply_setting cfg (with_receive_bytes n) =
    checked n invalid_capacity (record cfg { receive_bytes = n })
apply_setting cfg (with_activity_events n) =
    checked n invalid_activity_capacity (record cfg { activity_events = n })
apply_setting cfg (with_activity_bytes n) =
    checked n invalid_byte_capacity (record cfg { activity_bytes = n })
apply_setting cfg (with_events n) = checked n invalid_event_capacity (record cfg { events = n })

unfoldable pub configure : Config → List Setting → Result Config
configure cfg [] = ok cfg
configure cfg (o ∷ os) = elim (apply_setting cfg o) [ err e ↦ err e | ok cfg' ↦ configure cfg' os ]

abbrev initial : String → Receive.Buffer → Activity.Buffer → Events.Buffer → Core
initial id receive activity events = record {
  id = id;
  receive = receive;
  activity = activity;
  events = events;
  input_pending = false;
  state = fresh;
  has_channel = false;
  close_err = none;
  reader = absent;
  closer = unbegun;
  stopped = false;
  done = false;
  reap = false;
}

-- The end of `New`: the three histories.
unfoldable pub build : String → Config → Result Core
build id cfg = elim (Receive.new cfg.receive_bytes) [
  | err e ↦ err e
  | ok receive ↦ elim (Activity.new cfg.activity_events cfg.activity_bytes) [
    | err e ↦ err e
    | ok activity ↦ elim (Events.new cfg.events) [
      | err e ↦ err e
      | ok events ↦ ok (initial id receive activity events)
    ]
  ]
]

-- `New`; `nil_source` is `isNilTransport(source)`.
unfoldable pub new : String → Bool → List Setting → Result Core
new id nil_source options =
    if is_empty id
    then err invalid_id
    else (if nil_source
        then err nil_transport
        else elim (configure default_config options) [ err e ↦ err e | ok cfg ↦ build id cfg ])

abbrev pub is_open : State → Bool
is_open opened = true
is_open _ = false

-- Whether `Close` has begun.
abbrev pub is_ending : State → Bool
is_ending closing = true
is_ending closed = true
is_ending _ = false

-- The three histories are closed with one error.
unfoldable pub close_histories : Core → StreamError → Core
close_histories s e = record s {
  receive = Receive.close s.receive (some e);
  activity = Activity.close s.activity (some e);
  events = Events.close s.events (some e);
}

-- `Connect` up to the call of the Transport, with `ctx.Err()`.
unfoldable pub connect_begin : Core → Option StreamError → Core × Option StreamError
connect_begin s cancelled = elim s.state [
  | fresh ↦ elim cancelled [
    | some e ↦ (close_histories (record s { state = failed }) e, some e)
    | none ↦ (record s { state = connecting }, none)
  ]
  | _ ↦ (s, some bad_state)
]

-- What `Transport.Connect` returns: an error, no Channel, or a Channel.
pub data Dialed : Type 0 where
  refused : StreamError → Dialed
  nothing connected : Dialed

-- `Connect` from there.
unfoldable pub connect_end : Core → Dialed → Core × Option StreamError
connect_end s (refused e) = (close_histories (record s { state = failed }) e, some e)
connect_end s nothing =
    (close_histories (record s { state = failed }) nil_channel, some nil_channel)
connect_end s connected = (record s { has_channel = true; state = opened; reader = running }, none)

-- `readLoop`: received bytes.
unfoldable pub deliver : Core → List ℕ → Core
deliver s p = if length p == 0 then s else record s { receive = Receive.append s.receive p }

-- `handleReadError` under `mu`.
unfoldable pub mark_read_error : Core → StreamError → Core
mark_read_error s e =
    if is_ending s.state
    then record s { reader = fails_receive true e }
    else record s { state = failed; reap = true; reader = fails_receive false e }

-- What `handleReadError` closes the histories with. An error that wraps `io.EOF` is `eof`.
abbrev pub reason : Bool → StreamError → StreamError
reason closing_ e = if closing_ then eof else e

-- One step of `handleReadError` behind `mu`: the next history is closed, and at the end the Manager
-- is told of an error of the Channel.
unfoldable pub read_error_step : Core → Core
read_error_step s = elim s.reader [
  | fails_receive b e ↦ record s {
    receive = Receive.close s.receive (some (reason b e));
    reader = fails_activity b e;
  }
  | fails_activity b e ↦ record s {
    activity = Activity.close s.activity (some (reason b e));
    reader = fails_events b e;
  }
  | fails_events b e ↦ record s {
    events = Events.close s.events (some (reason b e));
    reader = (if b then returned else signals);
  }
  | signals ↦ record s { done = true; reader = returned }
  | _ ↦ s
]

-- The reader finds `readerStop` closed after a read without bytes.
unfoldable pub stop_reading : Core → Core
stop_reading s = if s.stopped then record s { reader = returned } else s
