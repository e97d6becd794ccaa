-- ===== src/Session/Events.antt =====
-- internal/core/session/event_buffer.go: the recent structured events of a Session. A method that
-- mutates `*eventBuffer` returns the new record; `mu` makes each method one step.
pub mod Copy
pub mod History
pub mod Reads
mod Tests
use Prim.Native.String.{String}
use channel_term.Prelude.{
  ℕ, ◌+◌, ◌-◌, ◌%◌, min, Bool, true, false, ◌||◌, Option, none, some, List, [], ◌∷◌, map, ltb, ◌==◌,
  if◌then◌else◌, length, replicate, set, ℤ, positive?, u64, sub64,
}
use channel_term.Circular.Window.{copy_slots}
use channel_term.Session.Stream.{
  StreamError, eof, invalid_event_capacity, invalid_limit, Result, ok, err, Wake, cancelled,
  notified,
}
use Copy.{Metadata, nil_map, clone_metadata}

-- `Event`. A timestamp is an instant, which `UTC()` does not change.
pub record Event : Type 0 where
  pub id : ℕ
  pub timestamp : ℕ
  pub session_id : String
  pub kind : String
  pub actor : String
  pub metadata : Metadata

-- The zero `Event{}`.
abbrev pub no_event : Event
no_event = record {
  id = 0;
  timestamp = 0;
  session_id = "";
  kind = "";
  actor = "";
  metadata = nil_map;
}

-- `source.Metadata = cloneEventMetadata(source.Metadata)`
abbrev pub clone_event : Event → Event
clone_event e = record e { metadata = clone_metadata e.metadata }

pub record Buffer : Type 0 where
  pub items : List Event
  pub start : ℕ
  pub size : ℕ
  pub base : ℕ
  pub notify : ℕ
  pub closed : Bool
  pub failure : Option StreamError

pub record Chunk : Type 0 where
  pub events : List Event
  pub next : ℕ
  pub dropped : Bool

abbrev pub no_chunk : Chunk
no_chunk = record { events = []; next = 0; dropped = false }

-- `newEventBuffer`
unfoldable pub new : ℤ → Result Buffer
new capacity = elim (positive? capacity) [
  | none ↦ err invalid_event_capacity
  | some n ↦ ok (record {
    items = replicate n no_event;
    start = 0;
    size = 0;
    base = 0;
    notify = 0;
    closed = false;
    failure = none;
  })
]

abbrev pub signal : Buffer → Buffer
signal b = record b { notify = b.notify + 1 }

-- `append` behind its guard, for the event with its assigned ID and its own metadata.
store : Buffer → Event → Buffer
store b e =
    if b.size == length b.items
    then signal (record b {
      items = set b.items b.start e;
      start = (b.start + 1) % length b.items;
      base = u64 (b.base + 1);
    })
    else signal (record b {
      items = set b.items ((b.start + b.size) % length b.items) e;
      size = b.size + 1;
    })

pub append : Buffer → Event → Buffer
append b e =
    if b.closed || length b.items == 0
    then b
    else store b (record e { id = u64 (b.base + b.size); metadata = clone_metadata e.metadata })

-- `copyLocked`
pub copy_locked : Buffer → ℕ → ℕ → Bool → Chunk
copy_locked b from count dropped = record {
  events = map clone_event (copy_slots no_event b.items (b.start + sub64 from b.base) count);
  next = u64 (from + count);
  dropped = dropped;
}

pub record Snapshot : Type 0 where
  pub chunk : Chunk
  pub channel : Option ℕ
  pub ended : Bool
  pub reason : Option StreamError

-- `readChunk`
pub read_chunk : Buffer → ℕ → ℕ → Snapshot
read_chunk b next limit =
    if length b.items == 0
    then record { chunk = no_chunk; channel = some b.notify; ended = true; reason = b.failure }
    else let dropped = ltb next b.base in
      let from = (if dropped then b.base else next) in
      let end = u64 (b.base + b.size) in
      if ltb from end
      then record {
        chunk = copy_locked b from (min limit (end - from)) dropped;
        channel = none;
        ended = false;
        reason = none;
      }
      else record {
        chunk = no_chunk;
        channel = some b.notify;
        ended = b.closed;
        reason = b.failure;
      }

-- One round of the loop of `readEvents`; `none` means that the reader waits.
pub poll : Buffer → ℕ → ℕ → Option (Result Chunk)
poll b next limit =
    let s = read_chunk b next limit in
    if ltb 0 (length s.chunk.events) || s.chunk.dropped
    then some (ok s.chunk)
    else (if s.ended then some (elim s.reason [ none ↦ err eof | some e ↦ err e ]) else none)

wait_events : Buffer → ℕ → ℕ → List (Wake Buffer) → Option (Result Chunk)
wait_events b next limit [] = poll b next limit
wait_events b next limit (cancelled e ∷ ws) = elim (poll b next limit) [
  | some r ↦ some r
  | none ↦ some (err e)
]
wait_events b next limit (notified b' ∷ ws) = elim (poll b next limit) [
  | some r ↦ some r
  | none ↦ wait_events b' next limit ws
]

pub read_events : Buffer → ℕ → ℤ → List (Wake Buffer) → Option (Result Chunk)
read_events b next limit ws = elim (positive? limit) [
  | none ↦ some (err invalid_limit)
  | some n ↦ wait_events b next n ws
]

pub read_recent : Buffer → ℤ → Result Chunk
read_recent b limit = elim (positive? limit) [
  | none ↦ err invalid_limit
  | some n ↦
      if length b.items == 0
      then err eof
      else let count = min n b.size in
        ok (copy_locked b (u64 (b.base + (b.size - count))) count false)
]

unfoldable pub close : Buffer → Option StreamError → Buffer
close b e = if b.closed then b else signal (record b { closed = true; failure = e })

unfoldable pub release : Buffer → Buffer
release b = signal (record b { items = []; start = 0; size = 0 })
