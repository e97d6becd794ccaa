-- ===== src/Device/Events.antt =====
-- internal/core/device/registry.go: the bounded buffer of discovery events. As for the histories of
-- a Session, `notify` counts the notification channels, and a round of `read` that waits is `none`.
use Prim.Native.String.{String}
use channel_term.Prelude.{
  ℕ, ◌+◌, ◌-◌, ◌%◌, min, Bool, true, false, ◌||◌, Option, none, some, List, [], ◌∷◌, ltb, ◌==◌,
  if◌then◌else◌, length, replicate, set, ℤ, positive?, u64, sub64,
}
use channel_term.Circular.Window.{copy_slots}

pub data EventType : Type 0 where
  appeared disappeared : EventType

pub record Event : Type 0 where
  pub timestamp : ℕ
  pub kind : EventType
  pub transport : String
  pub endpoint : String

abbrev pub no_event : Event
no_event = record { timestamp = 0; kind = appeared; transport = ""; endpoint = "" }

pub record Buffer : Type 0 where
  pub items : List Event
  pub start : ℕ
  pub size : ℕ
  pub base : ℕ
  pub notify : ℕ
  pub closed : Bool

pub record Chunk : Type 0 where
  pub events : List Event
  pub next : ℕ
  pub dropped : Bool

-- `newEventBuffer`
unfoldable pub new : ℕ → Buffer
new capacity = record {
  items = replicate capacity no_event;
  start = 0;
  size = 0;
  base = 0;
  notify = 0;
  closed = false;
}

unfoldable pub append : Buffer → Event → Buffer
append b e =
    if b.closed
    then b
    else (if b.size == length b.items
        then record b {
          items = set b.items b.start e;
          start = (b.start + 1) % length b.items;
          base = u64 (b.base + 1);
          notify = b.notify + 1;
        }
        else record b {
          items = set b.items ((b.start + b.size) % length b.items) e;
          size = b.size + 1;
          notify = b.notify + 1;
        })

unfoldable pub append_all : Buffer → List Event → Buffer
append_all b [] = b
append_all b (e ∷ es) = append_all (append b e) es

-- `copyLocked`
unfoldable pub copy_locked : Buffer → ℕ → ℕ → Bool → Chunk
copy_locked b start count dropped = record {
  events = copy_slots no_event b.items (b.start + sub64 start b.base) count;
  next = u64 (start + count);
  dropped = dropped;
}

-- `readChunk`, without the notification channel: a chunk, and whether the buffer is closed and has
-- nothing from the cursor on.
abbrev pub no_chunk : Chunk
no_chunk = record { events = []; next = 0; dropped = false }

unfoldable pub read_chunk : Buffer → ℕ → ℕ → Chunk × Bool
read_chunk b next limit =
    let from = (if ltb next b.base then b.base else next) in
    let end = u64 (b.base + b.size) in
    if ltb from end
    then (copy_locked b from (min limit (sub64 end from)) (ltb next b.base), false)
    else (no_chunk, b.closed)

-- How a read ends: with a chunk, at the end of the stream, with an invalid limit, or with its
-- context.
pub data ReadResult : Type 0 where
  chunk : Chunk → ReadResult
  ended invalid_limit cancelled : ReadResult

-- One round of the loop of `read`.
unfoldable pub poll : Buffer → ℕ → ℕ → Option ReadResult
poll b next limit =
    let (c, closed) = read_chunk b next limit in
    if ltb 0 (length c.events) || c.dropped
    then some (chunk c)
    else (if closed then some ended else none)

-- The loop, where each wait ends with the context, `none`, or with a notification and the buffer
-- that is seen then. Without more wakeups it is as far as it has come.
unfoldable pub wait_read : Buffer → ℕ → ℕ → List (Option Buffer) → Option ReadResult
wait_read b next limit [] = poll b next limit
wait_read b next limit (w ∷ ws) = elim (poll b next limit) [
  | some r ↦ some r
  | none ↦ elim w [ none ↦ some cancelled | some b' ↦ wait_read b' next limit ws ]
]

-- `read`
unfoldable pub read : Buffer → ℕ → ℤ → List (Option Buffer) → Option ReadResult
read b next limit ws = elim (positive? limit) [
  | none ↦ some invalid_limit
  | some n ↦ wait_read b next n ws
]

-- `readRecent`
unfoldable pub read_recent : Buffer → ℤ → ReadResult
read_recent b limit = elim (positive? limit) [
  | none ↦ invalid_limit
  | some n ↦
      let count = min n b.size in
      chunk (copy_locked b (u64 (b.base + (b.size - count))) count false)
]

unfoldable pub close : Buffer → Buffer
close b = if b.closed then b else record b { closed = true; notify = b.notify + 1 }
