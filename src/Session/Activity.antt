-- ===== src/Session/Activity.antt =====
-- internal/core/session/activity_buffer.go: the recent write operations of a Session, bounded by
-- their number and by the total of their payload bytes. A method that mutates `*activityBuffer`
-- returns the new record; `mu` makes each method one step.
pub mod Room
pub mod Retention
pub mod Reads
mod Tests
use channel_term.Prelude.{
  ℕ, zero, suc, ◌+◌, ◌-◌, ◌%◌, min, Bool, true, false, ◌||◌, ◌&&◌, Option, none, some, List, [],
  ◌∷◌, ltb, leb, ◌==◌, if◌then◌else◌, length, replicate, set, get_or, ℤ, positive?, u64, sub64,
}
use channel_term.Circular.Window.{copy_slots}
use channel_term.Session.Stream.{
  StreamError, eof, invalid_activity_capacity, invalid_byte_capacity, invalid_limit, Result, ok,
  err, Wake, cancelled, notified,
}

-- `Actor`: the three write sources, and any other string.
pub data Actor : Type 0 where
  user agent system : Actor
  unknown : ℕ → Actor

-- `SessionEvent`. Its `Operation` is always `OperationWrite` and is left out; a timestamp is only
-- passed on.
pub record Entry : Type 0 where
  pub timestamp : ℕ
  pub actor : Actor
  pub payload : List ℕ

-- The zero `SessionEvent{}`, whose actor is the empty string.
abbrev pub no_entry : Entry
no_entry = record { timestamp = 0; actor = unknown 0; payload = [] }

pub record Buffer : Type 0 where
  pub items : List Entry
  pub start : ℕ
  pub size : ℕ
  pub base : ℕ
  pub bytes : ℕ
  pub max_bytes : ℕ
  pub notify : ℕ
  pub closed : Bool
  pub failure : Option StreamError

pub record Chunk : Type 0 where
  pub entries : List Entry
  pub next : ℕ
  pub dropped : Bool

abbrev pub no_chunk : Chunk
no_chunk = record { entries = []; next = 0; dropped = false }

abbrev pub empty : ℕ → ℕ → Buffer
empty capacity max_bytes = record {
  items = replicate capacity no_entry;
  start = 0;
  size = 0;
  base = 0;
  bytes = 0;
  max_bytes = max_bytes;
  notify = 0;
  closed = false;
  failure = none;
}

-- `newActivityBuffer`
unfoldable pub new : ℤ → ℤ → Result Buffer
new capacity max_bytes = elim (positive? capacity) [
  | none ↦ err invalid_activity_capacity
  | some n ↦ elim (positive? max_bytes) [
    | none ↦ err invalid_byte_capacity
    | some m ↦ ok (empty n m)
  ]
]

abbrev pub signal : Buffer → Buffer
signal b = record b { notify = b.notify + 1 }

-- The body of the loop in `append`: the oldest entry leaves.
pub evict : Buffer → Buffer
evict b = record b {
  bytes = b.bytes - length (get_or b.items b.start no_entry).payload;
  items = set b.items b.start no_entry;
  start = (b.start + 1) % length b.items;
  size = b.size - 1;
  base = u64 (b.base + 1);
}

-- The loop's condition, for a payload of `n` bytes.
abbrev pub needs_room : Buffer → ℕ → Bool
needs_room b n = ltb 0 b.size && (b.size == length b.items || ltb b.max_bytes (b.bytes + n))

-- The loop; each round takes one entry away, so `b.size` rounds are enough.
pub make_room : ℕ → Buffer → ℕ → Buffer
make_room zero b n = b
make_room (suc f) b n = let rest = make_room f (evict b) n in if needs_room b n then rest else b

-- What `append` does behind the loop.
pub insert : Buffer → Entry → Buffer
insert b e =
    if leb (length e.payload) b.max_bytes
    then signal (record b {
      items = set b.items ((b.start + b.size) % length b.items) e;
      size = b.size + 1;
      bytes = b.bytes + length e.payload;
    })
    else signal (record b { base = u64 (b.base + 1) })

pub append : Buffer → Entry → Buffer
append b e =
    if b.closed || length b.items == 0 then b else insert (make_room b.size b (length e.payload)) e

-- `copyLocked`
pub copy_locked : Buffer → ℕ → ℕ → Bool → Chunk
copy_locked b from count dropped = record {
  entries = copy_slots no_entry b.items (b.start + sub64 from b.base) count;
  next = u64 (from + count);
  dropped = dropped;
}

pub record Snapshot : Type 0 where
  pub chunk : Chunk
  pub channel : Option ℕ
  pub ended : Bool
  pub reason : Option StreamError

-- `readChunk`
pub read_chunk : Buffer → ℕ → ℕ → Snapshot
read_chunk b next limit =
    if length b.items == 0
    then record { chunk = no_chunk; channel = some b.notify; ended = true; reason = b.failure }
    else let dropped = ltb next b.base in
      let from = (if dropped then b.base else next) in
      let end = u64 (b.base + b.size) in
      if ltb from end
      then record {
        chunk = copy_locked b from (min limit (end - from)) dropped;
        channel = none;
        ended = false;
        reason = none;
      }
      else (if dropped
          then record {
            chunk = record { entries = []; next = from; dropped = true };
            channel = none;
            ended = false;
            reason = none;
          }
          else record {
            chunk = no_chunk;
            channel = some b.notify;
            ended = b.closed;
            reason = b.failure;
          })

-- One round of the loop of `readActivity`; `none` means that the reader waits.
pub poll : Buffer → ℕ → ℕ → Option (Result Chunk)
poll b next limit =
    let s = read_chunk b next limit in
    if ltb 0 (length s.chunk.entries) || s.chunk.dropped
    then some (ok s.chunk)
    else (if s.ended then some (elim s.reason [ none ↦ err eof | some e ↦ err e ]) else none)

wait_activity : Buffer → ℕ → ℕ → List (Wake Buffer) → Option (Result Chunk)
wait_activity b next limit [] = poll b next limit
wait_activity b next limit (cancelled e ∷ ws) = elim (poll b next limit) [
  | some r ↦ some r
  | none ↦ some (err e)
]
wait_activity b next limit (notified b' ∷ ws) = elim (poll b next limit) [
  | some r ↦ some r
  | none ↦ wait_activity b' next limit ws
]

pub read_activity : Buffer → ℕ → ℤ → List (Wake Buffer) → Option (Result Chunk)
read_activity b next limit ws = elim (positive? limit) [
  | none ↦ some (err invalid_limit)
  | some n ↦ wait_activity b next n ws
]

pub read_recent : Buffer → ℤ → Result Chunk
read_recent b limit = elim (positive? limit) [
  | none ↦ err invalid_limit
  | some n ↦
      if length b.items == 0
      then err eof
      else let count = min n b.size in
        ok (copy_locked b (u64 (b.base + (b.size - count))) count false)
]

unfoldable pub close : Buffer → Option StreamError → Buffer
close b e = if b.closed then b else signal (record b { closed = true; failure = e })

unfoldable pub release : Buffer → Buffer
release b = signal (record b { items = []; start = 0; size = 0; bytes = 0 })
