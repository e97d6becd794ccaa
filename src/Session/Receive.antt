-- ===== src/Session/Receive.antt =====
-- internal/core/session/ring_buffer.go: the newest stream output of a Session, in circular storage.
-- A method that mutates `*receiveBuffer` returns the new record. `mu` makes each method one step.
-- Bytes are only moved, so a byte is any number. `int` values are lengths and offsets of slices,
-- which do not overflow; cursors are uint64 and wrap (`u64`).
pub mod Log
pub mod Appends
pub mod Reads
pub mod Consumer
pub mod Waits
mod Tests
use channel_term.Prelude.{
  ℕ, ◌+◌, ◌-◌, ◌%◌, min, Bool, true, false, ◌||◌, ◌&&◌, not, Option, none, some, List, [], ◌∷◌, ltb,
  leb, ◌==◌, if◌then◌else◌, length, take, drop, replicate, splice, ℤ, positive?, u64, sub64,
}
use channel_term.Session.Stream.{
  StreamError, eof, invalid_capacity, invalid_limit, Result, ok, err, Wake, cancelled, notified,
}

-- `notify` counts the notification channels: the current one is open, those before it are closed.
pub record Buffer : Type 0 where
  pub items : List ℕ
  pub start : ℕ
  pub size : ℕ
  pub base : ℕ
  pub notify : ℕ
  pub closed : Bool
  pub failure : Option StreamError

pub record Chunk : Type 0 where
  pub bytes : List ℕ
  pub next : ℕ
  pub dropped : Bool

abbrev pub no_chunk : Chunk
no_chunk = record { bytes = []; next = 0; dropped = false }

-- `newReceiveBuffer`
unfoldable pub new : ℤ → Result Buffer
new capacity = elim (positive? capacity) [
  | none ↦ err invalid_capacity
  | some n ↦ ok (record {
    items = replicate n 0;
    start = 0;
    size = 0;
    base = 0;
    notify = 0;
    closed = false;
    failure = none;
  })
]

-- `signalLocked`: closes the current notification channel and makes the next one.
abbrev pub signal : Buffer → Buffer
signal b = record b { notify = b.notify + 1 }

-- The branch of `append` for input that fills the whole storage.
append_large : Buffer → List ℕ → Buffer
append_large b p =
    let capacity = length b.items in
    let end = u64 (b.base + b.size) in
    signal (record b {
      items = splice b.items 0 (drop (length p - capacity) p);
      start = 0;
      size = capacity;
      base = u64 (end + (length p - capacity));
    })

-- The branch of `append` that wraps round. `max(0, n - capacity)` is the truncated difference.
append_small : Buffer → List ℕ → Buffer
append_small b p =
    let capacity = length b.items in
    let write_at = (b.start + b.size) % capacity in
    let first = min (length p) (capacity - write_at) in
    let overwritten = b.size + length p - capacity in
    signal (record b {
      items = splice (splice b.items write_at (take first p)) 0 (drop first p);
      start = (b.start + overwritten) % capacity;
      base = u64 (b.base + overwritten);
      size = min capacity (b.size + length p);
    })

pub append : Buffer → List ℕ → Buffer
append b p =
    if length p == 0
    then b
    else (if b.closed || length b.items == 0
        then b
        else (if leb (length b.items) (length p) then append_large b p else append_small b p))

-- `copyLocked`
pub copy_locked : Buffer → ℕ → ℕ → Bool → Chunk
copy_locked b start count dropped =
    let offset = sub64 start b.base in
    let read_at = (b.start + offset) % length b.items in
    let first = min count (length b.items - read_at) in
    let head = splice (replicate count 0) 0 (take first (drop read_at b.items)) in
    record {
      bytes = splice head first (take (count - first) b.items);
      next = u64 (start + count);
      dropped = dropped;
    }

-- What `readChunk` returns: the chunk, the captured channel, `closed` and the error.
pub record Snapshot : Type 0 where
  pub chunk : Chunk
  pub channel : Option ℕ
  pub ended : Bool
  pub reason : Option StreamError

pub read_chunk : Buffer → ℕ → ℕ → Snapshot
read_chunk b next limit =
    if length b.items == 0
    then record { chunk = no_chunk; channel = some b.notify; ended = true; reason = b.failure }
    else let dropped = ltb next b.base in
      let from = (if dropped then b.base else next) in
      let end = u64 (b.base + b.size) in
      if ltb from end
      then record {
        chunk = copy_locked b from (min limit (end - from)) dropped;
        channel = none;
        ended = false;
        reason = none;
      }
      else record {
        chunk = no_chunk;
        channel = some b.notify;
        ended = b.closed;
        reason = b.failure;
      }

-- One round of the loop of `readOutput`; `none` means that the reader waits.
pub poll : Buffer → ℕ → ℕ → Option (Result Chunk)
poll b next limit =
    let s = read_chunk b next limit in
    if ltb 0 (length s.chunk.bytes) || s.chunk.dropped
    then some (ok s.chunk)
    else (if s.ended then some (elim s.reason [ none ↦ err eof | some e ↦ err e ]) else none)

-- The loop of `readOutput` over what ends each wait; `none` means that the reader still waits.
wait_output : Buffer → ℕ → ℕ → List (Wake Buffer) → Option (Result Chunk)
wait_output b next limit [] = poll b next limit
wait_output b next limit (cancelled e ∷ ws) = elim (poll b next limit) [
  | some r ↦ some r
  | none ↦ some (err e)
]
wait_output b next limit (notified b' ∷ ws) = elim (poll b next limit) [
  | some r ↦ some r
  | none ↦ wait_output b' next limit ws
]

pub read_output : Buffer → ℕ → ℤ → List (Wake Buffer) → Option (Result Chunk)
read_output b next limit ws = elim (positive? limit) [
  | none ↦ some (err invalid_limit)
  | some n ↦ wait_output b next n ws
]

pub read_recent : Buffer → ℤ → Result Chunk
read_recent b limit = elim (positive? limit) [
  | none ↦ err invalid_limit
  | some n ↦
      if length b.items == 0
      then err eof
      else let count = min n b.size in
        ok (copy_locked b (u64 (b.base + (b.size - count))) count false)
]

unfoldable pub close : Buffer → Option StreamError → Buffer
close b e = if b.closed then b else signal (record b { closed = true; failure = e })

unfoldable pub release : Buffer → Buffer
release b = signal (record b { items = []; start = 0; size = 0 })
