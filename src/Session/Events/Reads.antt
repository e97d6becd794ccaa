-- ===== src/Session/Events/Reads.antt =====
-- What `readChunk`, `readRecent` and one round of `readEvents` return, in terms of the history.
use channel_term.Prelude.{
  ℕ, suc, ◌+◌, ◌-◌, ◌^◌, ◌<◌, ◌≤◌, min, ◌≡◌, ◌∙◌, inl, inr, List, none, some, length, arith,
  if◌then◌else◌, Bool, false, lt-or-ge, take, drop, u64, sub64, ltb, ℤ, length-take, length-drop,
  take_of_min, take_of_le, map-take-drop,
}
use channel_term.Circular.Window.{copy_slots-Window}
use channel_term.Session.Stream.{eof, ok, err}
use channel_term.Session.Events.{
  Event, no_event, clone_event, Buffer, Chunk, no_chunk, copy_locked, read_chunk, poll, read_recent,
}
use channel_term.Session.Events.History.{Publishes, stored, length-stored, clone-stored}

-- The part of the history that a reader at cursor `next` can still see, at most `limit` events.
abbrev pub visible : ℕ → List Event → ℕ → ℕ → Chunk
visible base log next limit =
    let from = (if ltb next base then base else next) in
    record {
      events = take limit (drop from log);
      next = from + length (take limit (drop from log));
      dropped = ltb next base;
    }

module _ (b : Buffer) (published : List Event) (h : Publishes b published) where
  abbrev log : List Event
  log = stored 0 published

  tail : b.base + b.size ≡ length log
  tail = h.window.tail

  small : length log < 2 ^ 64
  small = omega (arith, h.small, length-stored 0 published)

  copied :
      (from count : ℕ) (dropped : Bool)
      → b.base ≤ from
      → from + count ≤ length log
      → copy_locked b from count dropped
        ≡ record { events = take count (drop from log); next = from + count; dropped = dropped }
  unfolding copy_locked
  copied from count dropped old new =
      let exact : u64 (from + count) ≡ from + count = omega (arith, small) in
      let offset : sub64 from b.base ≡ from - b.base = omega (arith, small, tail) in
      cc (
        exact,
        offset,
        copy_slots-Window h.window no_event from count old new,
        map-take-drop clone_event count from log,
        clone-stored 0 published,
      )

  seen :
      (next limit : ℕ)
      → next < length log
      → copy_locked b
          (if ltb next b.base then b.base else next)
          (min limit (u64 (b.base + b.size) - (if ltb next b.base then b.base else next)))
          (ltb next b.base)
        ≡ visible b.base log next limit
  seen next limit h' =
      copied from count (ltb next b.base) (ground arith) (ground (arith, tail, small))
      ∙ cc (shown, advance)
    where
      from : ℕ
      from = (if ltb next b.base then b.base else next)

      count : ℕ
      count = min limit (u64 (b.base + b.size) - from)

      shown : take count (drop from log) ≡ take limit (drop from log)
      shown =
          take_of_min count limit (drop from log) (omega (arith, length-drop from log, tail, small))

      advance : from + count ≡ from + length (take limit (drop from log))
      advance = omega (arith, length-take limit (drop from log), length-drop from log, tail, small)

  shown_pos :
      (next limit : ℕ)
      → next < length log
      → 0 < limit
      → 0 < length (visible b.base log next limit).events
  shown_pos next limit h' pos =
      omega (arith, length-take limit (drop from log), length-drop from log, before)
    where
      from : ℕ
      from = (if ltb next b.base then b.base else next)

      before : from < length log
      before = ground (arith, tail, h.size_min, length-stored 0 published, h.window.start_in)

  -- `readChunk` at a cursor before the end of the history returns the visible part of it.
  pub read_events_data :
      (next limit : ℕ)
      → next < length log
      → read_chunk b next limit ≡ record {
        chunk = visible b.base log next limit;
        channel = none;
        ended = false;
        reason = none;
      }
  unfolding read_chunk
  read_events_data next limit h' = ground (
    arith,
    seen next limit h',
    tail,
    h.size_min,
    length-stored 0 published,
    h.window.start_in,
    small,
  )

  -- At the end of the history it returns no data, the channel to wait on, and the end condition.
  pub read_events_end :
      (next limit : ℕ)
      → length log ≤ next
      → read_chunk b next limit
        ≡ record { chunk = no_chunk; channel = some b.notify; ended = b.closed; reason = b.failure }
  unfolding read_chunk
  read_events_end next limit h' = ground (arith, tail, h.window.start_in, small)

  -- One round of `readEvents` at a positive limit: before the end of the history it returns the
  -- visible part; at the end it returns the retained error or the end of the stream if the buffer is
  -- closed, and waits otherwise.
  pub poll_events_exact :
      (next limit : ℕ)
      → 0 < limit
      → poll b next limit ≡ (
          if ltb next (length log)
          then some (ok (visible b.base log next limit))
          else (if b.closed
              then some (elim b.failure [ none ↦ err eof | some e ↦ err e ])
              else none))
  unfolding poll
  poll_events_exact next limit pos = elim (lt-or-ge next (length log)) [
    | inl before ↦
        ground (arith, read_events_data next limit before, shown_pos next limit before pos)
    | inr after ↦ ground (arith, read_events_end next limit after)
  ]

  -- `readRecent` returns the newest retained events, at most as many as asked for, and the cursor
  -- behind them.
  pub read_recent_events_exact :
      (n : ℕ)
      → read_recent b (ℤ.pos (suc n))
        ≡ ok (record {
          events = drop (length log - min (suc n) b.size) log;
          next = length log;
          dropped = false;
        })
  unfolding read_recent
  read_recent_events_exact n = ground (
    arith,
    h.window.start_in,
    copied start count false (omega (arith, tail, small)) (omega (arith, tail, small)),
    take_of_le count (drop start log) (omega (arith, length-drop start log, tail, small)),
    tail,
    small,
  )
    where
      count : ℕ
      count = min (suc n) b.size

      start : ℕ
      start = u64 (b.base + (b.size - count))
