-- ===== src/Session/Activity/Reads.antt =====
-- What `readChunk`, `readRecent` and one round of `readActivity` return, in terms of the history.
use channel_term.Prelude.{
  ℕ, suc, ◌+◌, ◌-◌, ◌<◌, ◌≤◌, min, ◌≡◌, ◌∙◌, inl, inr, List, [], none, some, length, arith,
  if◌then◌else◌, Bool, true, false, lt-or-ge, take, drop, u64, sub64, ltb, ℤ, length-take,
  length-drop, take_of_min, take_of_le, nil_of_length,
}
use channel_term.Circular.Window.{copy_slots-Window}
use channel_term.Session.Stream.{eof, ok, err}
use channel_term.Session.Activity.{
  Entry, no_entry, Buffer, Chunk, copy_locked, read_chunk, poll, read_recent,
}
use channel_term.Session.Activity.Room.{Retains}

-- The part of the history that a reader at cursor `next` can still see, at most `limit` entries.
abbrev pub visible : ℕ → List Entry → ℕ → ℕ → Chunk
visible base log next limit =
    let from = (if ltb next base then base else next) in
    record {
      entries = take limit (drop from log);
      next = from + length (take limit (drop from log));
      dropped = ltb next base;
    }

module _ (b : Buffer) (log : List Entry) (r : Retains b log) where
  copy_locked-Retains :
      (from count : ℕ) (dropped : Bool)
      → b.base ≤ from
      → from + count ≤ length log
      → copy_locked b from count dropped
        ≡ record { entries = take count (drop from log); next = from + count; dropped = dropped }
  unfolding copy_locked
  copy_locked-Retains from count dropped old new =
      let exact : u64 (from + count) ≡ from + count = omega (arith, r.small) in
      let offset : sub64 from b.base ≡ from - b.base = omega (arith, r.small) in
      cc (exact, offset, copy_slots-Window r.window no_entry from count old new)

  seen :
      (next limit : ℕ)
      → next < length log
      → (if ltb next b.base then b.base else next) < length log
      → copy_locked b
          (if ltb next b.base then b.base else next)
          (min limit (u64 (b.base + b.size) - (if ltb next b.base then b.base else next)))
          (ltb next b.base)
        ≡ visible b.base log next limit
  seen next limit h' early =
      copy_locked-Retains from count (ltb next b.base) (ground arith)
        (ground (arith, r.window.tail, r.small))
      ∙ cc (shown, advance)
    where
      from : ℕ
      from = (if ltb next b.base then b.base else next)

      count : ℕ
      count = min limit (u64 (b.base + b.size) - from)

      shown : take count (drop from log) ≡ take limit (drop from log)
      shown =
          take_of_min count limit (drop from log)
            (omega (arith, length-drop from log, r.window.tail, r.small))

      advance : from + count ≡ from + length (take limit (drop from log))
      advance =
          omega
            (arith, length-take limit (drop from log), length-drop from log, r.window.tail, r.small)

  shown_pos :
      (next limit : ℕ)
      → next < length log
      → (if ltb next b.base then b.base else next) < length log
      → 0 < limit
      → 0 < length (visible b.base log next limit).entries
  shown_pos next limit h' early pos =
      let from = (if ltb next b.base then b.base else next) in
      omega (arith, length-take limit (drop from log), length-drop from log, early)

  -- A reader behind an empty window is told so, and goes on at the end of the history.
  gone :
      (next limit : ℕ)
      → next < length log
      → length log ≤ (if ltb next b.base then b.base else next)
      → visible b.base log next limit ≡ record { entries = []; next = b.base; dropped = true }
  gone next limit h' late =
      let behind : ltb next b.base ≡ true = ground arith in rw behind (cc (nothing, stay))
    where
      at_end : length log ≤ b.base
      at_end = ground arith

      nothing : take limit (drop b.base log) ≡ []
      nothing =
          nil_of_length _
            (omega (arith, at_end, length-take limit (drop b.base log), length-drop b.base log))

      stay : b.base + length (take limit (drop b.base log)) ≡ b.base
      stay = omega (arith, at_end, length-take limit (drop b.base log), length-drop b.base log)

  -- One round of `readActivity` at a positive limit: before the end of the history it returns the
  -- visible part, which may be empty if the cursor's place was dropped; at the end it returns the
  -- retained error or the end of the stream if the buffer is closed, and waits otherwise.
  pub poll_activity_exact :
      (next limit : ℕ)
      → 0 < limit
      → poll b next limit ≡ (
          if ltb next (length log)
          then some (ok (visible b.base log next limit))
          else (if b.closed
              then some (elim b.failure [ none ↦ err eof | some e ↦ err e ])
              else none))
  unfolding poll read_chunk
  poll_activity_exact next limit pos = elim (lt-or-ge next (length log)) [
    | inl before ↦ elim (lt-or-ge (if ltb next b.base then b.base else next) (length log)) [
      | inl early ↦ ground (
        arith,
        seen next limit before early,
        shown_pos next limit before early pos,
        r.window.tail,
        r.window.start_in,
        r.small,
      )
      | inr late ↦
          ground (arith, gone next limit before late, r.window.tail, r.window.start_in, r.small)
    ]
    | inr after ↦ ground (arith, r.window.tail, r.window.start_in, r.small)
  ]

  -- `readRecent` returns the newest retained entries, at most as many as asked for, and
  -- the cursor behind them.
  pub read_recent_activity_exact :
      (n : ℕ)
      → read_recent b (ℤ.pos (suc n))
        ≡ ok (record {
          entries = drop (length log - min (suc n) b.size) log;
          next = length log;
          dropped = false;
        })
  unfolding read_recent
  read_recent_activity_exact n = ground (
    arith,
    r.window.start_in,
    copy_locked-Retains start count false (omega (arith, r.window.tail, r.small))
        (omega (arith, r.window.tail, r.small)),
    take_of_le count (drop start log)
        (omega (arith, length-drop start log, r.window.tail, r.small)),
    r.window.tail,
    r.small,
  )
    where
      count : ℕ
      count = min (suc n) b.size

      start : ℕ
      start = u64 (b.base + (b.size - count))
