-- ===== src/Session/Receive/Reads.antt =====
-- What `readChunk`, `readRecent` and one round of `readOutput` return, in terms of the history.
use native.Mathlib.Nat.{mod-add-mod, mod-lt}
use channel_term.Prelude.{
  ℕ, suc, ◌+◌, ◌-◌, ◌%◌, ◌<◌, ◌≤◌, min, ◌≡◌, refl, sym, ap, ◌∙◌, inl, inr, List, none, some, length,
  get_elem?, arith, if◌then◌else◌, Bool, false, lt-or-ge, take, drop, u64, sub64, ltb, ℤ,
  length-take, length-drop, take_of_min, take_of_le, get_elem?-drop, get_elem?-take, list_ext,
}
use channel_term.Circular.{length-read_around, get_elem?-read_around, read_around}
use channel_term.Session.Stream.{eof, ok, err}
use channel_term.Session.Receive.{
  Buffer, Chunk, no_chunk, copy_locked, read_chunk, poll, read_recent,
}
use channel_term.Session.Receive.Log.{Holds}

-- The part of the history that a reader at cursor `next` can still see, at most `limit` bytes.
abbrev pub visible : ℕ → List ℕ → ℕ → ℕ → Chunk
visible base log next limit =
    let from = (if ltb next base then base else next) in
    record {
      bytes = take limit (drop from log);
      next = from + length (take limit (drop from log));
      dropped = ltb next base;
    }

module _ (b : Buffer) (log : List ℕ) (h : Holds b log) where
  -- A copy of retained output is the same part of the history.
  copied :
      (from count : ℕ)
      → b.base ≤ from
      → from + count ≤ length log
      → read_around 0 b.items ((b.start + sub64 from b.base) % length b.items) count
        ≡ take count (drop from log)
  copied from count old new =
      list_ext _ _
        (omega (
          arith,
          length-read_around 0 b.items r count,
          length-take count (drop from log),
          length-drop from log,
        ))
        (λ j hj. entry j (omega (arith, length-read_around 0 b.items r count)))
    where
      r : ℕ
      r = (b.start + sub64 from b.base) % length b.items

      entry :
          (j : ℕ)
          → j < count
          → get_elem? (read_around 0 b.items r count) j ≡ get_elem? (take count (drop from log)) j
      entry j hj =
          get_elem?-read_around 0 b.items r count j (mod-lt _ (omega (arith, h.start_in)))
            (omega (arith, h.size_min, h.tail)) hj
          ∙ ap (get_elem? b.items) (
              mod-add-mod (b.start + sub64 from b.base) (length b.items) j
              ∙ ap (λ t. t % length b.items) (omega (arith, h.tail, h.small)))
          ∙ h.view (from - b.base + j) (omega (arith, h.tail))
          ∙ ap (get_elem? log) (omega arith)
          ∙ sym (
              get_elem?-take count (drop from log) j hj ∙ get_elem?-drop from log j (from + j) refl)

  pub copy_locked-Holds :
      (from count : ℕ) (dropped : Bool)
      → b.base ≤ from
      → from + count ≤ length log
      → copy_locked b from count dropped
        ≡ record { bytes = take count (drop from log); next = from + count; dropped = dropped }
  unfolding copy_locked
  copy_locked-Holds from count dropped old new = cc (copied from count old new, next_exact)
    where
      next_exact : u64 (from + count) ≡ from + count
      next_exact = omega (arith, h.small)

  seen :
      (next limit : ℕ)
      → next < length log
      → copy_locked b
          (if ltb next b.base then b.base else next)
          (min limit (u64 (b.base + b.size) - (if ltb next b.base then b.base else next)))
          (ltb next b.base)
        ≡ visible b.base log next limit
  seen next limit h' =
      copy_locked-Holds from count (ltb next b.base) (ground arith)
        (ground (arith, h.tail, h.small))
      ∙ cc (shown, advance)
    where
      from : ℕ
      from = (if ltb next b.base then b.base else next)

      count : ℕ
      count = min limit (u64 (b.base + b.size) - from)

      shown : take count (drop from log) ≡ take limit (drop from log)
      shown =
          take_of_min count limit (drop from log)
            (omega (arith, length-drop from log, h.tail, h.small))

      advance : from + count ≡ from + length (take limit (drop from log))
      advance =
          omega (arith, length-take limit (drop from log), length-drop from log, h.tail, h.small)

  shown_pos :
      (next limit : ℕ)
      → next < length log
      → 0 < limit
      → 0 < length (visible b.base log next limit).bytes
  shown_pos next limit h' pos =
      omega (arith, length-take limit (drop from log), length-drop from log, before)
    where
      from : ℕ
      from = (if ltb next b.base then b.base else next)

      before : from < length log
      before = ground (arith, h.tail, h.size_min, h.start_in)

  -- `readChunk` at a cursor before the end of the history returns the visible part of it.
  pub read_chunk_data :
      (next limit : ℕ)
      → next < length log
      → read_chunk b next limit ≡ record {
        chunk = visible b.base log next limit;
        channel = none;
        ended = false;
        reason = none;
      }
  unfolding read_chunk
  read_chunk_data next limit h' = ground (arith, seen next limit h', h.tail, h.start_in, h.small)

  -- At the end of the history it returns no data, the channel to wait on, and the end condition.
  pub read_chunk_end :
      (next limit : ℕ)
      → length log ≤ next
      → read_chunk b next limit
        ≡ record { chunk = no_chunk; channel = some b.notify; ended = b.closed; reason = b.failure }
  unfolding read_chunk
  read_chunk_end next limit h' = ground (arith, h.tail, h.start_in, h.small)

  -- One round of `readOutput` at a positive limit: before the end of the history it returns the
  -- visible part; at the end it returns the retained error or the end of the stream if the buffer is
  -- closed, and waits otherwise.
  pub poll_output_exact :
      (next limit : ℕ)
      → 0 < limit
      → poll b next limit ≡ (
          if ltb next (length log)
          then some (ok (visible b.base log next limit))
          else (if b.closed
              then some (elim b.failure [ none ↦ err eof | some e ↦ err e ])
              else none))
  unfolding poll
  poll_output_exact next limit pos = elim (lt-or-ge next (length log)) [
    | inl before ↦
        ground (arith, read_chunk_data next limit before, shown_pos next limit before pos)
    | inr after ↦ ground (arith, read_chunk_end next limit after)
  ]

  -- `readRecent` returns the newest retained bytes, at most as many as asked for, and the cursor
  -- behind them.
  pub read_recent_exact :
      (n : ℕ)
      → read_recent b (ℤ.pos (suc n))
        ≡ ok (record {
          bytes = drop (length log - min (suc n) b.size) log;
          next = length log;
          dropped = false;
        })
  unfolding read_recent
  read_recent_exact n = ground (
    arith,
    h.start_in,
    copy_locked-Holds start count false (omega (arith, h.tail, h.small))
        (omega (arith, h.tail, h.small)),
    take_of_le count (drop start log) (omega (arith, length-drop start log, h.tail, h.small)),
    h.tail,
    h.small,
  )
    where
      count : ℕ
      count = min (suc n) b.size

      start : ℕ
      start = u64 (b.base + (b.size - count))
