-- ===== src/Session/Receive/Consumer.antt =====
-- A consumer that reads with its own cursor while the Channel reader appends.
use mathlib.Core.List.{append-nil, append_assoc}
use channel_term.Prelude.{
  Bool-cases, true, ◌⊎◌, inl, inr, ℕ, suc, ◌+◌, ◌-◌, ◌^◌, ◌<◌, ◌≤◌, ◌≡◌, sym, ap, ◌∙◌, inl, inr,
  List, [], ◌∷◌, ◌++◌, Option, none, some, length, arith, Bool, false, ◌||◌, lt-or-ge, ltb,
  if◌then◌else◌, take, drop, length-append, length-take, length-drop, slice_append, slice_extend,
}
use channel_term.Session.Stream.{Result, ok, err}
use channel_term.Session.Receive.{Buffer, Chunk, append, append_large, append_small, poll}
use channel_term.Session.Receive.Log.{Holds}
use channel_term.Session.Receive.Appends.{append-Holds}
use channel_term.Session.Receive.Reads.{visible, poll_output_exact}

-- The Channel reader appends, or the consumer polls with a limit of `n + 1` bytes.
pub data Event : Type 0 where
  appended : List ℕ → Event
  polled : ℕ → Event

-- The buffer, the consumer's cursor, what it has received, and whether a chunk was marked dropped.
pub record World : Type 0 where
  pub buffer : Buffer
  pub cursor : ℕ
  pub received : List ℕ
  pub lost : Bool

abbrev receive : World → Option (Result Chunk) → World
receive w none = w
receive w (some (err e)) = w
receive w (some (ok c)) = record w {
  cursor = c.next;
  received = w.received ++ c.bytes;
  lost = w.lost || c.dropped;
}

pub step : World → Event → World
step w (appended p) = record w { buffer = append w.buffer p }
step w (polled n) = receive w (poll w.buffer w.cursor (suc n))

pub run : World → List Event → World
run w [] = w
run w (e ∷ es) = run (step w e) es

-- All that the events append.
abbrev pub produced : List Event → List ℕ
produced [] = []
produced (appended p ∷ es) = p ++ produced es
produced (polled n ∷ es) = produced es

-- While nothing was dropped, the consumer has received exactly the history from its first cursor
-- `origin` up to its present cursor.
record Follows (origin : ℕ) (w : World) (log : List ℕ) : Type 0 where
  holds : Holds w.buffer log
  live : w.buffer.closed ≡ false
  ahead : origin ≤ w.cursor
  within : w.cursor ≤ length log
  exact : w.lost ≡ false → w.received ≡ take (w.cursor - origin) (drop origin log)

closed-append : (b : Buffer) (p : List ℕ) → b.closed ≡ false → (append b p).closed ≡ false
unfolding append append_large append_small
closed-append b p h = ground arith

module _ (origin : ℕ) where
  receive-Follows :
      (w : World) (n : ℕ) (log : List ℕ)
      → Follows origin w log
      → w.cursor < length log
      → Follows origin (receive w (some (ok (visible w.buffer.base log w.cursor n)))) log
  receive-Follows w n log f before = record {
    holds = f.holds;
    live = f.live;
    ahead = ground (arith, f.ahead);
    within = omega (arith, length-take n (drop from log), length-drop from log, from_le);
    exact = λ h. kept h;
  }
    where
      from : ℕ
      from = (if ltb w.cursor w.buffer.base then w.buffer.base else w.cursor)

      from_le : from ≤ length log
      from_le = ground (arith, f.holds.tail)

      kept :
          (w.lost || ltb w.cursor w.buffer.base) ≡ false
          → w.received ++ take n (drop from log)
            ≡ take (from + length (take n (drop from log)) - origin) (drop origin log)
      kept h = rw (
        f.exact (ground arith),
        slice_extend origin (w.cursor - origin) from
            (from + length (take n (drop from log)) - origin) n log (ground (arith, f.ahead))
            from_le (ground (arith, f.ahead)),
      )

  step_append-Follows :
      (w : World) (p log : List ℕ)
      → Follows origin w log
      → length log + length p < 2 ^ 64
      → Follows origin (step w (appended p)) (log ++ p)
  unfolding step
  step_append-Follows w p log f fits = record {
    holds = append-Holds w.buffer p log f.holds f.live fits;
    live = closed-append w.buffer p f.live;
    ahead = f.ahead;
    within = omega (arith, length-append log p, f.within);
    exact = λ h.
        f.exact h
        ∙ sym (slice_append origin (w.cursor - origin) log p (omega (arith, f.within, f.ahead)));
  }

  step_poll-Follows :
      (w : World) (n : ℕ) (log : List ℕ)
      → Follows origin w log
      → Follows origin (step w (polled n)) log
  unfolding step
  step_poll-Follows w n log f =
      let all = poll_output_exact w.buffer log f.holds w.cursor (suc n) (omega arith) in
      elim (lt-or-ge w.cursor (length log)) [
        | inl before ↦
            let seen : poll w.buffer w.cursor (suc n)
                ≡ some (ok (visible w.buffer.base log w.cursor (suc n))) =
              ground (arith, all, f.live) in
            rw seen (receive-Follows w (suc n) log f before)
        | inr after ↦
            let idle : poll w.buffer w.cursor (suc n) ≡ none = ground (arith, all, f.live) in
            rw idle f
      ]

  run-Follows :
      (w : World) (es : List Event) (log : List ℕ)
      → Follows origin w log
      → length (log ++ produced es) < 2 ^ 64
      → Follows origin (run w es) (log ++ produced es)
  unfolding run
  run-Follows w [] log f fits = rw append-nil f
  run-Follows w (appended p ∷ es) log f fits = rw (← append_assoc log p (produced es)) (
      run-Follows (step w (appended p)) es (log ++ p)
        (step_append-Follows w p log f (
          omega (arith, length-append log (p ++ produced es), length-append p (produced es), fits)))
        (rw (append_assoc log p (produced es)) fits))
  run-Follows w (polled n ∷ es) log f fits =
      run-Follows (step w (polled n)) es log (step_poll-Follows w n log f) fits

-- A consumer that starts at its cursor within the history of an open buffer and polls, with any
-- positive limits, while the Channel reader appends: unless a chunk was marked dropped, it has
-- received exactly the bytes from its first cursor to its present one, each once and in order; and
-- in any case its cursor is never before its first one or past the end of the history. Fewer than
-- 2^64 bytes are appended in all.
pub consumer_exact :
    (b : Buffer) (log : List ℕ) (origin : ℕ) (es : List Event)
    → Holds b log
    → b.closed ≡ false
    → origin ≤ length log
    → length (log ++ produced es) < 2 ^ 64
    → let w = run (record { buffer = b; cursor = origin; received = []; lost = false }) es in
      ((w.lost ≡ true) ⊎ (w.received ≡ take (w.cursor - origin) (drop origin (log ++ produced es))))
      × (origin ≤ w.cursor)
      × (w.cursor ≤ length (log ++ produced es))
consumer_exact b log origin es h open_ start fits = (
  elim (Bool-cases
      (run (record { buffer = b; cursor = origin; received = []; lost = false }) es).lost) [
        | inl gap ↦ inl gap
        | inr whole ↦ inr (end.exact whole)
      ],
  end.ahead,
  end.within,
)
  where
    begin : Follows origin (record { buffer = b; cursor = origin; received = []; lost = false }) log
    begin = record {
      holds = h;
      live = open_;
      ahead = omega arith;
      within = start;
      exact = λ _.
          let e : origin - origin ≡ 0 = omega arith in sym (ap (λ k. take k (drop origin log)) e);
    }

    end :
        Follows origin
          (run (record { buffer = b; cursor = origin; received = []; lost = false }) es)
          (log ++ produced es)
    end = run-Follows origin _ es log begin fits
