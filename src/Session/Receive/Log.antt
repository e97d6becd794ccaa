-- ===== src/Session/Receive/Log.antt =====
-- The abstract history of a receive buffer: the list of all bytes ever appended.
use channel_term.Prelude.{
  ℕ, ◌+◌, ◌%◌, ◌^◌, ◌<◌, min, ◌≡◌, List, [], ℤ, length, get_elem?, arith, length-replicate,
}
use channel_term.Session.Stream.{ok}
use channel_term.Session.Receive.{Buffer, new}

-- The storage of `b` holds the newest bytes of `log`, as many as fit, and `base` is the cursor of
-- the oldest of them.
pub record Holds (b : Buffer) (log : List ℕ) : Type 0 where
  pub start_in : b.start < length b.items
  pub size_min : b.size ≡ min (length b.items) (length log)
  pub tail : b.base + b.size ≡ length log
  pub small : length log < 2 ^ 64
  pub view :
      (i : ℕ)
      → i < b.size
      → get_elem? b.items ((b.start + i) % length b.items) ≡ get_elem? log (b.base + i)

-- A fresh buffer of positive capacity holds the empty history.
pub new-Holds : (n : ℕ) (b : Buffer) → new (ℤ.pos (n + 1)) ≡ ok b → Holds b []
unfolding new
new-Holds n b e = ground (arith, length-replicate {A = ℕ} n 0)
