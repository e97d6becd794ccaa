-- ===== src/Session/Activity/Tests.antt =====
-- An activity buffer of two entries and five bytes, run on concrete input.
use channel_term.Prelude.{ℕ, ◌≡◌, refl, List, [], ◌∷◌, none, some, arith, false, true, ℤ}
use channel_term.Circular.Window.{copy_slots}
use channel_term.Session.Stream.{ok, err, invalid_byte_capacity}
use channel_term.Session.Activity.{
  user, Entry, no_entry, Buffer, new, append, insert, make_room, evict, copy_locked, read_chunk,
  poll,
}
use channel_term.Session.Activity.Room.{Retains, Tight}
use channel_term.Session.Activity.Retention.{append-Retains}

abbrev entry : List ℕ → Entry
entry p = record { timestamp = 0; actor = user; payload = p }

abbrev fresh : Buffer
fresh = record {
  items = no_entry ∷ no_entry ∷ [];
  start = 0;
  size = 0;
  base = 0;
  bytes = 0;
  max_bytes = 5;
  notify = 0;
  closed = false;
  failure = none;
}

new-fresh : new (ℤ.pos 2) (ℤ.pos 5) ≡ ok fresh
unfolding new
new-fresh = refl

new_negative : new (ℤ.pos 2) (ℤ.negsuc 4) ≡ err invalid_byte_capacity
unfolding new
new_negative = refl

fresh-Retains : Retains fresh []
fresh-Retains = record {
  window = record {
    start_in = omega arith;
    size_in = omega arith;
    tail = omega arith;
    view = λ i h. absurd (omega arith);
  };
  counted = refl;
  within = omega arith;
  small = omega arith;
}

fresh-Tight : Tight 2 5 [] 0
fresh-Tight k h = absurd (omega arith)

one : Buffer
one = append fresh (entry (1 ∷ 2 ∷ 3 ∷ []))

-- Four more bytes do not fit beside three.
both : Buffer
both = append one (entry (4 ∷ 5 ∷ 6 ∷ 7 ∷ []))

both_keeps_last :
    poll both 0 10
    ≡ some (ok (record { entries = entry (4 ∷ 5 ∷ 6 ∷ 7 ∷ []) ∷ []; next = 2; dropped = true }))
unfolding both one append insert make_room evict poll read_chunk copy_locked copy_slots
both_keeps_last = refl

-- An entry past the limit is not kept, and a reader behind it is told so.
too_long :
    poll (append one (entry (1 ∷ 1 ∷ 1 ∷ 1 ∷ 1 ∷ 1 ∷ []))) 0 10
    ≡ some (ok (record { entries = []; next = 2; dropped = true }))
unfolding one append insert make_room evict poll read_chunk copy_locked
too_long = refl

one-Retains :
    Retains one (entry (1 ∷ 2 ∷ 3 ∷ []) ∷ []) × Tight 2 5 (entry (1 ∷ 2 ∷ 3 ∷ []) ∷ []) one.base
unfolding one
one-Retains =
    append-Retains fresh (entry (1 ∷ 2 ∷ 3 ∷ [])) [] fresh-Retains fresh-Tight refl (omega arith)

append-Retains_example :
    Retains (append fresh (entry (1 ∷ []))) (entry (1 ∷ []) ∷ [])
    × Tight 2 5 (entry (1 ∷ []) ∷ []) (append fresh (entry (1 ∷ []))).base
append-Retains_example =
    append-Retains fresh (entry (1 ∷ [])) [] fresh-Retains fresh-Tight refl (omega arith)
