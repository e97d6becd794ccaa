-- ===== src/Session/Events/Tests.antt =====
-- An event buffer of two slots, run on concrete input.
use Prim.Native.String.{String}
use channel_term.Prelude.{◌≡◌, refl, [], ◌∷◌, none, some, arith, false, true, ℤ}
use channel_term.Circular.Window.{copy_slots}
use channel_term.Session.Stream.{ok}
use channel_term.Session.Events.{
  Event, no_event, Buffer, new, append, store, copy_locked, read_chunk, poll,
}
use channel_term.Session.Events.Copy.{
  Metadata, IsCopy, nil_map, map_of, end, field, object, clone_metadata,
}
use channel_term.Session.Events.History.{Publishes, stored, append-Publishes}

abbrev event : String → Event
event kind = record no_event {
  kind = kind;
  metadata = map_of (field "m" (object (map_of end)) end);
}

abbrev fresh : Buffer
fresh = record {
  items = no_event ∷ no_event ∷ [];
  start = 0;
  size = 0;
  base = 0;
  notify = 0;
  closed = false;
  failure = none;
}

new-fresh : new (ℤ.pos 2) ≡ ok fresh
unfolding new
new-fresh = refl

fresh-Publishes : Publishes fresh []
fresh-Publishes = record {
  window = record {
    start_in = omega arith;
    size_in = omega arith;
    tail = omega arith;
    view = λ i h. absurd (omega arith);
  };
  size_min = omega arith;
  small = omega arith;
}

three : Buffer
three = append (append (append fresh (event "a")) (event "b")) (event "c")

-- The newest two, numbered, with the empty nested map made nil.
three_events :
    poll three 0 10
    ≡ some (
        ok (record {
          events =
              record no_event {
                id = 1;
                kind = "b";
                metadata = map_of (field "m" (object nil_map) end);
              }
              ∷ record no_event {
                id = 2;
                kind = "c";
                metadata = map_of (field "m" (object nil_map) end);
              }
              ∷ [];
          next = 3;
          dropped = true;
        }))
unfolding three append store poll read_chunk copy_locked copy_slots clone_metadata
three_events = refl

append-Publishes_example :
    (m : Metadata) × IsCopy (event "a").metadata m
    × Publishes (append fresh (event "a")) (event "a" ∷ [])
    × (stored 0 (event "a" ∷ []) ≡ record (event "a") { id = 0; metadata = m } ∷ [])
append-Publishes_example = append-Publishes fresh (event "a") [] fresh-Publishes refl (omega arith)
