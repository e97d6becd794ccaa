-- ===== src/Session/Events/History.antt =====
-- The abstract history of an event buffer: all published events, numbered from 0.
use channel_term.Prelude.{
  ℕ, suc, ◌+◌, ◌%◌, ◌^◌, ◌<◌, min, ◌≡◌, refl, ap, inl, inr, List, [], ◌∷◌, ◌++◌, map, true, false,
  ◌==◌, arith, length, length-append, length-set, u64, lt-or-ge,
}
use channel_term.Circular.Window.{Window, push-Window, overwrite-Window}
use channel_term.Session.Events.{Event, Buffer, clone_event, append, store}
use channel_term.Session.Events.Copy.{
  Metadata, clone_metadata, clone_metadata_idem, IsCopy, clone_metadata-IsCopy,
}

-- The published events as the Session stores them: the ID is the place in the history, and the
-- metadata is a copy.
abbrev pub stored : ℕ → List Event → List Event
stored i [] = []
stored i (e ∷ es) = record e { id = i; metadata = clone_metadata e.metadata } ∷ stored (suc i) es

pub length-stored : (i : ℕ) (es : List Event) → length (stored i es) ≡ length es
length-stored i [] = refl
length-stored i (e ∷ es) = ap suc (length-stored (suc i) es)

stored-append :
    (i j : ℕ) (es : List Event) (e : Event)
    → j ≡ i + length es
    → stored i (es ++ e ∷ [])
      ≡ stored i es ++ record e { id = j; metadata = clone_metadata e.metadata } ∷ []
stored-append i j [] e h =
    let same : i ≡ j = omega arith in
    ap (λ k. record e { id = k; metadata = clone_metadata e.metadata } ∷ []) same
stored-append i j (x ∷ es) e h =
    ap (◌∷◌ (record x { id = i; metadata = clone_metadata x.metadata }))
      (stored-append (suc i) j es e (omega arith))

-- Copying the stored events again changes nothing.
pub clone-stored : (i : ℕ) (es : List Event) → map clone_event (stored i es) ≡ stored i es
clone-stored i [] = refl
clone-stored i (e ∷ es) = cc (clone_metadata_idem e.metadata, clone-stored (suc i) es)

-- The buffer holds the newest of the published events, as many as it has slots.
pub record Publishes (b : Buffer) (published : List Event) : Type 0 where
  pub window : Window b.items b.start b.size b.base (stored 0 published)
  pub size_min : b.size ≡ min (length b.items) (length published)
  pub small : length published < 2 ^ 64

module _ (b : Buffer) (e : Event) (published : List Event) (h : Publishes b published)
    (fits : length published + 1 < 2 ^ 64) where
  abbrev numbered : Event
  numbered = record e { id = length published; metadata = clone_metadata e.metadata }

  extended : stored 0 (published ++ e ∷ []) ≡ stored 0 published ++ numbered ∷ []
  extended = stored-append 0 (length published) published e (omega arith)

  next_base : u64 (b.base + 1) ≡ b.base + 1
  next_base = omega (arith, h.window.tail, length-stored 0 published)

  store_full : b.size ≡ length b.items → Publishes (store b numbered) (published ++ e ∷ [])
  unfolding store
  store_full full =
      let test : (b.size == length b.items) ≡ true = ground arith in
      rw test (record {
        window = rw (next_base, extended) (overwrite-Window h.window numbered full);
        size_min = omega (
          arith,
          length-set b.items b.start numbered,
          length-append published (e ∷ []),
          h.size_min,
        );
        small = omega (arith, length-append published (e ∷ []));
      })

  store_free : b.size < length b.items → Publishes (store b numbered) (published ++ e ∷ [])
  unfolding store
  store_free free =
      let test : (b.size == length b.items) ≡ false = ground arith in
      rw test (record {
        window = rw extended (push-Window h.window numbered free);
        size_min = omega (
          arith,
          length-set b.items ((b.start + b.size) % length b.items) numbered,
          length-append published (e ∷ []),
          h.size_min,
        );
        small = omega (arith, length-append published (e ∷ []));
      })

  assigned : u64 (b.base + b.size) ≡ length published
  assigned = omega (arith, h.window.tail, length-stored 0 published)

append_open :
    (b : Buffer) (e : Event)
    → 0 < length b.items
    → b.closed ≡ false
    → append b e
      ≡ store b (record e { id = u64 (b.base + b.size); metadata = clone_metadata e.metadata })
unfolding append
append_open b e live open_ = ground arith

published_lem :
    (b : Buffer) (e : Event) (published : List Event)
    → Publishes b published
    → b.closed ≡ false
    → length published + 1 < 2 ^ 64
    → Publishes (append b e) (published ++ e ∷ [])
published_lem b e published h open_ fits =
    rw (append_open b e (omega (arith, h.window.start_in)) open_, assigned b e published h fits)
      (elim (lt-or-ge b.size (length b.items)) [
        | inl free ↦ store_free b e published h fits free
        | inr full ↦ store_full b e published h fits (omega (arith, h.window.size_in))
      ])

-- `append` on an open buffer that holds the published events, fewer than 2^64, gives one that holds
-- them and the new event, numbered by its place, as the newest one, with metadata that is a copy of
-- the event's: the same keys and values at every depth, but nil for a map without entries.
pub append-Publishes :
    (b : Buffer) (e : Event) (published : List Event)
    → Publishes b published
    → b.closed ≡ false
    → length published + 1 < 2 ^ 64
    → (m : Metadata) × IsCopy e.metadata m
      × Publishes (append b e) (published ++ e ∷ [])
      × (stored 0 (published ++ e ∷ [])
          ≡ stored 0 published ++ record e { id = length published; metadata = m } ∷ [])
append-Publishes b e published h open_ fits = (
  clone_metadata e.metadata,
  clone_metadata-IsCopy e.metadata,
  published_lem b e published h open_ fits,
  stored-append 0 (length published) published e (omega arith),
)

pub append-closed : (b : Buffer) (e : Event) → (append b e).closed ≡ b.closed
unfolding append store
append-closed b e = ground arith

pub append_gone :
    (b : Buffer) (e : Event)
    → (length b.items == 0) ≡ true
    → (length (append b e).items == 0) ≡ true
unfolding append
append_gone b e h = ground arith
