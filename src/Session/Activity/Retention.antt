-- ===== src/Session/Activity/Retention.antt =====
-- What an activity buffer retains: the longest end of the history that fits both limits.
use channel_term.Prelude.{
  refl, zero, suc, le→leb, leb-false, ℕ, ◌+◌, ◌^◌, ◌≤◌, ◌<◌, ◌≡◌, ◌⊎◌, inl, inr, List, [], ◌∷◌,
  ◌++◌, false, arith, length, drop, length-append, length-drop, u64, lt-or-ge,
}
use channel_term.Circular.Window.{push-Window}
use channel_term.Session.Activity.{evict, Entry, Buffer, needs_room, make_room, insert, append}
use channel_term.Session.Activity.Room.{
  weight, weight-drop_append, weight-drop_all, Tight, Retains, TooMuch, Roomy, make_room-Roomy,
}

module _ (b : Buffer) (e : Entry) (log : List Entry) (r : Retains b log)
    (fits : length log + 1 < 2 ^ 64) where
  insert_small-Retains :
      needs_room b (length e.payload) ≡ false
      → 0 < length b.items
      → length e.payload ≤ b.max_bytes
      → Retains (insert b e) (log ++ e ∷ [])
  unfolding insert
  insert_small-Retains room live light = rw (le→leb _ _ light) (record {
    window = push-Window r.window e (ground (arith, r.window.size_in));
    counted =
        omega
          (arith, weight-drop_append b.base log (e ∷ []) (omega (arith, r.window.tail)), r.counted);
    within = ground (arith, r.counted, weight-drop_all b.base log, r.window.tail);
    small = omega (arith, length-append log (e ∷ []));
  })

  insert_large-Retains :
      needs_room b (length e.payload) ≡ false
      → b.max_bytes < length e.payload
      → Retains (insert b e) (log ++ e ∷ [])
  unfolding insert
  insert_large-Retains room heavy =
      let none_left : b.size ≡ 0 = ground arith in
      let later : u64 (b.base + 1) ≡ b.base + 1 = omega (arith, r.window.tail) in
      rw (leb-false _ _ heavy) (record {
        window = record {
          start_in = r.window.start_in;
          size_in = r.window.size_in;
          tail = omega (arith, length-append log (e ∷ []), r.window.tail);
          view = λ i h. absurd (omega (arith, none_left));
        };
        counted = omega (
          arith,
          r.counted,
          weight-drop_all b.base log (omega (arith, r.window.tail)),
          weight-drop_all (u64 (b.base + 1)) (log ++ e ∷ [])
              (omega (arith, length-append log (e ∷ []), r.window.tail)),
        );
        within = r.within;
        small = omega (arith, length-append log (e ∷ []));
      })

  insert-Retains :
      needs_room b (length e.payload) ≡ false
      → 0 < length b.items
      → Retains (insert b e) (log ++ e ∷ [])
  insert-Retains room live = elim (lt-or-ge b.max_bytes (length e.payload)) [
    | inl heavy ↦ insert_large-Retains room heavy
    | inr light ↦ insert_small-Retains room live light
  ]

  -- What would be too much with the new entry breaks a limit of the longer history.
  TooMuch-append :
      (cap max_bytes k : ℕ)
      → k ≤ length log
      → TooMuch (cap) max_bytes log (length e.payload) k
      → (cap < length (drop k (log ++ e ∷ []))) ⊎ (max_bytes < weight (drop k (log ++ e ∷ [])))
  TooMuch-append cap max_bytes k h t = ground (
    arith,
    length-drop k log,
    length-drop k (log ++ e ∷ []),
    length-append log (e ∷ []),
    weight-drop_append k log (e ∷ []),
  )

  insert-Tight :
      (cap max_bytes : ℕ)
      → b.max_bytes ≡ max_bytes
      → needs_room b (length e.payload) ≡ false
      → ((k : ℕ) → k < b.base → TooMuch (cap) max_bytes log (length e.payload) k)
      → (k : ℕ) → k < (insert b e).base
      → (cap < length (drop k (log ++ e ∷ []))) ⊎ (max_bytes < weight (drop k (log ++ e ∷ [])))
  unfolding insert
  insert-Tight cap max_bytes same room before k h = elim (lt-or-ge k b.base) [
    | inl old ↦ TooMuch-append cap max_bytes k (omega (arith, r.window.tail)) (before k old)
    | inr new ↦
        TooMuch-append cap max_bytes k (ground (arith, r.window.tail))
          (ground (arith, r.window.tail, weight-drop_all k log))
  ]

append_open :
    (b : Buffer) (e : Entry)
    → 0 < length b.items
    → b.closed ≡ false
    → append b e ≡ insert (make_room b.size b (length e.payload)) e
unfolding append
append_open b e live open_ = ground arith

-- `append` on an open buffer that retains `log` gives one that retains `log` and the new entry:
-- the retained entries are an end of the history within both limits, counted right, and no longer
-- end of the history is within both limits. Fewer than 2^64 entries are appended in all.
pub append-Retains :
    (b : Buffer) (e : Entry) (log : List Entry)
    → Retains b log
    → Tight (length b.items) b.max_bytes log b.base
    → b.closed ≡ false
    → length log + 1 < 2 ^ 64
    → Retains (append b e) (log ++ e ∷ [])
      × Tight (length b.items) b.max_bytes (log ++ e ∷ []) (append b e).base
append-Retains b e log r t open_ fits =
    rw (append_open b e (omega (arith, r.window.start_in)) open_) (
      insert-Retains b' e log m.retains fits m.room (omega (arith, m.capacity, r.window.start_in)),
      tight,
    )
  where
    b' : Buffer
    b' = make_room b.size b (length e.payload)

    m : Roomy b log (length e.payload) b'
    m = make_room-Roomy b.size b log (length e.payload) (omega arith) r

    roomy : (k : ℕ) → k < b'.base → TooMuch (length b.items) b.max_bytes log (length e.payload) k
    roomy = m.tight (λ k h. omega (arith, t k h))

    tight : Tight (length b.items) b.max_bytes (log ++ e ∷ []) (insert b' e).base
    tight = insert-Tight b' e log m.retains fits (length b.items) b.max_bytes m.limit m.room roomy

make_room-closed : (f : ℕ) (b : Buffer) (n : ℕ) → (make_room f b n).closed ≡ b.closed
unfolding make_room evict
make_room-closed zero b n = refl
make_room-closed (suc f) b n = ground (arith, make_room-closed f (evict b) n)

pub append-closed : (b : Buffer) (e : Entry) → (append b e).closed ≡ b.closed
unfolding append insert
append-closed b e = ground (arith, make_room-closed b.size b (length e.payload))

pub append_gone : (b : Buffer) (e : Entry) → b.items ≡ [] → append b e ≡ b
unfolding append
append_gone b e h = ground arith
