-- ===== src/Device/Store/Runtimes.antt =====
-- The invariant of the loop of `Resolve`, where an endpoint gets a runtime identity.
use Prim.Native.String.{String}
use channel_term.Prelude.{
  ℕ, ◌≡◌, ◌≢◌, refl, ◌∙◌, false, Option, none, some, List, arith, Map, lookup, put, lookup-put_self,
  lookup-put_other, inl, inr,
}
use channel_term.Device.Store.{Identity, StateDevice, Store, device_has_id, runtime_has_id}
use channel_term.Device.Store.Resolve.{
  allocate_id, Scan, runtime_identity, assign_runtime, assigned, by_runtime,
}
use channel_term.Device.Store.Ids.{runtime_has_id-lookup, allocate_id-frame, allocate_id-fresh}
use channel_term.Device.Store.Tracks.{Sound, Tracks, put-cases, drawn-Tracks}

-- A runtime identity with a fresh ID.
fresh_runtime-Sound :
    (devices : List StateDevice) (runtime : Map Identity) (key id : String)
    → Sound devices runtime
    → device_has_id devices id ≡ false
    → runtime_has_id runtime id ≡ false
    → Sound devices (put runtime key (runtime_identity id))
fresh_runtime-Sound devices runtime key id s h k = record {
  unique = s.unique;
  fleeting = λ j i e. elim (put-cases runtime key j (runtime_identity id) i e) [
    | inl (same, v) ↦ ground arith
    | inr (ne, old) ↦ s.fleeting j i old
  ];
  apart = λ j i e. elim (put-cases runtime key j (runtime_identity id) i e) [
    | inl (same, v) ↦ ground arith
    | inr (ne, old) ↦ s.apart j i old
  ];
  own = λ j j' i i' e e' eq. elim (put-cases runtime key j (runtime_identity id) i e) [
    | inl (same, v) ↦ elim (put-cases runtime key j' (runtime_identity id) i' e') [
      | inl (same', v') ↦ ground arith
      | inr (ne', old') ↦ absurd (runtime_has_id-lookup runtime j' id i' k old' (ground arith))
    ]
    | inr (ne, old) ↦ elim (put-cases runtime key j' (runtime_identity id) i' e') [
      | inl (same', v') ↦ absurd (runtime_has_id-lookup runtime j id i k old (ground arith))
      | inr (ne', old') ↦ s.own j j' i i' old old' eq
    ]
  ];
}

module _ (before file : List StateDevice) where
  -- A runtime identity is given to the key: one that it has, or a fresh one.
  pub given-Tracks :
      (t : Scan) (key : String) (i : Identity) (runtime : Map Identity)
      → Sound t.store.devices runtime
      → i.persistent ≡ false
      → lookup runtime key ≡ some i
      → ((k : String) → key ≢ k → lookup runtime k ≡ lookup t.store.runtime k)
      → Tracks before file t
      → Tracks before file (record t {
        store = record t.store { runtime = runtime };
        resolved = put t.resolved key i;
      })
  given-Tracks t key i runtime sound fleeting there rest h = record {
    sound = sound;
    older = h.older;
    unchanged = h.unchanged;
    unsaved = h.unsaved;
    claimed = λ k x e p. elim (put-cases t.resolved key k i x e) [
      | inl (same, v) ↦ ground arith
      | inr (ne, old) ↦ h.claimed k x old p
    ];
    known = h.known;
    ephemeral = λ k x e p. elim (put-cases t.resolved key k i x e) [
      | inl (same, v) ↦ cc (there, same, v)
      | inr (ne, old) ↦ rest k ne ∙ h.ephemeral k x old p
    ];
    once = λ j k x x' e e' p p' eq. elim (put-cases t.resolved key j i x e) [
      | inl (same, v) ↦ ground arith
      | inr (ne, old) ↦ elim (put-cases t.resolved key k i x' e') [
        | inl (same, v) ↦ ground arith
        | inr (ne', old') ↦ h.once j k x x' old old' p p' eq
      ]
    ];
  }

  assigned-Tracks :
      (t : Scan) (key : String) (s : Store) (o : Option String)
      → s.devices ≡ t.store.devices
      → s.runtime ≡ t.store.runtime
      → ((id : String)
          → o ≡ some id
          → (device_has_id t.store.devices id ≡ false)
            × (runtime_has_id t.store.runtime id ≡ false))
      → Sound t.store.devices t.store.runtime
      → Tracks before file (record t { store = s })
      → Tracks before file (assigned t key s o).0
  assigned-Tracks t key s none d r fresh sound h = h
  assigned-Tracks t key s (some id) d r fresh sound h =
      given-Tracks (record t { store = s }) key (runtime_identity id)
        (put s.runtime key (runtime_identity id))
        (rw (d, r)
          (fresh_runtime-Sound t.store.devices t.store.runtime key id sound (fresh id refl).0
            (fresh id refl).1))
        refl (lookup-put_self s.runtime key (runtime_identity id))
        (λ k ne. lookup-put_other s.runtime key k (runtime_identity id) ne) h

  pub assign_runtime-Tracks :
      (drawn : ℕ → Option String) (t : Scan) (key : String)
      → Tracks before file t
      → Tracks before file (assign_runtime drawn t key).0
  unfolding assign_runtime
  assign_runtime-Tracks drawn t key h =
      let (s, o) = allocate_id 8 drawn t.store in
      let frame = allocate_id-frame 8 drawn t.store in
      assigned-Tracks t key (allocate_id 8 drawn t.store).0 (allocate_id 8 drawn t.store).1 frame.0
        frame.1 (allocate_id-fresh 8 drawn t.store) h.sound
        (drawn-Tracks before file t (allocate_id 8 drawn t.store).0 frame.0 frame.1 frame.2 h)

  pub by_runtime-Tracks :
      (drawn : ℕ → Option String) (t : Scan) (key : String) (o : Option Identity)
      → lookup t.store.runtime key ≡ o
      → Tracks before file t
      → Tracks before file (by_runtime drawn t key o).0
  unfolding by_runtime
  by_runtime-Tracks drawn t key none x h = assign_runtime-Tracks drawn t key h
  by_runtime-Tracks drawn t key (some i) x h =
      given-Tracks t key i t.store.runtime h.sound (h.sound.fleeting key i x) x (λ k ne. refl) h
