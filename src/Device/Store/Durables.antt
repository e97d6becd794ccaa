-- ===== src/Device/Store/Durables.antt =====
-- The invariant of the loop of `Resolve`, where an endpoint gets a durable identity.
use Prim.Native.String.{String}
use channel_term.Prelude.{
  ℕ, ◌≡◌, refl, sym, ◌∙◌, Bool, true, false, ◌||◌, Option, none, some, List, [], ◌∷◌, ◌++◌, arith,
  set, get_elem?, put, inl, inr,
}
use text.Mathlib.TextEquality.{eq_iff}
use channel_term.Device.Store.{
  Evidence, Endpoint, Method, Identity, StateDevice, Store, device_has_id, runtime_has_id,
  update_record,
}
use channel_term.Device.Store.Resolve.{
  allocate_id, is_used, Scan, created, recorded, durable_identity, claim, create,
}
use channel_term.Device.Store.Ids.{
  device_has_id-append, append-Unique, device_has_id-set, set-Unique, device_has_id-get,
  update_record-id, update_record-same, set_same, runtime_has_id-lookup, allocate_id-frame,
  allocate_id-fresh,
}
use channel_term.Device.Store.Tracks.{Sound, Tracks, put-cases, drawn-Tracks}

module _ (before file : List StateDevice) where
  -- A durable identity with the ID `id` is given to the key, where no endpoint has had `id` before.
  durable-Tracks :
      (t : Scan) (key : String) (i : Identity) (devices : List StateDevice) (changed : Bool)
      → Sound devices t.store.runtime
      → i.persistent ≡ true
      → is_used t.used i.device_id ≡ false
      → device_has_id devices i.device_id ≡ true
      → ((id : String)
          → device_has_id devices id ≡ false
          → device_has_id t.store.devices id ≡ false)
      → (changed ≡ false → (t.changed ≡ false) × (devices ≡ t.store.devices))
      → Tracks before file t
      → Tracks before file (record {
        store = record t.store { devices = devices };
        used = i.device_id ∷ t.used;
        resolved = put t.resolved key i;
        changed = changed;
      })
  unfolding is_used
  durable-Tracks t key i devices changed sound durable unused there older same h = record {
    sound = sound;
    older = λ id e. h.older id (older id e);
    unchanged = λ e. (same e).1 ∙ h.unchanged (same e).0;
    unsaved = h.unsaved;
    claimed = λ k x e p. elim (put-cases t.resolved key k i x e) [
      | inl (at, v) ↦ ground (arith, eq_iff i.device_id x.device_id)
      | inr (ne, old) ↦ ground (arith, h.claimed k x old p)
    ];
    known = λ id e. ground (arith, eq_iff i.device_id id, h.known id, older id);
    ephemeral = λ k x e p. elim (put-cases t.resolved key k i x e) [
      | inl (at, v) ↦ ground arith
      | inr (ne, old) ↦ h.ephemeral k x old p
    ];
    once = λ j k x x' e e' p p' eq. elim (put-cases t.resolved key j i x e) [
      | inl (at, v) ↦ elim (put-cases t.resolved key k i x' e') [
        | inl (at', v') ↦ cc (at, at')
        | inr (ne', old') ↦ absurd (ground (arith, h.claimed k x' old' p'))
      ]
      | inr (ne, old) ↦ elim (put-cases t.resolved key k i x' e') [
        | inl (at', v') ↦ absurd (ground (arith, h.claimed j x old p))
        | inr (ne', old') ↦ h.once j k x x' old old' p p' eq
      ]
    ];
  }

  created-Tracks :
      (t : Scan) (e : Endpoint) (key : String) (method : Method) (evidence : Evidence) (now : ℕ)
      (s : Store) (o : Option String)
      → s.devices ≡ t.store.devices
      → s.runtime ≡ t.store.runtime
      → ((id : String)
          → o ≡ some id
          → (device_has_id t.store.devices id ≡ false)
            × (runtime_has_id t.store.runtime id ≡ false))
      → Tracks before file (record t { store = s })
      → Tracks before file (created t e key method evidence now s o).0
  created-Tracks t e key method evidence now s none d r fresh h = h
  created-Tracks t e key method evidence now s (some id) d r fresh h =
      durable-Tracks (record t { store = s }) key (durable_identity method id)
        (s.devices ++ recorded e evidence now id ∷ []) true
        (record {
          unique =
              append-Unique s.devices (recorded e evidence now id) h.sound.unique
                (rw d (fresh id refl).0);
          fleeting = h.sound.fleeting;
          apart = λ k i x. ground (
            arith,
            device_has_id-append s.devices (recorded e evidence now id) i.device_id,
            h.sound.apart k i x,
            eq_iff id i.device_id,
            runtime_has_id-lookup s.runtime k id i (rw r (fresh id refl).1) x,
          );
          own = h.sound.own;
        })
        refl (ground (arith, h.known id, (fresh id refl).0, d))
        (ground
          (arith, device_has_id-append s.devices (recorded e evidence now id) id, eq_iff id id))
        (λ j x. ground (arith, device_has_id-append s.devices (recorded e evidence now id) j))
        (λ x. absurd (ground arith)) h

  pub create-Tracks :
      (drawn : ℕ → Option String) (t : Scan) (e : Endpoint) (key : String) (method : Method)
      (evidence : Evidence) (now : ℕ)
      → Tracks before file t
      → Tracks before file (create drawn t e key method evidence now).0
  unfolding create
  create-Tracks drawn t e key method evidence now h =
      let frame = allocate_id-frame 8 drawn t.store in
      created-Tracks t e key method evidence now (allocate_id 8 drawn t.store).0
        (allocate_id 8 drawn t.store).1 frame.0 frame.1 (allocate_id-fresh 8 drawn t.store)
        (drawn-Tracks before file t (allocate_id 8 drawn t.store).0 frame.0 frame.1 frame.2 h)

  pub claim-Tracks :
      (t : Scan) (e : Endpoint) (key : String) (method : Method) (evidence : Evidence) (now i : ℕ)
      (d : StateDevice)
      → get_elem? t.store.devices i ≡ some d
      → is_used t.used d.device_id ≡ false
      → Tracks before file t
      → Tracks before file (claim t e key method evidence now i d)
  unfolding claim
  claim-Tracks t e key method evidence now i d at unused h =
      durable-Tracks t key (durable_identity method d.device_id) (set t.store.devices i d')
        (t.changed || changed)
        (record {
          unique = set-Unique t.store.devices i d d' at same h.sound.unique;
          fleeting = h.sound.fleeting;
          apart = λ k x eq.
              device_has_id-set t.store.devices i d d' x.device_id at same ∙ h.sound.apart k x eq;
          own = h.sound.own;
        })
        refl unused
        (device_has_id-set t.store.devices i d d' d.device_id at same
          ∙ device_has_id-get t.store.devices i d at)
        (λ id x. sym (device_has_id-set t.store.devices i d d' id at same) ∙ x)
        (λ x. (ground arith, kept (ground arith))) h
    where
      d' : StateDevice
      d' = (update_record d e evidence now).0

      changed : Bool
      changed = (update_record d e evidence now).1

      same : d'.device_id ≡ d.device_id
      same = update_record-id d e evidence now

      kept : changed ≡ false → set t.store.devices i d' ≡ t.store.devices
      kept x = rw (update_record-same d e evidence now x) (set_same t.store.devices i d at)
