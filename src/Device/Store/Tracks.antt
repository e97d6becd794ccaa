-- ===== src/Device/Store/Tracks.antt =====
-- The invariant of the loop of `Resolve`, and that it does not see draws.
use Prim.Native.String.{String}
use channel_term.Prelude.{
  text-cases, ◌≡◌, ◌≢◌, sym, ◌∙◌, true, false, some, List, Map, lookup, put, lookup-put_self,
  lookup-put_other, ◌⊎◌, inl, inr,
}
use channel_term.Device.Store.{Identity, StateDevice, Store, device_has_id}
use channel_term.Device.Store.Resolve.{is_used, Scan}
use channel_term.Device.Store.Ids.{Unique}

-- The records and the runtime identities have IDs of their own, all different.
pub record Sound (devices : List StateDevice) (runtime : Map Identity) : Type 0 where
  pub unique : Unique devices
  pub fleeting : (k : String) (i : Identity) → lookup runtime k ≡ some i → i.persistent ≡ false
  pub apart :
      (k : String) (i : Identity)
      → lookup runtime k ≡ some i
      → device_has_id devices i.device_id ≡ false
  pub own :
      (j k : String) (i i' : Identity)
      → lookup runtime j ≡ some i
      → lookup runtime k ≡ some i'
      → i.device_id ≡ i'.device_id
      → j ≡ k

-- What the loop keeps, from the devices and the file that it started with.
pub record Tracks (before file : List StateDevice) (t : Scan) : Type 0 where
  pub sound : Sound t.store.devices t.store.runtime
  pub older :
      (id : String) → device_has_id t.store.devices id ≡ false → device_has_id before id ≡ false
  pub unchanged : t.changed ≡ false → t.store.devices ≡ before
  pub unsaved : t.store.file ≡ file
  pub claimed :
      (k : String) (i : Identity)
      → lookup t.resolved k ≡ some i
      → i.persistent ≡ true
      → is_used t.used i.device_id ≡ true
  pub known : (id : String) → is_used t.used id ≡ true → device_has_id t.store.devices id ≡ true
  pub ephemeral :
      (k : String) (i : Identity)
      → lookup t.resolved k ≡ some i
      → i.persistent ≡ false
      → lookup t.store.runtime k ≡ some i
  pub once :
      (j k : String) (i i' : Identity)
      → lookup t.resolved j ≡ some i
      → lookup t.resolved k ≡ some i'
      → i.persistent ≡ true
      → i'.persistent ≡ true
      → i.device_id ≡ i'.device_id
      → j ≡ k

-- A lookup behind `m[key] = v` finds `v` at `key`, and otherwise what was there.
pub put-cases :
    {V : Type 0} (m : Map V) (key k : String) (v w : V)
    → lookup (put m key v) k ≡ some w
    → ((key ≡ k) × (v ≡ w)) ⊎ ((key ≢ k) × (lookup m k ≡ some w))
put-cases m key k v w h = elim (text-cases key k) [
  | inl same ↦ inl (same, cc (lookup-put_self m key v, h, same))
  | inr other ↦ inr (other, sym (lookup-put_other m key k v other) ∙ h)
]

module _ (before file : List StateDevice) where
  -- Only the count of draws has changed.
  pub drawn-Tracks :
      (t : Scan) (s : Store)
      → s.devices ≡ t.store.devices
      → s.runtime ≡ t.store.runtime
      → s.file ≡ t.store.file
      → Tracks before file t
      → Tracks before file (record t { store = s })
  drawn-Tracks t s d r f h = record {
    sound = rw (d, r) h.sound;
    older = rw d h.older;
    unchanged = rw d h.unchanged;
    unsaved = rw f h.unsaved;
    claimed = h.claimed;
    known = rw d h.known;
    ephemeral = rw r h.ephemeral;
    once = h.once;
  }
