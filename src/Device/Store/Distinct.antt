-- ===== src/Device/Store/Distinct.antt =====
-- What a scan may rely on: the memory agrees with the file, all IDs are different, and so are those
-- of the endpoints of one scan.
use Prim.Native.String.{String}
use channel_term.Prelude.{
  ℕ, ◌≡◌, ◌≢◌, refl, sym, ◌∙◌, Bool, true, false, Option, some, List, [], ◌∷◌, arith, Map, lookup,
  Bool-cases, inl, inr,
}
use text.Mathlib.TextEquality.{eq_iff}
use channel_term.Device.Store.{Endpoint, Identity, StateDevice, Store, device_has_id}
use channel_term.Device.Store.Ids.{Unique}
use channel_term.Device.Store.Resolve.{Scan, resolve_one, resolve_all, first_scan, resolve, is_used}
use channel_term.Device.Store.Load.{Found, absent, unreadable, malformed, versioned, load, validate}
use channel_term.Device.Store.Tracks.{Sound, Tracks}
use channel_term.Device.Store.Branches.{resolve_one-Tracks}

pub record Consistent (s : Store) : Type 0 where
  pub sound : Sound s.devices s.runtime
  pub durable : s.file ≡ s.devices

resolve_all-Tracks :
    (before file : List StateDevice) (drawn : ℕ → Option String) (now : ℕ) (es : List Endpoint)
    (t : Scan)
    → Tracks before file t
    → Tracks before file (resolve_all drawn now es t).0
unfolding resolve_all
resolve_all-Tracks before file drawn now [] t h = h
resolve_all-Tracks before file drawn now (e ∷ es) t h =
    let one = resolve_one-Tracks before file drawn now t e h in
    elim (Bool-cases (resolve_one drawn now t e).1) [
      | inl good ↦
          rw good (resolve_all-Tracks before file drawn now es (resolve_one drawn now t e).0 one)
      | inr bad ↦ rw bad one
    ]

first-Tracks : (s : Store) → Sound s.devices s.runtime → Tracks s.devices s.file (first_scan s)
unfolding lookup is_used
first-Tracks s h = record {
  sound = h;
  older = λ id e. e;
  unchanged = λ e. refl;
  unsaved = refl;
  claimed = λ k i e p. ground arith;
  known = λ id e. ground arith;
  ephemeral = λ k i e p. ground arith;
  once = λ j k i i' e e' p p' eq. ground arith;
}

module _ (drawn : ℕ → Option String) (saves : Bool) (s : Store) (es : List Endpoint) (now : ℕ)
    (c : Consistent s) where
  abbrev scanned : Scan × Bool
  scanned = resolve_all drawn now es (first_scan s)

  tracks : Tracks s.devices s.file scanned.0
  tracks = resolve_all-Tracks s.devices s.file drawn now es (first_scan s) (first-Tracks s c.sound)

  rolled_back : Consistent (record scanned.0.store { devices = s.devices })
  rolled_back = record {
    sound = record {
      unique = c.sound.unique;
      fleeting = tracks.sound.fleeting;
      apart = λ k i e. tracks.older i.device_id (tracks.sound.apart k i e);
      own = tracks.sound.own;
    };
    durable = tracks.unsaved ∙ c.durable;
  }

  saved : scanned.1 ≡ true → Consistent (resolve drawn saves s es now).0
  unfolding resolve
  saved good = elim (Bool-cases scanned.0.changed) [
    | inr same ↦
        rw (good, same)
          (record {
            sound = tracks.sound;
            durable = tracks.unsaved ∙ c.durable ∙ sym (tracks.unchanged same);
          })
    | inl changed ↦ elim (Bool-cases saves) [
      | inl written ↦ rw (good, changed, written) (record { sound = tracks.sound; durable = refl })
      | inr lost ↦ rw (good, changed, lost) rolled_back
    ]
  ]

  -- `Resolve` keeps the store consistent, also when it fails to allocate an ID or to write the file:
  -- the records in memory are those of the file, no two of them have one ID, and the runtime
  -- identities have IDs of their own.
  pub resolve-Consistent : Consistent (resolve drawn saves s es now).0
  unfolding resolve
  resolve-Consistent = elim (Bool-cases scanned.1) [
    | inl good ↦ saved good
    | inr bad ↦ rw bad rolled_back
  ]

  resolved_by :
      (m : Map Identity) → (resolve drawn saves s es now).1 ≡ some m → scanned.0.resolved ≡ m
  unfolding resolve
  resolved_by m h = ground arith

  -- When `Resolve` succeeds, no two endpoints of the scan have one device ID, however many records
  -- match them: two endpoints never share a record.
  pub resolve_distinct :
      (m : Map Identity) (j k : String) (i i' : Identity)
      → (resolve drawn saves s es now).1 ≡ some m
      → lookup m j ≡ some i
      → lookup m k ≡ some i'
      → i.device_id ≡ i'.device_id
      → j ≡ k
  resolve_distinct m j k i i' h e e' eq = elim (Bool-cases i.persistent) [
    | inl p ↦ elim (Bool-cases i'.persistent) [
      | inl p' ↦ tracks.once j k i i' in_j in_k p p' eq
      | inr q' ↦ absurd (
          ground (
            arith,
            tracks.known i.device_id (tracks.claimed j i in_j p),
            tracks.sound.apart k i' (tracks.ephemeral k i' in_k q'),
            eq,
          ))
    ]
    | inr q ↦ elim (Bool-cases i'.persistent) [
      | inl p' ↦ absurd (
          ground (
            arith,
            tracks.known i'.device_id (tracks.claimed k i' in_k p'),
            tracks.sound.apart j i (tracks.ephemeral j i in_j q),
            eq,
          ))
      | inr q' ↦
          tracks.sound.own j k i i' (tracks.ephemeral j i in_j q) (tracks.ephemeral k i' in_k q') eq
    ]
  ]
    where
      in_j : lookup scanned.0.resolved j ≡ some i
      in_j = rw (resolved_by m h) e

      in_k : lookup scanned.0.resolved k ≡ some i'
      in_k = rw (resolved_by m h) e'

validate-Unique :
    (seen : List String) (ds : List StateDevice)
    → validate seen ds ≡ true
    → Unique ds × ((id : String) → is_used seen id ≡ true → device_has_id ds id ≡ false)
unfolding validate is_used device_has_id
validate-Unique seen [] h = (tt, λ id e. refl)
validate-Unique seen (d ∷ ds) h =
    let rest = validate-Unique (d.device_id ∷ seen) ds (ground arith) in
    (
      (rest.1 d.device_id (ground (arith, eq_iff d.device_id d.device_id)), rest.0),
      λ id e. ground (arith, rest.1 id, eq_iff d.device_id id),
    )

load-Unique :
    (found : Found) (saves : Bool) (s : Store) → load found saves ≡ some s → Unique s.devices
unfolding load
load-Unique absent saves s h = ground arith
load-Unique unreadable saves s h = ground arith
load-Unique malformed saves s h = ground arith
load-Unique (versioned v ds) saves s h = ground (arith, validate-Unique [] ds)

load_durable :
    (found : Found) (saves : Bool) (s : Store) → load found saves ≡ some s → s.file ≡ s.devices
unfolding load
load_durable absent saves s h = ground arith
load_durable unreadable saves s h = ground arith
load_durable malformed saves s h = ground arith
load_durable (versioned v ds) saves s h = ground arith

no_runtime :
    (found : Found) (saves : Bool) (s : Store)
    → load found saves ≡ some s
    → (k : String) (i : Identity) → lookup s.runtime k ≢ some i
unfolding load lookup
no_runtime absent saves s h k i = ground arith
no_runtime unreadable saves s h k i = ground arith
no_runtime malformed saves s h k i = ground arith
no_runtime (versioned v ds) saves s h k i = ground arith

-- A store that was loaded is consistent, whatever was found at the path.
pub load-Consistent :
    (found : Found) (saves : Bool) (s : Store) → load found saves ≡ some s → Consistent s
load-Consistent found saves s h = record {
  sound = record {
    unique = load-Unique found saves s h;
    fleeting = λ k i e. absurd (no_runtime found saves s h k i e);
    apart = λ k i e. absurd (no_runtime found saves s h k i e);
    own = λ j k i i' e e' eq. absurd (no_runtime found saves s h j i e);
  };
  durable = load_durable found saves s h;
}
