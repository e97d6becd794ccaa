-- ===== src/Device/Store/Resolve.antt =====
-- internal/core/device/state.go: `allocateID`, and `Resolve` in its parts.
use Prim.Native.String.{String}
use channel_term.Prelude.{
  ℕ, suc, zero, ◌+◌, Bool, true, false, ◌||◌, Option, none, some, List, [], ◌∷◌, if◌then◌else◌, Map,
  lookup, put, set,
}
use mathlib.Core.List.{◌++◌ as append}
use text.Mathlib.Text.{◌==◌ as str_eq}
use channel_term.Device.Store.{
  Evidence, Endpoint, Method, at_runtime, by_usb_serial, by_usb_path, Identity, StateDevice, Store,
  device_key, trimmed, persistent_method, matches, update_record, has_id,
}

-- `allocateID`, with `tries` tries left: an error of `newID` ends it, and a used ID counts as a try.
unfoldable pub allocate_id : ℕ → (ℕ → Option String) → Store → Store × Option String
allocate_id zero drawn s = (s, none)
allocate_id (suc tries) drawn s =
    let s' = record s { draws = s.draws + 1 } in
    let rest = allocate_id tries drawn s' in
    elim (drawn s.draws) [
      | none ↦ (s', none)
      | some id ↦ if has_id s id then rest else (s', some id)
    ]

-- The variables of `Resolve`.
pub record Scan : Type 0 where
  pub store : Store
  pub used : List String
  pub resolved : Map Identity
  pub changed : Bool

unfoldable pub is_used : List String → String → Bool
is_used [] id = false
is_used (x ∷ xs) id = str_eq x id || is_used xs id

abbrev pub runtime_identity : String → Identity
runtime_identity id = record { device_id = id; method = at_runtime; persistent = false }

-- A new runtime identity for the key, which takes the place of an earlier one, if an ID was
-- allocated; the flag is false if none was.
abbrev pub assigned : Scan → String → Store → Option String → Scan × Bool
assigned t key s none = (record t { store = s }, false)
assigned t key s (some id) = (
  record t {
    store = record s { runtime = put s.runtime key (runtime_identity id) };
    resolved = put t.resolved key (runtime_identity id);
  },
  true,
)

unfoldable pub assign_runtime : (ℕ → Option String) → Scan → String → Scan × Bool
assign_runtime drawn t key =
    let (s, allocated) = allocate_id 8 drawn t.store in assigned t key s allocated

-- The endpoint is the device of one record, at the index `i`.
unfoldable pub claim : Scan → Endpoint → String → Method → Evidence → ℕ → ℕ → StateDevice → Scan
claim t e key method evidence now i d =
    let (d', changed) = update_record d e evidence now in
    record t {
      store = record t.store { devices = set t.store.devices i d' };
      used = d.device_id ∷ t.used;
      resolved =
          put t.resolved key
            (record { device_id = d.device_id; method = method; persistent = true });
      changed = t.changed || changed;
    }

-- The endpoint is a device without a record.
abbrev pub recorded : Endpoint → Evidence → ℕ → String → StateDevice
recorded e evidence now id = record {
  device_id = id;
  transport = e.transport;
  identity = evidence;
  last_endpoint = e.endpoint;
  created_at = now;
  updated_at = now;
}

abbrev pub durable_identity : Method → String → Identity
durable_identity method id = record { device_id = id; method = method; persistent = true }

abbrev pub created :
    Scan → Endpoint → String → Method → Evidence → ℕ → Store → Option String → Scan × Bool
created t e key method evidence now s none = (record t { store = s }, false)
created t e key method evidence now s (some id) = (
  record {
    store = record s { devices = append s.devices (recorded e evidence now id ∷ []) };
    used = id ∷ t.used;
    resolved = put t.resolved key (durable_identity method id);
    changed = true;
  },
  true,
)

unfoldable pub create :
    (ℕ → Option String) → Scan → Endpoint → String → Method → Evidence → ℕ → Scan × Bool
create drawn t e key method evidence now =
    let (s, allocated) = allocate_id 8 drawn t.store in
    created t e key method evidence now s allocated

-- The body of the loop for an endpoint with durable evidence, by the records that match it.
unfoldable pub by_matches :
    (ℕ → Option String)
    → Scan
    → Endpoint
    → String
    → Method
    → Evidence
    → ℕ
    → List (ℕ × StateDevice)
    → Scan × Bool
by_matches drawn t e key method evidence now [] = create drawn t e key method evidence now
by_matches drawn t e key method evidence now ((i, d) ∷ []) =
    if is_used t.used d.device_id
    then assign_runtime drawn t key
    else (claim t e key method evidence now i d, true)
by_matches drawn t e key method evidence now (m ∷ m' ∷ ms) = assign_runtime drawn t key

-- The body of the loop for an endpoint without, by the runtime identity of its key.
unfoldable pub by_runtime : (ℕ → Option String) → Scan → String → Option Identity → Scan × Bool
by_runtime drawn t key (some identity) = (record t { resolved = put t.resolved key identity }, true)
by_runtime drawn t key none = assign_runtime drawn t key

-- Whether the evidence is durable.
abbrev pub is_durable : Method → Bool
is_durable by_usb_serial = true
is_durable by_usb_path = true
is_durable _ = false

-- The body of the loop of `Resolve`; the flag is false if it returns an error.
unfoldable pub resolve_one : (ℕ → Option String) → ℕ → Scan → Endpoint → Scan × Bool
resolve_one drawn now t e =
    let evidence = trimmed e.metadata in
    let method = persistent_method evidence in
    if is_durable method
    then by_matches drawn t e (device_key e) method evidence now
        (matches t.store.devices 0 e.transport method evidence)
    else by_runtime drawn t (device_key e) (lookup t.store.runtime (device_key e))

unfoldable pub resolve_all : (ℕ → Option String) → ℕ → List Endpoint → Scan → Scan × Bool
resolve_all drawn now [] t = (t, true)
resolve_all drawn now (e ∷ es) t =
    let (t', good) = resolve_one drawn now t e in
    let rest = resolve_all drawn now es t' in if good then rest else (t', false)

abbrev pub first_scan : Store → Scan
first_scan s = record { store = s; used = []; resolved = []; changed = false }

-- `Resolve` at the time `now`: an observation time of zero has been replaced by the clock's. `saves`
-- is whether the write of the file succeeds, if there is one. The devices go back to what they were
-- on an error; the runtime identities do not.
unfoldable pub resolve :
    (ℕ → Option String) → Bool → Store → List Endpoint → ℕ → Store × Option (Map Identity)
resolve drawn saves s es now =
    let (t, good) = resolve_all drawn now es (first_scan s) in
    if good
    then (if t.changed
        then (if saves
            then (record t.store { file = t.store.devices }, some t.resolved)
            else (record t.store { devices = s.devices }, none))
        else (t.store, some t.resolved))
    else (record t.store { devices = s.devices }, none)
