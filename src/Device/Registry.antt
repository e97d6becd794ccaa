-- ===== src/Device/Registry.antt =====
-- internal/core/device/registry.go: the devices of a `Registry` and its scans. What the scanner and
-- the clock return is given, and so is whether the context is done; `seen` stands in the order in
-- which the scanner first named each endpoint, which is one of the orders that Go may take.
pub mod Differences
pub mod Named
pub mod Scans
use Prim.Native.String.{String}
use channel_term.Prelude.{
  ℕ, Bool, true, false, ◌&&◌, ◌||◌, not, Option, none, some, List, [], ◌∷◌, ◌++◌, if◌then◌else◌,
  Map, lookup, put,
}
use channel_term.Lease.Text.{is_empty, trim_space}
use channel_term.Device.Store.{Evidence, Endpoint, Identity, Method, unset, Store, device_key}
use channel_term.Device.Store.Resolve.{resolve}
use channel_term.Device.Events
use channel_term.Device.Events.{Event, appeared, disappeared}

pub data Presence : Type 0 where
  present absent : Presence

pub record Device : Type 0 where
  pub identity : Identity
  pub transport : String
  pub endpoint : String
  pub state : Presence
  pub metadata : Evidence
  pub first_seen : ℕ
  pub last_seen : ℕ

pub record Registry : Type 0 where
  pub store : Option Store
  pub devices : Map Device
  pub initialized : Bool
  pub started : Bool
  pub closed : Bool
  pub watching : Bool
  pub events : Events.Buffer

abbrev pub no_identity : Identity
no_identity = record { device_id = ""; method = unset; persistent = false }

-- `identities[key]`, which is the zero value for a missing key.
abbrev pub identity_of : Map Identity → String → Identity
identity_of ids key = elim (lookup ids key) [ none ↦ no_identity | some i ↦ i ]

-- `newDevice`
abbrev pub new_device : Endpoint → Identity → ℕ → Device
new_device e i now = record {
  identity = i;
  transport = e.transport;
  endpoint = e.endpoint;
  state = present;
  metadata = e.metadata;
  first_seen = now;
  last_seen = now;
}

-- The first loop of `scan`: the endpoints by their keys, or `none` for an empty name.
unfoldable pub collect : List Endpoint → Map Endpoint → Option (Map Endpoint)
collect [] seen = some seen
collect (e ∷ es) seen =
    let e' = record e { transport = trim_space e.transport; endpoint = trim_space e.endpoint } in
    let rest = collect es (put seen (device_key e') e') in
    if is_empty e'.transport || is_empty e'.endpoint then none else rest

-- The baseline of the first scan.
unfoldable pub baseline : ℕ → Map Identity → Map Device → Map Endpoint → Map Device
baseline now ids devices [] = devices
baseline now ids devices ((key, e) ∷ seen) =
    baseline now ids (put devices key (new_device e (identity_of ids key) now)) seen

abbrev pub is_present : Device → Bool
is_present d = elim d.state [ present ↦ true | absent ↦ false ]

abbrev pub appearance : ℕ → Endpoint → Event
appearance now e = record {
  timestamp = now;
  kind = appeared;
  transport = e.transport;
  endpoint = e.endpoint;
}

abbrev pub disappearance : ℕ → Device → Event
disappearance now d = record {
  timestamp = now;
  kind = disappeared;
  transport = d.transport;
  endpoint = d.endpoint;
}

-- A known device that is seen again.
abbrev pub refreshed : Device → Endpoint → Option Identity → ℕ → Device
refreshed d e i now = record d {
  state = present;
  metadata = e.metadata;
  identity = (elim i [ none ↦ d.identity | some x ↦ x ]);
  last_seen = now;
}

-- The body of the loop over what is seen, for what is known of the key.
abbrev pub met : ℕ → Map Identity → String → Endpoint → Option Device → Device × List Event
met now ids key e none = (new_device e (identity_of ids key) now, appearance now e ∷ [])
met now ids key e (some d) =
    (refreshed d e (lookup ids key) now, (if is_present d then [] else appearance now e ∷ []))

-- The loop over what is seen.
unfoldable pub meet : ℕ → Map Identity → Map Device → Map Endpoint → Map Device × List Event
meet now ids devices [] = (devices, [])
meet now ids devices ((key, e) ∷ seen) =
    let (d, events) = met now ids key e (lookup devices key) in
    let (devices', events') = meet now ids (put devices key d) seen in (devices', events ++ events')

abbrev pub has {ℓ} : {A : Type ℓ} → Option A → Bool
has none = false
has (some a) = true

-- The loop over the devices.
unfoldable pub part : ℕ → Map Endpoint → Map Device → Map Device × List Event
part now seen [] = ([], [])
part now seen ((key, d) ∷ devices) =
    let (devices', events) = part now seen devices in
    if is_present d && not (has (lookup seen key))
    then ((key, record d { state = absent }) ∷ devices', disappearance now d ∷ events)
    else ((key, d) ∷ devices', events)

-- The two loops, one behind the other.
unfoldable pub compare : ℕ → Map Identity → Map Device → Map Endpoint → Map Device × List Event
compare now ids devices seen =
    let (met_, events) = meet now ids devices seen in
    let (left, events') = part now seen met_ in (left, events ++ events')

-- `scan` behind the identities.
unfoldable pub observe : Registry → ℕ → Map Identity → Map Endpoint → Registry
observe r now ids seen =
    if r.initialized
    then (let (devices, events) = compare now ids r.devices seen in
        record r { devices = devices; events = Events.append_all r.events events })
    else record r { devices = baseline now ids r.devices seen; initialized = true }

-- `scan`: whether the context is done before and behind the call of the scanner, what the scanner
-- returns, and, for the store, the random IDs and whether a write succeeds. The flag is false for an
-- error. The store resolves the endpoints as the scanner named them.
unfoldable pub scan :
    Registry
    → Bool
    → Option (List Endpoint)
    → Bool
    → (ℕ → Option String)
    → Bool
    → ℕ
    → Registry × Bool
scan r done found done' drawn saves now = if done then (r, false) else elim found [
  | none ↦ (r, false)
  | some es ↦ if done' then (r, false) else elim (collect es []) [
    | none ↦ (r, false)
    | some seen ↦ elim r.store [
      | none ↦ (observe r now [] seen, true)
      | some s ↦
          let (s', resolved) = resolve drawn saves s es now in
          elim resolved [
            | none ↦ (record r { store = some s' }, false)
            | some ids ↦ (observe (record r { store = some s' }) now ids seen, true)
          ]
    ]
  ]
]

-- `Start` up to its scan, and what follows a scan that succeeded: whether it goes on.
unfoldable pub start_begin : Registry → Bool
start_begin r = if r.closed then false else (if r.started then false else true)

unfoldable pub start_end : Registry → Registry × Bool
start_end r =
    if r.closed
    then (r, false)
    else (if r.started then (r, false) else (record r { started = true; watching = true }, true))

-- `Close`, and the end of `watch`, which closes the events too.
unfoldable pub close : Registry → Registry
close r =
    if r.closed
    then r
    else record r { closed = true; watching = false; events = Events.close r.events }

unfoldable pub watch_ends : Registry → Registry
watch_ends r = record r { events = Events.close r.events }
