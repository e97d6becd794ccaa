-- ===== src/Device/Tests.antt =====
-- A registry with a store, on a scan of three endpoints and one that finds less.
use Prim.Native.String.{String}
use channel_term.Prelude.{
  ℕ, suc, zero, ◌≡◌, refl, true, false, Option, none, some, [], ◌∷◌, ◌++◌, Map, lookup, put, Once,
  inl,
}
use channel_term.Lease.Text.{trim_space, is_empty}
use channel_term.Device.Store.{
  Evidence, Endpoint, Identity, by_usb_serial, at_runtime, Store, persistent_method, is_match,
  matches, update_record, device_has_id, runtime_has_id,
}
use channel_term.Device.Store.Resolve.{
  runtime_identity, allocate_id, is_used, assign_runtime, claim, create, by_matches, by_runtime,
  resolve_one, resolve_all, resolve,
}
use channel_term.Device.Store.Load.{load, absent}
use channel_term.Device.Store.Distinct.{
  Consistent, load-Consistent, resolve-Consistent, resolve_distinct,
}
use channel_term.Device.Events
use channel_term.Device.Registry.{new_device, no_identity, Registry, collect, scan, has}
use channel_term.Device.Registry.Differences.{present_at, news, gone}
use channel_term.Device.Registry.Named.{last_named}
use channel_term.Device.Registry.Scans.{scan_present, scan_events}

abbrev ids : ℕ → Option String
ids zero = some "dev_0"
ids (suc zero) = some "dev_1"
ids (suc (suc n)) = some "dev_2"

abbrev adapter : Evidence
adapter = record {
  vid = "10c4";
  pid = "ea60";
  usb_serial = "S1";
  usb_path = "";
  manufacturer = "";
  product = "";
}

abbrev plain : Evidence
plain = record {
  vid = "";
  pid = "";
  usb_serial = "";
  usb_path = "";
  manufacturer = "";
  product = "";
}

-- Two endpoints that claim one adapter, and one without evidence.
abbrev com8 : Endpoint
com8 = record { transport = "serial"; endpoint = "COM8"; metadata = adapter }

abbrev com9 : Endpoint
com9 = record { transport = "serial"; endpoint = "COM9"; metadata = adapter }

abbrev ttys0 : Endpoint
ttys0 = record { transport = "serial"; endpoint = "ttyS0"; metadata = plain }

abbrev empty : Store
empty = record { devices = []; runtime = []; file = []; draws = 0 }

empty-Consistent : Consistent empty
unfolding load
empty-Consistent = load-Consistent absent true empty refl

-- The file cannot be written.
resolve-Consistent_example : Consistent (resolve ids false empty (com8 ∷ com9 ∷ []) 5).0
resolve-Consistent_example =
    resolve-Consistent ids false empty (com8 ∷ com9 ∷ []) 5 empty-Consistent

abbrev resolved : Map Identity
resolved =
    ("serial\0COM8", record { device_id = "dev_0"; method = by_usb_serial; persistent = true })
    ∷ ("serial\0COM9", record { device_id = "dev_1"; method = at_runtime; persistent = false })
    ∷ []

resolve_two : (resolve ids true empty (com8 ∷ com9 ∷ []) 5).1 ≡ some resolved
unfolding trim_space is_empty persistent_method is_match matches update_record device_has_id
    runtime_has_id allocate_id is_used assign_runtime claim create by_matches by_runtime resolve_one
    resolve_all resolve lookup put
resolve_two = refl

resolve_distinct_example : ◌≡◌ {A = String} "serial\0COM9" "serial\0COM9"
unfolding trim_space is_empty persistent_method is_match matches update_record device_has_id
    runtime_has_id allocate_id is_used assign_runtime claim create by_matches by_runtime resolve_one
    resolve_all resolve lookup put
resolve_distinct_example =
    resolve_distinct ids true empty (com8 ∷ com9 ∷ []) 5 empty-Consistent resolved "serial\0COM9"
      "serial\0COM9" (runtime_identity "dev_1") (runtime_identity "dev_1") refl refl refl refl

-- A registry that knows one device, without a store.
abbrev registry : Registry
registry = record {
  store = none;
  devices = ("serial\0COM8", new_device com8 no_identity 1) ∷ [];
  initialized = true;
  started = true;
  closed = false;
  watching = true;
  events = record {
    items = Events.no_event ∷ Events.no_event ∷ [];
    start = 0;
    size = 0;
    base = 0;
    notify = 0;
    closed = false;
  };
}

scan_present_example :
    present_at (scan registry false (some (com9 ∷ [])) false ids true 7).0.devices "serial\0COM8"
    ≡ has (last_named (com9 ∷ []) "serial\0COM8")
unfolding scan collect put trim_space is_empty
scan_present_example =
    scan_present registry false false (com9 ∷ []) ids true 7 "serial\0COM8" (inl refl) refl

scan_events_example :
    (seen : Map Endpoint) × ((k : String) → lookup seen k ≡ last_named (com9 ∷ []) k)
    × Once seen
    × ((scan registry false (some (com9 ∷ [])) false ids true 7).0.events
        ≡ Events.append_all registry.events
            (news 7 registry.devices seen ++ gone 7 seen registry.devices))
unfolding scan collect put trim_space is_empty
scan_events_example = scan_events registry false false (com9 ∷ []) ids true 7 refl refl
