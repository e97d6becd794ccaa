-- ===== src/Device/Registry/Scans.antt =====
-- `scan` as a whole: a scan that succeeds leaves exactly what it found as present and publishes the
-- differences; one that fails changes nothing that a reader can see.
use Prim.Native.String.{String}
use channel_term.Prelude.{
  ℕ, ◌≡◌, refl, Bool, true, false, ◌||◌, Option, none, some, List, [], ◌∷◌, ◌++◌, arith, Map,
  lookup, put, Once, put-Once, Bool-cases, Option-cases, ◌⊎◌, inl, inr, ap, ◌∙◌,
}
use channel_term.Lease.Text.{trim_space}
use channel_term.Device.Store.{Endpoint, Identity, Store, device_key}
use channel_term.Device.Store.Resolve.{resolve}
use channel_term.Device.Events
use channel_term.Device.Events.{Event}
use channel_term.Device.Registry.{
  Device, Registry, has, meet, compare, baseline, new_device, identity_of, collect, observe, scan,
}
use channel_term.Device.Registry.Named.{last_named, or_none, collect-last_named}
use channel_term.Device.Registry.Differences.{
  present_at, present_at-put, meet-present, part-present, part-events, gone-meet, meet-events, news,
  gone,
}

compare-present :
    (now : ℕ) (ids : Map Identity) (devices : Map Device) (seen : Map Endpoint) (k : String)
    → present_at (compare now ids devices seen).0 k ≡ has (lookup seen k)
unfolding compare
compare-present now ids devices seen k = ground (
  arith,
  part-present now seen (meet now ids devices seen).0 k,
  meet-present now ids devices seen k,
)

compare-events :
    (now : ℕ) (ids : Map Identity) (devices : Map Device) (seen : Map Endpoint)
    → Once seen
    → (compare now ids devices seen).1 ≡ news now devices seen ++ gone now seen devices
unfolding compare
compare-events now ids devices seen o = ground (
  arith,
  meet-events now ids devices seen o,
  part-events now seen (meet now ids devices seen).0,
  gone-meet now ids seen seen devices (λ k h. h),
)

baseline-present :
    (now : ℕ) (ids : Map Identity) (devices : Map Device) (seen : Map Endpoint) (k : String)
    → present_at (baseline now ids devices seen) k ≡ (has (lookup seen k) || present_at devices k)
unfolding baseline lookup
baseline-present now ids devices [] k = refl
baseline-present now ids devices ((key, e) ∷ seen) k = ground (
  arith,
  baseline-present now ids (put devices key (new_device e (identity_of ids key) now)) seen k,
  present_at-put devices key k (new_device e (identity_of ids key) now) refl,
)

collect-Once :
    (es : List Endpoint) (seen seen' : Map Endpoint)
    → Once seen
    → collect es seen ≡ some seen'
    → Once seen'
unfolding collect
collect-Once [] seen seen' o h = ground arith
collect-Once (e ∷ es) seen seen' o h =
    let e' : Endpoint = record e {
      transport = trim_space e.transport;
      endpoint = trim_space e.endpoint;
    } in
    collect-Once es (put seen (device_key e') e') seen' (put-Once seen (device_key e') e' o)
      (ground arith)

module _ (r : Registry) (done done' : Bool) (es : List Endpoint) (drawn : ℕ → Option String)
    (saves : Bool) (now : ℕ) where
  abbrev scanned : Registry × Bool
  scanned = scan r done (some es) done' drawn saves now

  -- A scan that succeeds has observed what it found, with some identities.
  observed :
      (seen : Map Endpoint)
      → scanned.1 ≡ true
      → collect es [] ≡ some seen
      → (ids : Map Identity) × (store : Option Store) × (scanned.0
          ≡ observe (record r { store = store }) now ids seen)
  unfolding scan
  observed seen good found = elim (Option-cases r.store) [
    | inl without ↦ ([], none, ground arith)
    | inr (s, with_) ↦ elim (Option-cases (resolve drawn saves s es now).1) [
      | inl error ↦ absurd (ground arith)
      | inr (ids, resolved) ↦ (ids, some (resolve drawn saves s es now).0, ground arith)
    ]
  ]

  collected : scanned.1 ≡ true → (seen : Map Endpoint) × (collect es [] ≡ some seen)
  unfolding scan
  collected good = elim (Option-cases (collect es [])) [
    | inl wrong ↦ absurd (ground arith)
    | inr (seen, found) ↦ (seen, found)
  ]

  -- A scan that fails leaves the devices and the events as they are.
  pub scan_failed :
      scanned.1 ≡ false
      → (scanned.0.devices ≡ r.devices)
        × (scanned.0.events ≡ r.events)
        × (scanned.0.initialized ≡ r.initialized)
  unfolding scan
  scan_failed bad = elim (Option-cases (collect es [])) [
    | inl wrong ↦ ground arith
    | inr (seen, found) ↦ elim (Option-cases r.store) [
      | inl without ↦ ground arith
      | inr (s, with_) ↦ elim (Option-cases (resolve drawn saves s es now).1) [
        | inl error ↦ ground arith
        | inr (ids, resolved) ↦ ground arith
      ]
    ]
  ]

  scan_left :
      (seen : Map Endpoint) (k : String)
      → (r.initialized ≡ true) ⊎ (r.devices ≡ [])
      → scanned.1 ≡ true
      → collect es [] ≡ some seen
      → present_at scanned.0.devices k ≡ has (lookup seen k)
  unfolding observe lookup
  scan_left seen k before good found =
      let (ids, store, after) = observed seen good found in
      elim (Bool-cases r.initialized) [
        | inl later ↦ rw after (ground (arith, compare-present now ids r.devices seen k))
        | inr first ↦ rw after (ground (arith, baseline-present now ids r.devices seen k))
      ]

  scan_published :
      (seen : Map Endpoint)
      → r.initialized ≡ true
      → scanned.1 ≡ true
      → collect es [] ≡ some seen
      → scanned.0.events
        ≡ Events.append_all r.events (news now r.devices seen ++ gone now seen r.devices)
  unfolding observe
  scan_published seen later good found =
      let (ids, store, after) = observed seen good found in
      rw after
        (ground (arith, compare-events now ids r.devices seen (collect-Once es [] seen tt found)))

  -- After a scan that succeeds, a device is present exactly if the scanner named an endpoint with its
  -- key: all others, known or not, are not. Before the first scan the Registry knows no device.
  pub scan_present :
      (k : String)
      → (r.initialized ≡ true) ⊎ (r.devices ≡ [])
      → scanned.1 ≡ true
      → present_at scanned.0.devices k ≡ has (last_named es k)
  unfolding lookup
  scan_present k before good =
      let (seen, found) = collected good in
      scan_left seen k before good found
      ∙ ap has (collect-last_named es [] seen k found ∙ or_none (last_named es k))

  -- After the first scan, a scan that succeeds publishes exactly the differences. For a list of what
  -- the scanner named, in some order, each key once with the last endpoint of that key, these are
  -- first an event of the kind "appeared" for each that was not present, and then one of the kind
  -- "disappeared" for each device that was present and is not in the list; each with the time of the
  -- scan and the transport and endpoint of its device, and there are no others.
  pub scan_events :
      r.initialized ≡ true
      → scanned.1 ≡ true
      → (seen : Map Endpoint) × ((k : String) → lookup seen k ≡ last_named es k)
        × Once seen
        × (scanned.0.events
            ≡ Events.append_all r.events (news now r.devices seen ++ gone now seen r.devices))
  unfolding lookup
  scan_events later good =
      let (seen, found) = collected good in
      (
        seen,
        λ k. collect-last_named es [] seen k found ∙ or_none (last_named es k),
        collect-Once es [] seen tt found,
        scan_published seen later good found,
      )
