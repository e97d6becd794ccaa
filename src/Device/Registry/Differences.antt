-- ===== src/Device/Registry/Differences.antt =====
-- What a scan leaves of the devices, and which events it publishes: the difference of what was
-- present and what the scanner found.
use Prim.Native.String.{String}
use channel_term.Prelude.{
  text-cases, ℕ, ◌≡◌, refl, ap, ◌∙◌, Bool, true, false, ◌&&◌, ◌||◌, not, Option, none, some, List,
  [], ◌∷◌, ◌++◌, arith, if◌then◌else◌, Map, lookup, put, Once, lookup-put_self, lookup-put_other,
  inl, inr,
}
use text.Mathlib.Text.{◌==◌ as str_eq}
use text.Mathlib.TextEquality.{eq_iff}
use channel_term.Device.Store.{Endpoint, Identity}
use channel_term.Device.Events.{Event, appeared, disappeared}
use channel_term.Device.Registry.{Device, is_present, has, meet, met, part}

abbrev pub present_at : Map Device → String → Bool
present_at devices k = elim (lookup devices k) [ none ↦ false | some d ↦ is_present d ]

pub present_at-put :
    (devices : Map Device) (key k : String) (d : Device)
    → is_present d ≡ true
    → present_at (put devices key d) k ≡ (str_eq key k || present_at devices k)
present_at-put devices key k d p = elim (text-cases key k) [
  | inl same ↦ rw (← same) (ground (arith, lookup-put_self devices key d, eq_iff key key))
  | inr other ↦ ground (arith, lookup-put_other devices key k d other, eq_iff key k)
]

met_present :
    (now : ℕ) (ids : Map Identity) (key : String) (e : Endpoint) (o : Option Device)
    → is_present (met now ids key e o).0 ≡ true
met_present now ids key e none = refl
met_present now ids key e (some d) = refl

pub meet-present :
    (now : ℕ) (ids : Map Identity) (devices : Map Device) (seen : Map Endpoint) (k : String)
    → present_at (meet now ids devices seen).0 k ≡ (has (lookup seen k) || present_at devices k)
unfolding meet lookup
meet-present now ids devices [] k = refl
meet-present now ids devices ((key, e) ∷ seen) k =
    meet-present now ids (put devices key (met now ids key e (lookup devices key)).0) seen k
    ∙ ground (
      arith,
      present_at-put devices key k (met now ids key e (lookup devices key)).0
          (met_present now ids key e (lookup devices key)),
    )

pub part-present :
    (now : ℕ) (seen : Map Endpoint) (devices : Map Device) (k : String)
    → present_at (part now seen devices).0 k ≡ (present_at devices k && has (lookup seen k))
unfolding part lookup
part-present now seen [] k = refl
part-present now seen ((key, d) ∷ devices) k =
    ground (arith, part-present now seen devices k, eq_iff key k)

-- The events for what is seen and was not present.
abbrev pub news : ℕ → Map Device → Map Endpoint → List Event
news now devices [] = []
news now devices ((key, e) ∷ seen) =
    let rest = news now devices seen in
    if present_at devices key
    then rest
    else record { timestamp = now; kind = appeared; transport = e.transport; endpoint = e.endpoint }
      ∷ rest

-- The events for what was present and is not seen.
abbrev pub gone : ℕ → Map Endpoint → Map Device → List Event
gone now seen [] = []
gone now seen ((key, d) ∷ devices) =
    let rest = gone now seen devices in
    if is_present d && not (has (lookup seen key))
    then record {
      timestamp = now;
      kind = disappeared;
      transport = d.transport;
      endpoint = d.endpoint;
    }
      ∷ rest
    else rest

pub part-events :
    (now : ℕ) (seen : Map Endpoint) (devices : Map Device)
    → (part now seen devices).1 ≡ gone now seen devices
unfolding part
part-events now seen [] = refl
part-events now seen ((key, d) ∷ devices) = ground (arith, part-events now seen devices)

news-put :
    (now : ℕ) (devices : Map Device) (key : String) (d : Device) (seen : Map Endpoint)
    → lookup seen key ≡ none
    → news now (put devices key d) seen ≡ news now devices seen
unfolding lookup
news-put now devices key d [] h = refl
news-put now devices key d ((k, e) ∷ seen) h = ground (
  arith,
  news-put now devices key d seen,
  lookup-put_other devices key k d,
  eq_iff key k,
  eq_iff k key,
)

gone-put :
    (now : ℕ) (seen : Map Endpoint) (devices : Map Device) (key : String) (d : Device)
    → has (lookup seen key) ≡ true
    → gone now seen (put devices key d) ≡ gone now seen devices
unfolding put
gone-put now seen [] key d h = ground arith
gone-put now seen ((k, x) ∷ devices) key d h =
    ground (arith, gone-put now seen devices key d h, eq_iff k key)

pub gone-meet :
    (now : ℕ) (ids : Map Identity) (all devices_seen : Map Endpoint) (devices : Map Device)
    → ((k : String) → has (lookup devices_seen k) ≡ true → has (lookup all k) ≡ true)
    → gone now all (meet now ids devices devices_seen).0 ≡ gone now all devices
unfolding meet lookup
gone-meet now ids all [] devices h = refl
gone-meet now ids all ((key, e) ∷ seen) devices h =
    gone-meet now ids all seen (put devices key (met now ids key e (lookup devices key)).0)
      (λ k x. h k (ground arith))
    ∙ gone-put now all devices key (met now ids key e (lookup devices key)).0
        (h key (ground (arith, eq_iff key key)))

pub meet-events :
    (now : ℕ) (ids : Map Identity) (devices : Map Device) (seen : Map Endpoint)
    → Once seen
    → (meet now ids devices seen).1 ≡ news now devices seen
unfolding meet
meet-events now ids devices [] o = refl
meet-events now ids devices ((key, e) ∷ seen) o =
    ap (◌++◌ (met now ids key e (lookup devices key)).1) (
      meet-events now ids (put devices key (met now ids key e (lookup devices key)).0) seen o.1
      ∙ news-put now devices key (met now ids key e (lookup devices key)).0 seen o.0)
    ∙ first (lookup devices key) refl
  where
    first :
        (x : Option Device)
        → lookup devices key ≡ x
        → (met now ids key e (lookup devices key)).1 ++ news now devices seen
          ≡ news now devices ((key, e) ∷ seen)
    first none h = ground arith
    first (some d) h = ground arith
