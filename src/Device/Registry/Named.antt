-- ===== src/Device/Registry/Named.antt =====
-- What a scanner named, by key: the first loop of `scan` keeps the last endpoint of each key.
use Prim.Native.String.{String}
use channel_term.Prelude.{
  ◌≡◌, refl, Option, none, some, List, [], ◌∷◌, arith, Map, lookup, put, inl, inr, if◌then◌else◌,
  text-cases, lookup-put_self, lookup-put_other,
}
use text.Mathlib.Text.{◌==◌ as str_eq}
use text.Mathlib.TextEquality.{eq_iff}
use channel_term.Lease.Text.{trim_space}
use channel_term.Device.Store.{Endpoint, device_key}
use channel_term.Device.Registry.{collect}

-- An endpoint as the Registry keeps it.
abbrev pub as_kept : Endpoint → Endpoint
as_kept e = record e { transport = trim_space e.transport; endpoint = trim_space e.endpoint }

-- The last endpoint that a scanner named with a key.
abbrev pub last_named : List Endpoint → String → Option Endpoint
last_named [] k = none
last_named (e ∷ es) k = elim (last_named es k) [
  | some x ↦ some x
  | none ↦ if str_eq (device_key (as_kept e)) k then some (as_kept e) else none
]

abbrev pub or_else : Option Endpoint → Option Endpoint → Option Endpoint
or_else (some x) o = some x
or_else none o = o

pub or_none : (o : Option Endpoint) → or_else o none ≡ o
or_none none = refl
or_none (some x) = refl

pub collect-last_named :
    (es : List Endpoint) (seen seen' : Map Endpoint) (k : String)
    → collect es seen ≡ some seen'
    → lookup seen' k ≡ or_else (last_named es k) (lookup seen k)
unfolding collect
collect-last_named [] seen seen' k h = ground arith
collect-last_named (e ∷ es) seen seen' k h =
    let key = device_key (as_kept e) in
    let later = collect-last_named es (put seen key (as_kept e)) seen' k (ground arith) in
    elim (text-cases key k) [
      | inl same ↦
          let here : lookup (put seen key (as_kept e)) k ≡ some (as_kept e) =
            rw (← same) (lookup-put_self seen key (as_kept e)) in
          ground (arith, later, here, eq_iff key k)
      | inr other ↦
          ground (arith, later, lookup-put_other seen key k (as_kept e) other, eq_iff key k)
    ]
