-- ===== src/Device/Store/Branches.antt =====
-- The invariant of the loop of `Resolve`: each round keeps it.
use Prim.Native.String.{String}
use channel_term.Prelude.{ℕ, ◌≡◌, refl, Option, List, [], ◌∷◌, arith, Bool-cases, inl, inr}
use channel_term.Device.Store.{
  Evidence, Endpoint, Method, StateDevice, matches, persistent_method, trimmed, device_key,
}
use channel_term.Device.Store.Resolve.{is_used, Scan, by_matches, is_durable, resolve_one}
use channel_term.Device.Store.Ids.{matches-get}
use channel_term.Device.Store.Tracks.{Tracks}
use channel_term.Device.Store.Runtimes.{assign_runtime-Tracks, by_runtime-Tracks}
use channel_term.Device.Store.Durables.{create-Tracks, claim-Tracks}

module _ (before file : List StateDevice) where
  by_matches-Tracks :
      (drawn : ℕ → Option String) (t : Scan) (e : Endpoint) (key : String) (method : Method)
      (evidence : Evidence) (now : ℕ) (ms : List (ℕ × StateDevice))
      → matches t.store.devices 0 e.transport method evidence ≡ ms
      → Tracks before file t
      → Tracks before file (by_matches drawn t e key method evidence now ms).0
  unfolding by_matches
  by_matches-Tracks drawn t e key method evidence now [] x h =
      create-Tracks before file drawn t e key method evidence now h
  by_matches-Tracks drawn t e key method evidence now (m ∷ m' ∷ ms) x h =
      assign_runtime-Tracks before file drawn t key h
  by_matches-Tracks drawn t e key method evidence now ((i, d) ∷ []) x h =
      elim (Bool-cases (is_used t.used d.device_id)) [
        | inl used ↦ rw used (assign_runtime-Tracks before file drawn t key h)
        | inr unused ↦
            let (j, at, there) = matches-get t.store.devices 0 e.transport method evidence i d x in
            let same : j ≡ i = omega (arith, at) in
            rw unused (
              claim-Tracks before file t e key method evidence now i d (rw (← same) there) unused h)
      ]

  -- Each round of the loop keeps the invariant, also one that ends it with an error.
  pub resolve_one-Tracks :
      (drawn : ℕ → Option String) (now : ℕ) (t : Scan) (e : Endpoint)
      → Tracks before file t
      → Tracks before file (resolve_one drawn now t e).0
  unfolding resolve_one
  resolve_one-Tracks drawn now t e h =
      elim (Bool-cases (is_durable (persistent_method (trimmed e.metadata)))) [
        | inl durable ↦ rw durable (by_matches-Tracks drawn t e (device_key e) _ _ now _ refl h)
        | inr fleeting ↦ rw fleeting (by_runtime-Tracks before file drawn t (device_key e) _ refl h)
      ]
