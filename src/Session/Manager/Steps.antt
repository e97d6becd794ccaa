-- ===== src/Session/Manager/Steps.antt =====
-- The Manager as a step relation: callers of every method, and the parts of `GetOrCreate` and `Close`.
-- Only the owner of an opening ends it, so it is still in the map.
use Prim.Native.String.{String}
use channel_term.Prelude.{ℕ, ◌≡◌, Bool, Option, some, Map, lookup, ◌⊎◌}
use channel_term.Session.Lifecycle.{State}
use channel_term.Session.Manager.Names.{CaseTables}
use channel_term.Session.Manager.{
  Session, Metadata, Registered, ManagerError, Outcome, Manager, register_with_metadata, remove,
  watch_lifecycle, close_begin, close_end,
}
use channel_term.Session.Manager.Openings.{get_or_create_begin, Creation, attempt, finish_opening}

pub data Step (u : CaseTables) (m : Manager) : Manager → Type 0 where
  registers :
      (s : Session) (metadata : Metadata) (m' : Manager) (r : ManagerError ⊎ Metadata)
      → register_with_metadata u m s metadata ≡ some (m', r)
      → Step u m m'
  begins :
      (states : ℕ → State) (cancelled : Option ManagerError) (has_create : Bool)
      (metadata : Metadata)
      → Step u m (get_or_create_begin states m cancelled has_create metadata).0
  attempts :
      (states : ℕ → State) (metadata : Metadata) (c : Creation) (m' : Manager) (o : Outcome)
      → attempt u states m metadata c ≡ some (m', o)
      → Step u m m'
  finishes :
      (key : String) (n : ℕ) (o : Outcome)
      → lookup m.openings key ≡ some n
      → Step u m (finish_opening m key n o)
  removes : (identifier : String) → Step u m (remove m identifier).0
  reaps : (s : Session) (should_reap : Bool) → Step u m (watch_lifecycle m s should_reap).0
  begins_close : Step u m (close_begin m)
  ends_close :
      (m' : Manager) (taken : Map Registered) → close_end m ≡ some (m', taken) → Step u m m'

pub data Reach (u : CaseTables) (m₀ : Manager) : Manager → Type 0 where
  start : Reach u m₀ m₀
  next : {m m' : Manager} → Reach u m₀ m → Step u m m' → Reach u m₀ m'
