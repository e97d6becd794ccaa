-- ===== src/Session/Manager.antt =====
-- internal/core/session/manager.go: the Manager of Sessions: registrations, short references, and
-- the openings that `GetOrCreate` makes. Each function here runs under `mu` from lock to unlock.
pub mod Names
pub mod Openings
pub mod Numbers
pub mod Fresh
pub mod Steps
pub mod Registrations
pub mod Changes
pub mod Resolves
pub mod Shared
mod Tests
use Prim.Native.Nat.{Ordering}
use Prim.Native.String.{String, compare}
use channel_term.Prelude.{
  ℕ, zero, suc, ◌+◌, ◌*◌, u64, length, ◌⊎◌, inl, inr, ◌==◌, if◌then◌else◌, Bool, true, false, ◌&&◌,
  ◌||◌, not, List, [], ◌∷◌, Option, none, some, Map, lookup, put, erase,
}
use text.Mathlib.Text.{◌==◌ as str_eq}
use channel_term.Lease.Text.{is_empty}
use channel_term.Session.Lifecycle.{State, fresh, connecting, opened, closing}
use channel_term.Session.Manager.Names.{
  CaseTables, reference_prefix, reference_key, reference_name, session_endpoint_key,
}

-- A Session as the Manager sees it: its ID, the instance (its lifecycle signal channel), and whether
-- it is a `managedLifecycleSession`. Its state is read when it is asked for.
pub record Session : Type 0 where
  pub id : String
  pub instance_ : ℕ
  pub managed : Bool

-- `SessionMetadata`
pub record Metadata : Type 0 where
  pub transport : String
  pub endpoint : String
  pub label : String
  pub reference : String

-- `SessionInfo`
pub record Info : Type 0 where
  pub id : String
  pub metadata : Metadata
  pub state : State

-- `registeredSession`
pub record Registered : Type 0 where
  pub session : Session
  pub metadata : Metadata

-- The errors: those of this file, those of a context or of `create`, by number, and what
-- `errors.Join` makes of two.
pub data ManagerError : Type 0 where
  duplicate_session manager_closed nil_create nil_session : ManagerError
  external : ℕ → ManagerError
  joined : ManagerError → ManagerError → ManagerError

pub data Outcome : Type 0 where
  good : Info → Outcome
  bad : ManagerError → Outcome

-- `Manager`. An `endpointOpening` is its number; `finished` has those whose `done` is closed, with
-- their `info` or `err`.
pub record Manager : Type 0 where
  pub sessions : Map Registered
  pub next_references : Map ℕ
  pub openings : Map ℕ
  pub finished : List (ℕ × Outcome)
  pub created : ℕ
  pub closed : Bool

-- `NewManager`
abbrev pub new : Manager
new = record {
  sessions = [];
  next_references = [];
  openings = [];
  finished = [];
  created = 0;
  closed = false;
}

unfoldable pub with_reference : Map Registered → String → Option (String × Registered)
with_reference [] identifier = none
with_reference ((id, r) ∷ ss) identifier =
    let rest = with_reference ss identifier in
    if str_eq r.metadata.reference identifier then some (id, r) else rest

-- `sessionIDLocked`
unfoldable pub session_id : Map Registered → String → Option (String × Registered)
session_id ss identifier = elim (lookup ss identifier) [
  | some r ↦ some (identifier, r)
  | none ↦ with_reference ss identifier
]

-- A round of the loop of `nextReferenceLocked`: a name that nothing has, or the rounds after it.
abbrev pub picked :
    Option (String × Registered) → String × ℕ → Option (String × ℕ) → Option (String × ℕ)
picked none name rest = some name
picked (some _) name rest = rest

-- The loop from the counter `n` on, on fuel: the reference, and the counter.
unfoldable pub next_free : ℕ → Map Registered → String → ℕ → Option (String × ℕ)
next_free zero ss prefix n = none
next_free (suc f) ss prefix n =
    let k = u64 (n + 1) in
    let name = reference_name prefix k in
    picked (session_id ss name) (name, k) (next_free f ss prefix k)

abbrev pub counter : Map ℕ → String → ℕ
counter counters key = elim (lookup counters key) [ none ↦ 0 | some n ↦ n ]

abbrev pub with_counter : Manager → String → Option (String × ℕ) → Option (String × Manager)
with_counter m key none = none
with_counter m key (some (name, n)) =
    some (name, record m { next_references = put m.next_references key n })

-- `nextReferenceLocked`: each Session has two names that can be taken, so that many rounds and one
-- more are enough.
unfoldable pub next_reference : CaseTables → Manager → String → Option (String × Manager)
next_reference u m transport =
    let key = reference_key u transport in
    with_counter m key (
      next_free (suc (2 * length m.sessions)) m.sessions (reference_prefix u key)
        (counter m.next_references key))

abbrev pub with_name : Metadata → String → Metadata
with_name metadata reference = record metadata { reference = reference }

-- The entry of a Session with its reference.
abbrev pub entered :
    Session → Metadata → Option (String × Manager) → Option (Manager × (ManagerError ⊎ Metadata))
entered s metadata none = none
entered s metadata (some (name, m)) = some (
  record m {
    sessions = put m.sessions s.id (record { session = s; metadata = with_name metadata name });
  },
  inr (with_name metadata name),
)

-- What both ways to register do under `mu`. The result has the metadata with its reference.
unfoldable pub admit :
    CaseTables → Manager → Session → Metadata → Option (Manager × (ManagerError ⊎ Metadata))
admit u m s metadata =
    if m.closed then some (m, inl manager_closed) else elim (lookup m.sessions s.id) [
      | some _ ↦ some (m, inl duplicate_session)
      | none ↦ entered s metadata (next_reference u m metadata.transport)
    ]

-- `RegisterWithMetadata`, up to the event and the watch that follow; `none` is fuel that ran out.
abbrev pub register_with_metadata :
    CaseTables → Manager → Session → Metadata → Option (Manager × (ManagerError ⊎ Metadata))
register_with_metadata = admit

-- `Register`
abbrev pub register : CaseTables → Manager → Session → Option (Manager × (ManagerError ⊎ Metadata))
register u m s =
    register_with_metadata u m s
      (record { transport = ""; endpoint = ""; label = ""; reference = "" })

abbrev pub session_of : Option (String × Registered) → Option Session
session_of none = none
session_of (some (_, r)) = some r.session

-- `Get`
abbrev pub get : Manager → String → Option Session
get m identifier = session_of (session_id m.sessions identifier)

-- `Reference`
abbrev pub reference_of : Manager → String → Option String
reference_of m identifier = elim (session_id m.sessions identifier) [
  | none ↦ none
  | some (_, r) ↦ some r.metadata.reference
]

-- `Remove`
unfoldable pub remove : Manager → String → Manager × Option Session
remove m identifier = elim (session_id m.sessions identifier) [
  | none ↦ (m, none)
  | some (id, r) ↦ (record m { sessions = erase m.sessions id }, some r.session)
]

-- `removeExact`: the entry goes only when it is still this instance.
unfoldable pub remove_exact : Manager → Session → Manager × Bool
remove_exact m s = if not s.managed then (m, false) else elim (lookup m.sessions s.id) [
  | none ↦ (m, false)
  | some r ↦
      if r.session.managed && r.session.instance_ == s.instance_
      then (record m { sessions = erase m.sessions s.id }, true)
      else (m, false)
]

-- `watchLifecycle`, once the lifecycle has ended: whether it closes the Session.
abbrev pub watch_lifecycle : Manager → Session → Bool → Manager × Bool
watch_lifecycle m s should_reap = if s.managed && should_reap then remove_exact m s else (m, false)

-- `List`
pub list : Map Registered → List Session
list [] = []
list ((id, r) ∷ ss) = r.session ∷ list ss

-- `ListInfo`, with the states that the Sessions have when they are asked.
pub list_info : (ℕ → State) → Map Registered → List Info
list_info states [] = []
list_info states ((id, r) ∷ ss) =
    record { id = r.session.id; metadata = r.metadata; state = states r.session.instance_ }
    ∷ list_info states ss

-- `Close`: no new registrations; then, once no opening is left (`none` is a wait), the Sessions to be
-- closed.
abbrev pub close_begin : Manager → Manager
close_begin m = record m { closed = true }

abbrev pub close_with : Manager → Map ℕ → Option (Manager × Map Registered)
close_with m [] = some (record m { sessions = [] }, m.sessions)
close_with m (_ ∷ _) = none

abbrev pub close_end : Manager → Option (Manager × Map Registered)
close_end m = close_with m m.openings

-- The errors of the Sessions that `Close` has taken, by what the `Close` of each instance returns;
-- `errors.Join` makes them one.
pub close_sessions : (ℕ → Option ManagerError) → Map Registered → List ManagerError
close_sessions closes [] = []
close_sessions closes ((id, r) ∷ ss) =
    let rest = close_sessions closes ss in
    elim (closes r.session.instance_) [ none ↦ rest | some e ↦ e ∷ rest ]
