-- ===== src/Session/Manager/Openings.antt =====
-- internal/core/session/manager.go: `GetOrCreate`, in the parts between which it leaves `mu`. What a
-- caller finds at first (`get_or_create_begin`), the registration of a Session that its `create` has
-- opened (`attempt`), and the end of the opening, which wakes those who joined it.
use Prim.Native.Nat.{Ordering}
use Prim.Native.String.{String, compare}
use channel_term.Prelude.{
  ℕ, suc, ◌==◌, if◌then◌else◌, Bool, true, false, ◌&&◌, ◌||◌, not, List, [], ◌∷◌, Option, none,
  some, Map, lookup, put, erase, ◌⊎◌, inl, inr,
}
use text.Mathlib.Text.{◌==◌ as str_eq}
use channel_term.Lease.Text.{is_empty}
use channel_term.Session.Lifecycle.{State, fresh, connecting, opened, closing}
use channel_term.Session.Manager.Names.{CaseTables, session_endpoint_key}
use channel_term.Session.Manager.{
  Session, Metadata, Info, Registered, ManagerError, manager_closed, nil_create, nil_session,
  joined, Outcome, good, bad, Manager, admit,
}

-- `managerOwnsEndpoint`
abbrev pub manager_owns_endpoint : State → Bool
manager_owns_endpoint fresh = true
manager_owns_endpoint connecting = true
manager_owns_endpoint opened = true
manager_owns_endpoint closing = true
manager_owns_endpoint _ = false

-- Whether a registered Session holds an endpoint.
abbrev pub holds : (ℕ → State) → Registered → String → String → Bool
holds states r transport endpoint =
    str_eq r.metadata.transport transport
    && str_eq r.metadata.endpoint endpoint
    && manager_owns_endpoint (states r.session.instance_)

abbrev is_before : String → String → Bool
is_before a b = elim (compare a b) [ Ordering.lt ↦ true | _ ↦ false ]

-- The zero `SessionInfo{}`.
abbrev pub no_info : Info
no_info = record {
  id = "";
  metadata = record { transport = ""; endpoint = ""; label = ""; reference = "" };
  state = fresh;
}

-- One round of the loop of `activeSessionForEndpointLocked`.
unfoldable pub select_info : (ℕ → State) → String → String → Info → String → Registered → Info
select_info states transport endpoint selected id r =
    if holds states r transport endpoint && (is_empty selected.id || is_before id selected.id)
    then record { id = id; metadata = r.metadata; state = states r.session.instance_ }
    else selected

unfoldable pub select_active : (ℕ → State) → Map Registered → String → String → Info → Info
select_active states [] transport endpoint selected = selected
select_active states ((id, r) ∷ ss) transport endpoint selected =
    select_active states ss transport endpoint (select_info states transport endpoint selected id r)

-- `activeSessionForEndpointLocked`
unfoldable pub active_session : (ℕ → State) → Map Registered → String → String → Option Info
active_session states ss transport endpoint =
    let selected = select_active states ss transport endpoint no_info in
    if is_empty selected.id then none else some selected

-- What a caller of `GetOrCreate` finds: it is refused, there is an active Session, it waits for an
-- opening, or it opens the endpoint.
pub data Begin : Type 0 where
  refused : ManagerError → Begin
  present : Info → Begin
  joins : ℕ → Begin
  opens : ℕ → Begin

abbrev pub is_opens : Begin → Bool
is_opens (opens n) = true
is_opens _ = false

-- The last part, with what `openings` has of the endpoint.
abbrev pub join_or_open : Manager → String → Option ℕ → Manager × Begin
join_or_open m key (some n) = (m, joins n)
join_or_open m key none =
    (record m { openings = put m.openings key m.created; created = suc m.created }, opens m.created)

-- The part after the check for an active Session.
abbrev pub use_or_open : Manager → String → Option Info → Manager × Begin
use_or_open m key (some i) = (m, present i)
use_or_open m key none = join_or_open m key (lookup m.openings key)

abbrev pub find_or_open : (ℕ → State) → Manager → Bool → Metadata → Manager × Begin
find_or_open states m has_create metadata =
    if not has_create
    then (m, refused nil_create)
    else (if m.closed
        then (m, refused manager_closed)
        else use_or_open m (session_endpoint_key metadata.transport metadata.endpoint)
            (active_session states m.sessions metadata.transport metadata.endpoint))

unfoldable pub get_or_create_begin :
    (ℕ → State) → Manager → Option ManagerError → Bool → Metadata → Manager × Begin
get_or_create_begin states m cancelled has_create metadata = elim cancelled [
  | some e ↦ (m, refused e)
  | none ↦ find_or_open states m has_create metadata
]

-- What `create` has returned.
pub record Creation : Type 0 where
  pub candidate : Option Session
  pub error : Option ManagerError

abbrev pub admitted :
    (ℕ → State)
    → Session
    → Option (Manager × (ManagerError ⊎ Metadata))
    → Option (Manager × Outcome)
admitted states s none = none
admitted states s (some (m, inl e)) = some (m, bad e)
admitted states s (some (m, inr metadata)) =
    some (m, good (record { id = s.id; metadata = metadata; state = states s.instance_ }))

-- From the return of `create` to the registration of its Session.
unfoldable pub attempt :
    CaseTables → (ℕ → State) → Manager → Metadata → Creation → Option (Manager × Outcome)
attempt u states m metadata c = elim c.error [
  | some e ↦ some (m, bad e)
  | none ↦ elim c.candidate [
    | none ↦ some (m, bad nil_session)
    | some s ↦ admitted states s (admit u m s metadata)
  ]
]

-- A candidate that was not registered is closed; `close_error` is what its `Close` returns.
unfoldable pub dispose : Creation → Option ManagerError → Outcome → Outcome
dispose c close_error (good i) = good i
dispose c close_error (bad e) = elim c.candidate [
  | none ↦ bad e
  | some _ ↦ elim close_error [ none ↦ bad e | some f ↦ bad (joined e f) ]
]

unfoldable pub finish_opening : Manager → String → ℕ → Outcome → Manager
finish_opening m key n o = record m {
  openings = erase m.openings key;
  finished = (n, o) ∷ m.finished;
}

-- What `finished` has of an opening.
unfoldable pub outcome : List (ℕ × Outcome) → ℕ → Option Outcome
outcome [] n = none
outcome ((i, o) ∷ os) n = let rest = outcome os n in if i == n then some o else rest

-- What ends the wait of a caller that joined: its context, or the opening.
pub data Woken : Type 0 where
  by_context : ManagerError → Woken
  by_opening : Woken

-- The result of a caller that joined; `none` is a wait.
unfoldable pub join : Manager → ℕ → Woken → Option Outcome
join m n (by_context e) = some (bad e)
join m n by_opening = outcome m.finished n
