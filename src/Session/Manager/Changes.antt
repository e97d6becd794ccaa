-- ===== src/Session/Manager/Changes.antt =====
-- What a step does to the registrations and to the openings.
use Prim.Native.String.{String}
use channel_term.Prelude.{
  ℕ, suc, ◌≡◌, refl, ap, arith, Bool, true, false, not, if◌then◌else◌, [], ◌∷◌, Option, none, some,
  Option-cases, Bool-cases, ◌⊎◌, inl, inr, Map, lookup, put, erase,
}
use channel_term.Session.Lifecycle.{State}
use channel_term.Session.Manager.Names.{CaseTables, session_endpoint_key}
use channel_term.Session.Manager.{
  Session, Metadata, Registered, Info, nil_create, manager_closed, ManagerError, Outcome, Manager,
  session_id, next_reference, entered, admit, with_name, remove, remove_exact, watch_lifecycle,
  close_with,
}
use channel_term.Session.Manager.Openings.{
  refused, join_or_open, use_or_open, active_session, get_or_create_begin, Creation, attempt,
  admitted, finish_opening,
}
use channel_term.Session.Manager.Fresh.{next_reference-fresh}
use channel_term.Session.Manager.Steps.{
  Step, registers, begins, attempts, finishes, removes, reaps, begins_close, ends_close,
}

-- What becomes of the registrations.
pub data RegistrationChange (ss ss' : Map Registered) : Type 0 where
  kept : ss' ≡ ss → RegistrationChange ss ss'
  entered_as :
      (s : Session) (metadata : Metadata)
      → session_id ss metadata.reference ≡ none
      → ss' ≡ put ss s.id (record { session = s; metadata = metadata })
      → RegistrationChange ss ss'
  erased : (id : String) → ss' ≡ erase ss id → RegistrationChange ss ss'
  emptied : ss' ≡ [] → RegistrationChange ss ss'

-- What becomes of the openings.
pub data OpeningChange (m m' : Manager) : Type 0 where
  quiet :
      m'.openings ≡ m.openings
      → m'.finished ≡ m.finished
      → m'.created ≡ m.created
      → OpeningChange m m'
  begun :
      (key : String)
      → lookup m.openings key ≡ none
      → m'.openings ≡ put m.openings key m.created
      → m'.finished ≡ m.finished
      → m'.created ≡ suc m.created
      → OpeningChange m m'
  ended :
      (key : String) (n : ℕ) (o : Outcome)
      → lookup m.openings key ≡ some n
      → m'.openings ≡ erase m.openings key
      → m'.finished ≡ (n, o) ∷ m.finished
      → m'.created ≡ m.created
      → OpeningChange m m'

abbrev pub Change : Manager → Manager → Type 0
Change m m' = RegistrationChange m.sessions m'.sessions × OpeningChange m m'

idle : (m : Manager) → Change m m
idle m = (kept refl, quiet refl refl refl)

same_as : (m m' : Manager) → m' ≡ m → Change m m'
same_as m m' e = (
  kept (ap (λ t. t.sessions) e),
  quiet (ap (λ t. t.openings) e) (ap (λ t. t.finished) e) (ap (λ t. t.created) e),
)

entered-Change :
    (u : CaseTables) (m m' : Manager) (s : Session) (metadata : Metadata)
    (r : ManagerError ⊎ Metadata)
    → entered s metadata (next_reference u m metadata.transport) ≡ some (m', r)
    → Change m m'
entered-Change u m m' s metadata r h = given (next_reference u m metadata.transport) refl h
  where
    given :
        (o : Option (String × Manager))
        → next_reference u m metadata.transport ≡ o
        → entered s metadata o ≡ some (m', r)
        → Change m m'
    given none e h = absurd (ground arith)
    given (some (name, t)) e h =
        let (fresh, counters, same) = next_reference-fresh u m metadata.transport name t e in
        (
          entered_as s (with_name metadata name) fresh (ground (arith, h, same)),
          quiet (ground (arith, h, same)) (ground (arith, h, same)) (ground (arith, h, same)),
        )

admit-Change :
    (u : CaseTables) (m m' : Manager) (s : Session) (metadata : Metadata)
    (r : ManagerError ⊎ Metadata)
    → admit u m s metadata ≡ some (m', r)
    → Change m m'
unfolding admit
admit-Change u m m' s metadata r h = elim (Bool-cases m.closed) [
  | inl e ↦ same_as m m' (ground (arith, h, e))
  | inr e ↦ elim (Option-cases (lookup m.sessions s.id)) [
    | inr (t, f) ↦ same_as m m' (ground (arith, h, e, f))
    | inl f ↦ entered-Change u m m' s metadata r (ground (arith, h, e, f))
  ]
]

begin-Change :
    (states : ℕ → State) (m : Manager) (cancelled : Option ManagerError) (has_create : Bool)
    (metadata : Metadata)
    → Change m (get_or_create_begin states m cancelled has_create metadata).0
unfolding get_or_create_begin
begin-Change states m (some e) has_create metadata = idle m
begin-Change states m none has_create metadata = finds has_create m.closed
  where
    key : String
    key = session_endpoint_key metadata.transport metadata.endpoint

    joins_or_opens : (o : Option ℕ) → lookup m.openings key ≡ o → Change m (join_or_open m key o).0
    joins_or_opens (some n) e = idle m
    joins_or_opens none e = (kept refl, begun key e refl refl refl)

    uses_or_opens : (o : Option Info) → Change m (use_or_open m key o).0
    uses_or_opens (some i) = idle m
    uses_or_opens none = joins_or_opens (lookup m.openings key) refl

    finds :
        (has_create closed : Bool)
        → Change m
            (if not has_create
              then (m, refused nil_create)
              else (if closed
                  then (m, refused manager_closed)
                  else use_or_open m key
                      (active_session states m.sessions metadata.transport metadata.endpoint))).0
    finds false closed = idle m
    finds true true = idle m
    finds true false =
        uses_or_opens (active_session states m.sessions metadata.transport metadata.endpoint)

attempt-Change :
    (u : CaseTables) (states : ℕ → State) (m m' : Manager) (metadata : Metadata) (c : Creation)
    (o : Outcome)
    → attempt u states m metadata c ≡ some (m', o)
    → Change m m'
unfolding attempt
attempt-Change u states m m' metadata c o h = elim (Option-cases c.error) [
  | inr (e, f) ↦ same_as m m' (ground (arith, h, f))
  | inl f ↦ elim (Option-cases c.candidate) [
    | inl g ↦ same_as m m' (ground (arith, h, f, g))
    | inr (s, g) ↦ given s (admit u m s metadata) refl (ground (arith, h, f, g))
  ]
]
  where
    given :
        (s : Session) (a : Option (Manager × (ManagerError ⊎ Metadata)))
        → admit u m s metadata ≡ a
        → admitted states s a ≡ some (m', o)
        → Change m m'
    given s none e h = absurd (ground arith)
    given s (some (t, inl x)) e h = admit-Change u m m' s metadata (inl x) (ground (arith, h, e))
    given s (some (t, inr x)) e h = admit-Change u m m' s metadata (inr x) (ground (arith, h, e))

erased_from :
    (m m' : Manager) (id : String) → m' ≡ record m { sessions = erase m.sessions id } → Change m m'
erased_from m m' id e = (
  erased id (ap (λ t. t.sessions) e),
  quiet (ap (λ t. t.openings) e) (ap (λ t. t.finished) e) (ap (λ t. t.created) e),
)

remove-Change : (m : Manager) (identifier : String) → Change m (remove m identifier).0
unfolding remove
remove-Change m identifier = elim (Option-cases (session_id m.sessions identifier)) [
  | inl e ↦ same_as m _ (ground (arith, e))
  | inr ((id, r), e) ↦ erased_from m _ id (ground (arith, e))
]

reap-Change : (m : Manager) (s : Session) (b : Bool) → Change m (watch_lifecycle m s b).0
unfolding remove_exact
reap-Change m s b = elim reaped [ inl e ↦ same_as m _ e | inr e ↦ erased_from m _ s.id e ]
  where
    reaped :
        ((watch_lifecycle m s b).0 ≡ m)
        ⊎ ((watch_lifecycle m s b).0 ≡ record m { sessions = erase m.sessions s.id })
    reaped = elim (Option-cases (lookup m.sessions s.id)) [
      | inl e ↦ inl (ground (arith, e))
      | inr (r, e) ↦ ground (arith, e)
    ]

pub step-Change : (u : CaseTables) (m m' : Manager) → Step u m m' → Change m m'
unfolding finish_opening
step-Change u m m' (registers s metadata _ r h) = admit-Change u m m' s metadata r h
step-Change u m _ (begins states cancelled has_create metadata) =
    begin-Change states m cancelled has_create metadata
step-Change u m m' (attempts states metadata c _ o h) = attempt-Change u states m m' metadata c o h
step-Change u m _ (finishes key n o h) = (kept refl, ended key n o h refl refl refl)
step-Change u m _ (removes identifier) = remove-Change m identifier
step-Change u m _ (reaps s b) = reap-Change m s b
step-Change u m _ begins_close = (kept refl, quiet refl refl refl)
step-Change u m m' (ends_close _ taken h) = given m.openings h
  where
    given : (os : Map ℕ) → close_with m os ≡ some (m', taken) → Change m m'
    given [] h = (
      emptied (ground (arith, h)),
      quiet (ground (arith, h)) (ground (arith, h)) (ground (arith, h)),
    )
    given (_ ∷ _) h = absurd (ground arith)
