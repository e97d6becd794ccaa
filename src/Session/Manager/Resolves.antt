-- ===== src/Session/Manager/Resolves.antt =====
-- What `Register`, `Get`, `Reference` and `Remove` promise of the names of a Session.
use Prim.Native.String.{String}
use channel_term.Prelude.{
  ◌+◌, ◌*◌, ◌^◌, ◌<◌, ◌≡◌, ap, ◌∙◌, arith, false, none, some, ◌⊎◌, inl, inr, lookup, put, length,
  Map, lookup-put_self, lookup-erase_self,
}
use mathlib.Core.Path.{subst⁻¹}
use channel_term.Session.Manager.Names.{CaseTables, reference_key}
use channel_term.Session.Manager.{
  Session, Metadata, Registered, Manager, new, session_id, admit, with_name, register_with_metadata,
  get, session_of, reference_of, remove, next_reference, entered,
}
use channel_term.Session.Manager.Fresh.{counter_of, next_reference-returns}
use channel_term.Session.Manager.Registrations.{
  Named, put-Named, erase-Named, session_id-reference, session_id-put, session_id-found, none-Named,
}
use channel_term.Session.Manager.Steps.{Reach, start, next}
use channel_term.Session.Manager.Changes.{
  RegistrationChange, kept, entered_as, erased, emptied, step-Change,
}

registrations-Named : (ss ss' : Map Registered) → RegistrationChange ss ss' → Named ss → Named ss'
registrations-Named ss ss' (kept e) named = subst⁻¹ Named e named
registrations-Named ss ss' (entered_as s metadata fresh e) named =
    subst⁻¹ Named e (put-Named ss s metadata named fresh)
registrations-Named ss ss' (erased id e) named = subst⁻¹ Named e (erase-Named ss id named)
registrations-Named ss ss' (emptied e) named = subst⁻¹ Named e none-Named

Reach-Named : (u : CaseTables) (m : Manager) → Reach u new m → Named m.sessions
Reach-Named u _ start = none-Named
Reach-Named u m' (next {m = m} r s) =
    registrations-Named m.sessions m'.sessions (step-Change u m m' s).0 (Reach-Named u m r)

-- In every state that a new Manager reaches, a registered Session has the ID it is under; `Get` and
-- `Reference` answer for that ID, and `Remove` takes it out; and `Get` with its short reference finds
-- it, unless that is the ID of another registration.
pub names_resolve :
    (u : CaseTables) (m : Manager) (id : String) (r : Registered)
    → Reach u new m
    → lookup m.sessions id ≡ some r
    → (r.session.id ≡ id)
      × (get m id ≡ some r.session)
      × (reference_of m id ≡ some r.metadata.reference)
      × ((remove m id).1 ≡ some r.session)
      × (lookup (remove m id).0.sessions id ≡ none)
      × ((get m r.metadata.reference ≡ some r.session)
          ⊎ ((s : Registered) × (lookup m.sessions r.metadata.reference ≡ some s)))
unfolding session_id remove
names_resolve u m id r reach h = (
  (Reach-Named u m reach).own id r h,
  ap session_of (session_id-found m.sessions id r h),
  ground (arith, h),
  ground (arith, h),
  ground (arith, h, lookup-erase_self m.sessions id),
  elim (session_id-reference m.sessions id r (Reach-Named u m reach) h) [
    | inl e ↦ inl (ap session_of e)
    | inr shadowed ↦ inr shadowed
  ],
)

admit-entered :
    (u : CaseTables) (m : Manager) (s : Session) (metadata : Metadata)
    → m.closed ≡ false
    → lookup m.sessions s.id ≡ none
    → admit u m s metadata ≡ entered s metadata (next_reference u m metadata.transport)
unfolding admit
admit-entered u m s metadata o f = ground (arith, o, f)

-- Registration of a new ID with a Manager that is not closed succeeds, as long as the counter of its
-- transport, with twice the number of Sessions and one more, is below 2 ^ 64: the loop that looks for
-- a reference ends, the reference names no Session there was, and both the ID and the reference now
-- lead to the Session.
pub register-resolves :
    (u : CaseTables) (m : Manager) (s : Session) (metadata : Metadata)
    → m.closed ≡ false
    → lookup m.sessions s.id ≡ none
    → counter_of u m metadata.transport + 2 * length m.sessions + 1 < 2 ^ 64
    → (m' : Manager) × (name : String) × (register_with_metadata u m s metadata
        ≡ some (m', inr (with_name metadata name)))
      × (get m name ≡ none)
      × (get m' s.id ≡ some s)
      × (get m' name ≡ some s)
register-resolves u m s metadata o f far =
    let (name, n, e, fresh) = next_reference-returns u m metadata.transport far in
    let r : Registered = record { session = s; metadata = with_name metadata name } in
    let m' : Manager = record m {
      sessions = put m.sessions s.id r;
      next_references = put m.next_references (reference_key u metadata.transport) n;
    } in
    (
      m',
      name,
      admit-entered u m s metadata o f ∙ ap (entered s metadata) e,
      ap session_of fresh,
      ap session_of (session_id-found m'.sessions s.id r (lookup-put_self m.sessions s.id r)),
      ap session_of (session_id-put m.sessions s.id r fresh),
    )
