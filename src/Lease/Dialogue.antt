-- ===== src/Lease/Dialogue.antt =====
-- The confirmation dialogue: what a decision reaches, when the transfer may go on, and which
-- answers come too late.
use Prim.Native.String.{String}
use text.Mathlib.TextEquality.{eq_iff}
use channel_term.Prelude.{
  ℕ, ◌+◌, ◌≤◌, ◌<◌, ◌≡◌, ◌≢◌, refl, ◌⊎◌, inl, inr, Bool, true, false, ◌&&◌, not, Option, none, some,
  arith, ltb, Bool-cases, Option-cases,
}
use channel_term.Lease.State.{
  LeaseType, is_file_transfer, Identifier, blank, same_id, Lease, Control, running, confirming,
  Coordinator, ok, is_ok, Reply,
}
use channel_term.Lease.Expiry.{expire_locked, is_confirming}
use channel_term.Lease.Requests.{
  grant, acquire, acquire_at, release, Release, end_lease, final_state, is_completed,
}
use channel_term.Lease.Transfer.{expire_confirmation, resolve_cancel, checkpoint, proceed}
use channel_term.Lease.Invariant.{Inv}

-- No completed confirmation waits for its answer.
abbrev pub IsOpen : Option Control → Type 0
IsOpen none = Unit
IsOpen (some k) = is_completed k.state ≡ false

-- The lease is a good file-transfer lease of `owner`, and its control object lets blocks start: it
-- is running, or its pending request has passed its deadline by `t2`.
abbrev pub MayProceed : Option Lease → Option Control → String → ℕ → ℕ → Type 0
MayProceed none k owner t1 t2 = ⊥
MayProceed (some l) none owner t1 t2 = ⊥
MayProceed (some l) (some k) owner t1 t2 =
    (l.owner ≡ owner)
    × (is_file_transfer l.kind ≡ true)
    × (t1 < l.expires_at)
    × ((k.state ≡ running) ⊎ ((k.state ≡ confirming) × (k.deadline ≤ t2)))

module _ (c : Coordinator) (owner : String) (seen : Identifier) (t1 t2 : ℕ) (v : Inv c) where
  proceeds :
      (l : Option Lease) (k : Option Control)
      → c.lease ≡ l
      → c.control ≡ k
      → (checkpoint c owner seen t1 t2).1 ≡ ok proceed
      → MayProceed l k owner t1 t2
  unfolding checkpoint expire_confirmation
  proceeds none k e f h = ground arith
  proceeds (some l) none e f h = ground (arith, eq_iff l.owner owner)
  proceeds (some l) (some k) e f h = ground (arith, eq_iff l.owner owner)

  -- A checkpoint lets the next block start only for the owner of a good file-transfer lease whose
  -- control object is running, or whose unanswered request has passed its deadline.
  pub checkpoint_proceeds :
      (checkpoint c owner seen t1 t2).1 ≡ ok proceed → MayProceed c.lease c.control owner t1 t2
  checkpoint_proceeds = proceeds c.lease c.control refl refl

abbrev is_overdue : Control → ℕ → Bool
is_overdue k now = is_confirming k.state && not (ltb now k.deadline)

-- The request of `k` is unanswered past its deadline, and `k'` is `k` running again without it.
abbrev pub IsRevoked : Control → ℕ → Control → Type 0
IsRevoked k now k' =
    (k.state ≡ confirming)
    × (k.deadline ≤ now)
    × (k'
        ≡ record k { timer = false; state = running; request_id = blank; changed = k.changed + 1 })

-- An answer whose request ID is not that of the control object decides nothing: it is refused, the
-- lease stays, and the control object stays too, unless its own request has passed its deadline:
-- then the transfer runs again without that request, and those who wait for a change are woken.
pub resolve_fenced :
    (c : Coordinator) (k : Control) (request : Identifier) (cancel : Bool) (t1 t2 t3 : ℕ)
    → c.control ≡ some k
    → same_id k.request_id request ≡ false
    → let (c', r) = resolve_cancel c request cancel t1 t2 t3 in
      (is_ok r ≡ false)
      × (c'.lease ≡ c.lease)
      × ((c'.control ≡ some k) ⊎ ((k' : Control) × (c'.control ≡ some k') × IsRevoked k t2 k'))
unfolding resolve_cancel expire_confirmation
resolve_fenced c k request cancel t1 t2 t3 e ne = elim (Bool-cases (is_overdue k t2)) [
  | inl late ↦ elim (Option-cases c.lease) [
    | inl gone ↦ ground arith
    | inr (l, there) ↦ elim (Bool-cases (ltb t1 l.expires_at)) [
      | inl good ↦ (
        ground arith,
        ground arith,
        inr (expire_confirmation k t2, ground arith, (ground arith, ground arith, ground arith)),
      )
      | inr over ↦ ground arith
    ]
  ]
  | inr early ↦ ground arith
]

-- An operation panics only where a completed confirmation waits for its answer: `release` does not
-- panic while the control object, if there is one, has not completed.
pub release_safe :
    (c : Coordinator) (owner : String) (now : ℕ)
    → Inv c
    → IsOpen c.control
    → release c owner now ≢ none
unfolding release end_lease expire_locked
release_safe c owner now v o = ground arith

-- A transfer that is released while a request is pending, an owner who then acquires a lease of
-- another type before the request is answered, and releases it: the second `release` closes a
-- closed channel.
pub late_answer_panics :
    (c : Coordinator) (l l' : Lease) (k : Control) (owner reference : String) (kind : LeaseType)
    (t1 t2 t3 t4 : ℕ) (r : Reply Release) (r' : Reply Lease)
    → Inv c
    → c.lease ≡ some l
    → c.control ≡ some k
    → k.state ≡ confirming
    → t1 < l.expires_at
    → release c l.owner t1 ≡ some r
    → is_file_transfer kind ≡ false
    → acquire r.coordinator owner kind reference t2 t3 ≡ some r'
    → r'.result ≡ ok l'
    → release r'.coordinator l'.owner t4 ≡ none
unfolding release end_lease expire_locked acquire acquire_at grant final_state
late_answer_panics c l l' k owner reference kind t1 t2 t3 t4 r r' v e f st h1 rel nt acq res =
    ground (arith, eq_iff l.owner l.owner, eq_iff l'.owner l'.owner)
