-- ===== src/Lease/Requests.antt =====
-- `acquireReferenced`, `renew`, `release`, `status`. Each holds the session's gate throughout, and
-- takes its readings of the clock in order as arguments. A panic is `none`.
use Prim.Native.String.{String}
use channel_term.Prelude.{
  ℕ, ◌+◌, Bool, true, false, ◌&&◌, not, Option, none, some, ◌∷◌, ltb, if◌then◌else◌, u64,
}
use text.Mathlib.Text.{◌==◌ as str_eq}
use channel_term.Lease.Text.{is_empty, trim_space}
use channel_term.Lease.State.{
  LeaseType, valid, is_file_transfer, blank, numbered, Lease, no_progress, Resolution,
  was_cancelled, was_completed, Control, ControlState, running, confirming, cancelled, completed,
  Coordinator, ok, err, LeaseError, invalid_owner, invalid_type, closing, busy, not_owned, Reply,
}
use channel_term.Lease.Expiry.{expire_locked, schedule_expiry, stop_expiry, settle}

-- The end of `acquireReferenced`: a new lease, and a new control object for a file transfer.
unfoldable pub grant : Coordinator → String → LeaseType → String → ℕ → Coordinator × Lease
grant c owner kind reference now =
    let transfers = is_file_transfer kind in
    let next = (if transfers then u64 (c.next_transfer_id + 1) else c.next_transfer_id) in
    let l : Lease = record {
      owner = owner;
      kind = kind;
      transfer_id = (if transfers then numbered next else blank);
      created_at = now;
      expires_at = now + c.ttl;
      reference = reference;
    } in
    let fresh : Control = record {
      serial = c.serials;
      request_id = blank;
      timer = false;
      deadline = 0;
      state = running;
      changed = 0;
      released = false;
      progress = no_progress;
      resolution = none;
    } in
    (
      record c {
        lease = some l;
        timer = some l.expires_at;
        next_transfer_id = next;
        control = (if transfers then some fresh else c.control);
        serials = (if transfers then c.serials + 1 else c.serials);
      },
      l,
    )

abbrev granted : Coordinator × Lease → Option (Lease × Bool) → Reply Lease
granted (c, l) n = record { coordinator = c; result = ok l; notified = n }

abbrev refused {ℓ} : {A : Type ℓ} → Coordinator → LeaseError → Option (Lease × Bool) → Reply A
refused c e n = record { coordinator = c; result = err e; notified = n }

-- `acquireReferenced` behind its checks of the arguments.
unfoldable pub acquire_at : Coordinator → String → LeaseType → String → ℕ → ℕ → Option (Reply Lease)
acquire_at c owner kind reference now now' = elim c.recovering [
  | some r ↦ some (refused c closing none)
  | none ↦ elim c.lease [
    | none ↦ some (granted (grant c owner kind reference now') none)
    | some active ↦
        if ltb now active.expires_at
        then some (refused c (busy active) none)
        else elim (expire_locked c active) [
          | none ↦ none
          | some (c', abort) ↦
              if abort
              then some (refused c' closing (some (active, abort)))
              else some (granted (grant c' owner kind reference now') (some (active, abort)))
        ]
  ]
]

unfoldable pub acquire : Coordinator → String → LeaseType → String → ℕ → ℕ → Option (Reply Lease)
acquire c owner kind reference now now' =
    if is_empty (trim_space owner)
    then some (refused c invalid_owner none)
    else (if valid kind
        then acquire_at c (trim_space owner) kind reference now now'
        else some (refused c invalid_type none))

unfoldable pub renew : Coordinator → String → ℕ → ℕ → Option (Reply Lease)
renew c owner now now' = elim c.lease [
  | none ↦ some (refused c not_owned none)
  | some l ↦
      if not (str_eq l.owner (trim_space owner))
      then some (refused c not_owned none)
      else (if ltb now l.expires_at
          then (let l' : Lease = record l { expires_at = now' + c.ttl } in
              some (granted (schedule_expiry (record c { lease = some l' }) l', l') none))
          else elim (expire_locked c l) [
            | none ↦ none
            | some (c', abort) ↦ some (refused c' not_owned (some (l, abort)))
          ])
]

-- What `release` returns without an error: the lease, if there was one, and the resolution of a
-- cancelled transfer.
pub record Release : Type 0 where
  pub lease : Option Lease
  pub cancelled_as : Option Resolution

abbrev pub is_completed : ControlState → Bool
is_completed completed = true
is_completed _ = false

-- The state and resolution that `release` gives a control object.
unfoldable pub final_state : ControlState → ControlState
final_state confirming = completed
final_state s = s

unfoldable pub final_resolution : Control → Option Resolution
final_resolution k = elim k.state [
  | cancelled ↦ some (record { answer = was_cancelled; progress = k.progress })
  | confirming ↦ some (record { answer = was_completed; progress = k.progress })
  | _ ↦ k.resolution
]

unfoldable pub cancelled_resolution : Control → Option Resolution
cancelled_resolution k = elim k.state [
  | cancelled ↦ some (record { answer = was_cancelled; progress = k.progress })
  | _ ↦ none
]

-- `release` behind its checks: the lease `l` ends. A control object whose transfer has completed
-- while a confirmation was pending stays for the answer.
unfoldable pub end_lease : Coordinator → Lease → Option (Reply Release)
end_lease c l =
    let c' = record (stop_expiry c) { lease = none } in
    elim c.control [
      | none ↦ some (record {
        coordinator = c';
        result = ok (record { lease = some l; cancelled_as = none });
        notified = none;
      })
      | some k ↦
          if k.released
          then none
          else let k' = settle k (final_state k.state) (final_resolution k) in
            some (record {
              coordinator =
                  (if is_completed k'.state
                    then record c' { control = some k' }
                    else record c' { control = none; settled = k' ∷ c.settled });
              result = ok (record { lease = some l; cancelled_as = cancelled_resolution k });
              notified = none;
            })
    ]

unfoldable pub release : Coordinator → String → ℕ → Option (Reply Release)
release c owner now = elim c.lease [
  | none ↦ some (record {
    coordinator = c;
    result = ok (record { lease = none; cancelled_as = none });
    notified = none;
  })
  | some l ↦
      if not (str_eq l.owner owner)
      then some (refused c not_owned none)
      else (if is_file_transfer l.kind && not (ltb now l.expires_at)
          then elim (expire_locked c l) [
            | none ↦ none
            | some (c', abort) ↦ some (refused c' not_owned (some (l, abort)))
          ]
          else end_lease c l)
]

-- `status`: the lease, if there is one that has not expired.
unfoldable pub status :
    Coordinator → ℕ → Option (Coordinator × Option Lease × Option (Lease × Bool))
status c now = elim c.lease [
  | none ↦ some (c, none, none)
  | some l ↦ if ltb now l.expires_at then some (c, some l, none) else elim (expire_locked c l) [
    | none ↦ none
    | some (c', abort) ↦ some (c', none, some (l, abort))
  ]
]
