-- ===== src/Lease/Writes.antt =====
-- `write`, in its two parts around the operation on the Session, and the clean-up of a session's
-- entries: `removeRegistration`, `finishFileTransferExpiry`. All hold the session's gate; `write`
-- holds it across the operation, which is not one step: timers run meanwhile.
use Prim.Native.String.{String}
use channel_term.Prelude.{
  ℕ, ◌+◌, ◌-◌, Bool, true, false, ◌&&◌, ◌||◌, not, Option, none, some, ◌∷◌, ltb, leb, if◌then◌else◌,
}
use text.Mathlib.Text.{◌==◌ as str_eq}
use channel_term.Lease.Text.{is_empty, trim_space}
use channel_term.Lease.State.{same_id, Lease, Coordinator, LeaseError, closing, busy, not_owned}
use channel_term.Lease.Expiry.{expire_locked, settle}
use channel_term.Lease.Requests.{is_completed}

-- How `write` goes on: it returns an error, or runs the operation without or with a count in
-- `activeWrites`.
pub data Admission : Type 0 where
  denied : LeaseError → Admission
  unleased leased : Admission

-- Whether the operation runs.
abbrev pub admits : Admission → Bool
admits (denied e) = false
admits unleased = true
admits leased = true

abbrev denial : Bool → LeaseError → Admission
denial require_lease e = denied (if require_lease then not_owned else e)

-- `write` up to the operation; the last part is the call of `notifyExpired`. A panic is `none`.
unfoldable pub write_begin :
    Coordinator → String → ℕ → Option (Coordinator × Admission × Option (Lease × Bool))
write_begin c owner now =
    let require_lease = not (is_empty (trim_space owner)) in
    elim c.recovering [
      | some r ↦ some (c, denial require_lease closing, none)
      | none ↦ elim c.lease [
        | none ↦ some (c, (if require_lease then denied not_owned else unleased), none)
        | some l ↦
            if not (ltb now l.expires_at)
            then elim (expire_locked c l) [
              | none ↦ none
              | some (c', abort) ↦ some (
                c',
                (if require_lease
                    then denied not_owned
                    else (if abort then denied closing else unleased)),
                some (l, abort),
              )
            ]
            else (if require_lease
                then (if str_eq l.owner owner
                    then some (record c { active_writes = c.active_writes + 1 }, leased, none)
                    else some (c, denied not_owned, none))
                else some (c, denied (busy l), none))
      ]
    ]

-- What a leased write does after its operation.
unfoldable pub write_end : Coordinator → Coordinator
write_end c =
    if leb c.active_writes 1
    then record c { active_writes = 0 }
    else record c { active_writes = c.active_writes - 1 }

abbrev is_other : Option Lease → String → Bool
is_other none reference = false
is_other (some l) reference = not (str_eq l.reference reference)

-- `removeRegistration`; a panic is `none`.
unfoldable pub remove_registration : Coordinator → String → Option Coordinator
remove_registration c reference =
    if not (is_empty reference) && (is_other c.lease reference || is_other c.recovering reference)
    then some c
    else let c' = record c { lease = none; timer = none; active_writes = 0; recovering = none } in
      elim c.control [
        | none ↦ some c'
        | some k ↦
            if is_completed k.state
            then some (record c' { control = none })
            else (if k.released
                then none
                else some (record c' {
                  control = none;
                  settled = settle k k.state k.resolution ∷ c.settled;
                }))
      ]

-- `finishFileTransferExpiry`
unfoldable pub finish_expiry : Coordinator → Lease → Coordinator
finish_expiry c l = elim c.recovering [
  | none ↦ c
  | some r ↦ if same_id r.transfer_id l.transfer_id then record c { recovering = none } else c
]
