-- ===== src/Lease/Transfer.antt =====
-- The confirmation dialogue of a file transfer: `beginFileTransferCancel`, its timeout,
-- `resolveFileTransferCancel`, `fileTransferCheckpoint`, and the reports of the lease owner.
-- These hold only `mu`. Readings of the clock are arguments, in the order in which they are taken.
use Prim.Native.String.{String}
use channel_term.Prelude.{
  ℕ, ◌+◌, Bool, true, false, ◌&&◌, ◌||◌, not, Option, none, some, List, [], ◌∷◌, ltb, ◌==◌,
  if◌then◌else◌, u64,
}
use text.Mathlib.Text.{◌==◌ as str_eq}
use channel_term.Lease.Text.{trim_space}
use channel_term.Lease.State.{
  is_file_transfer, Identifier, blank, numbered, same_id, Lease, Progress, Resolution, resumed,
  Control, ControlState, running, confirming, cancelled, confirmation_timeout, Coordinator, Result,
  ok, err, not_owned, cancel_pending, cancel_request, id_mismatch, no_control,
}
use channel_term.Lease.Expiry.{expire_locked, is_confirming}
use channel_term.Lease.Requests.{is_completed}

abbrev pub is_running : ControlState → Bool
is_running running = true
is_running _ = false

abbrev pub is_cancelled : ControlState → Bool
is_cancelled cancelled = true
is_cancelled _ = false

-- `expireConfirmation`: an unanswered request past its deadline is revoked.
unfoldable pub expire_confirmation : Control → ℕ → Control
expire_confirmation k now =
    if not (is_confirming k.state) || ltb now k.deadline
    then k
    else record k { timer = false; state = running; request_id = blank; changed = k.changed + 1 }

-- `beginFileTransferCancel`; `none` as the result means that no transfer is active.
unfoldable pub begin_cancel : Coordinator → ℕ → ℕ → ℕ → Coordinator × Result (Option Identifier)
begin_cancel c t1 t2 t3 = elim c.lease [
  | none ↦ (c, ok none)
  | some l ↦
      if not (is_file_transfer l.kind)
      then (c, ok none)
      else (if not (ltb t1 l.expires_at) then (c, err not_owned) else elim c.control [
        | none ↦ (c, err no_control)
        | some k ↦
            let k' = expire_confirmation k t2 in
            if not (is_running k'.state)
            then (record c { control = some k' }, err cancel_pending)
            else let next = u64 (c.next_cancel_request + 1) in
              (
                record c {
                  next_cancel_request = next;
                  control = some (record k' {
                    request_id = numbered next;
                    state = confirming;
                    deadline = t3 + confirmation_timeout;
                    timer = true;
                  });
                },
                ok (some (numbered next)),
              )
      ])
]

-- `expireFileTransferConfirmation`, the callback of the timer that `begin_cancel` starts, with the
-- control object and the request that it captured. A panic is `none`.
unfoldable pub expire_request :
    Coordinator → ℕ → Identifier → ℕ → ℕ → ℕ → Option (Coordinator × Option (Lease × Bool))
expire_request c serial request t1 t2 t3 = elim c.control [
  | none ↦ some (c, none)
  | some k ↦
      if not (k.serial == serial)
        || not (same_id k.request_id request)
        || not (is_confirming k.state)
        || ltb t1 k.deadline
      then some (c, none)
      else elim c.lease [
        | none ↦ some (c, none)
        | some l ↦
            if not (ltb t2 l.expires_at)
            then elim (expire_locked c l) [
              | none ↦ none
              | some (c', abort) ↦ some (c', some (l, abort))
            ]
            else some (record c { control = some (expire_confirmation k t3) }, none)
      ]
]

-- What `resolveFileTransferCancel` returns without an error: a resolution, or it waits until the
-- `released` channel of the control object is closed.
pub data Answered : Type 0 where
  answered : Option Resolution → Answered
  awaits : ℕ → Answered

-- The end of `resolveFileTransferCancel`, for the pending request of control object `k`.
unfoldable pub decide : Coordinator → Control → Bool → Coordinator × Result Answered
decide c k cancel =
    if cancel
    then (
      record c {
        control = some (record k { timer = false; changed = k.changed + 1; state = cancelled });
      },
      ok (awaits k.serial),
    )
    else (
      record c {
        control = some (record k {
          timer = false;
          changed = k.changed + 1;
          state = running;
          request_id = blank;
        });
      },
      ok (answered (some (record { answer = resumed; progress = k.progress }))),
    )

unfoldable pub resolve_cancel :
    Coordinator → Identifier → Bool → ℕ → ℕ → ℕ → Coordinator × Result Answered
resolve_cancel c request cancel t1 t2 t3 = elim c.control [
  | none ↦ (c, err cancel_request)
  | some k ↦
      if is_completed k.state && same_id k.request_id request
      then (record c { control = none }, ok (answered k.resolution))
      else elim c.lease [
        | none ↦
            if not (is_confirming k.state) || not (same_id k.request_id request)
            then (c, err cancel_request)
            else (c, err not_owned)
        | some l ↦
            let k' = (if ltb t1 l.expires_at then expire_confirmation k t2 else k) in
            let c' = record c { control = some k' } in
            if not (is_confirming k'.state) || not (same_id k'.request_id request)
            then (c', err cancel_request)
            else (if ltb t3 l.expires_at then decide c' k' cancel else (c', err not_owned))
      ]
]

-- One round of the loop of `fileTransferCheckpoint`: the next block may start, the transfer stops,
-- or the owner waits for the control object to change, remembering the transfer.
pub data Checkpoint : Type 0 where
  proceed stop : Checkpoint
  waits : ℕ → Identifier → Checkpoint

abbrev pub is_blank : Identifier → Bool
is_blank blank = true
is_blank _ = false

unfoldable pub checkpoint :
    Coordinator → String → Identifier → ℕ → ℕ → Coordinator × Result Checkpoint
checkpoint c owner seen t1 t2 = elim c.lease [
  | none ↦ (c, err not_owned)
  | some l ↦
      if not (str_eq l.owner owner) || not (is_file_transfer l.kind) || not (ltb t1 l.expires_at)
      then (c, err not_owned)
      else (if not (is_blank seen) && not (same_id l.transfer_id seen)
          then (c, err not_owned)
          else elim c.control [
            | none ↦ (c, ok proceed)
            | some k ↦
                let k' = expire_confirmation k t2 in
                let c' = record c { control = some k' } in
                if is_running k'.state
                then (c', ok proceed)
                else (if is_cancelled k'.state
                    then (c', ok stop)
                    else (c', ok (waits k'.changed l.transfer_id)))
          ])
]

-- `recordFileTransferProgress`, for the progress read from the metadata.
unfoldable pub record_progress : Coordinator → Progress → Coordinator
record_progress c p = elim c.control [
  | none ↦ c
  | some k ↦ record c { control = some (record k { progress = p }) }
]

-- `validateFileTransferReporter`; `transfer` is the reported ID, trimmed.
unfoldable pub validate_reporter : Coordinator → String → Identifier → Result (Unit {0})
validate_reporter c owner transfer = elim c.lease [
  | none ↦ err not_owned
  | some l ↦
      if not (is_file_transfer l.kind) || not (str_eq l.owner (trim_space owner))
      then err not_owned
      else (if is_blank transfer || not (same_id l.transfer_id transfer)
          then err id_mismatch
          else ok tt)
]

-- `fileTransferCancelConfirmed`
unfoldable pub cancel_confirmed : Coordinator → Bool
cancel_confirmed c = elim c.control [ none ↦ false | some k ↦ is_cancelled k.state ]

find_settled : List Control → ℕ → Option (Option Resolution)
find_settled [] serial = none
find_settled (k ∷ ks) serial =
    if k.serial == serial then some k.resolution else find_settled ks serial

-- The wait of `resolveFileTransferCancel`: what it reads once the `released` channel of its control
-- object is closed; `none` means that it waits.
unfoldable pub await_released : Coordinator → ℕ → Option (Option Resolution)
unfolding find_settled
await_released c serial = elim c.control [
  | none ↦ find_settled c.settled serial
  | some k ↦
      if k.serial == serial && k.released then some k.resolution else find_settled c.settled serial
]
