-- ===== src/Lease/Tests.antt =====
-- A transfer, its cancellation, and a write, on concrete input.
use mathlib.Core.Option
use channel_term.Prelude.{
  ◌+◌, ◌≡◌, refl, ◌⊎◌, List, [], Option, none, some, arith, false, true, Bool,
}
use channel_term.Lease.Text.{trim_space}
use channel_term.Lease.State.{
  terminal, file_transfer, blank, numbered, Lease, Control, running, confirming, no_progress,
  Coordinator, ok, err, busy, closing, is_ok, Reply, was_cancelled, new, expired, completed,
  was_completed, was_expired,
}
use channel_term.Lease.Expiry.{expire_locked, expire}
use channel_term.Lease.Requests.{
  grant, acquire, acquire_at, release, Release, end_lease, final_state, final_resolution,
  cancelled_resolution,
}
use channel_term.Lease.Transfer.{
  begin_cancel, resolve_cancel, expire_confirmation, checkpoint, stop, awaits, await_released,
}
use channel_term.Lease.Writes.{admits, leased, write_begin}
use channel_term.Lease.Invariant.{Inv, new-Inv}
use channel_term.Lease.Steps.{Step, Reach, Reach-Inv}
use channel_term.Lease.Exclusion.{
  NoneActive, IsDue, Lawful, acquire_exclusive, write_begin_exclusive, expire_fenced,
}
use channel_term.Lease.Recovery.{Uncleaned, expired as expired_at, later, closing_excludes}
use channel_term.Lease.Cancellation.{cancel_round}
use channel_term.Lease.Dialogue.{
  MayProceed, checkpoint_proceeds, resolve_fenced, IsRevoked, late_answer_panics,
}

abbrev idle : Coordinator
idle = record {
  lease = none;
  timer = none;
  gate = false;
  control = none;
  settled = [];
  active_writes = 0;
  recovering = none;
  next_cancel_request = 0;
  next_transfer_id = 0;
  serials = 0;
  ttl = 30;
}

new-idle : new 30 ≡ idle
unfolding new
new-idle = refl

abbrev moving : Lease
moving = record {
  owner = "a";
  kind = file_transfer;
  transfer_id = numbered 1;
  created_at = 5;
  expires_at = 35;
  reference = "SER-1";
}

abbrev control : Control
control = record {
  serial = 0;
  request_id = blank;
  timer = false;
  deadline = 0;
  state = running;
  changed = 0;
  released = false;
  progress = no_progress;
  resolution = none;
}

-- Owner "a" transfers a file, with its lease made at 5.
abbrev transferring : Coordinator
transferring = record idle {
  lease = some moving;
  timer = some 35;
  control = some control;
  next_transfer_id = 1;
  serials = 1;
}

abbrev reply : Reply Lease
reply = record { coordinator = transferring; result = ok moving; notified = none }

acquires : acquire idle " a " file_transfer "SER-1" 4 5 ≡ some reply
unfolding acquire acquire_at grant trim_space
acquires = refl

-- A second owner is refused.
second_owner :
    Option.map (λ r. r.result) (acquire transferring "b" terminal "SER-1" 6 6)
    ≡ some (err (busy moving))
unfolding acquire acquire_at trim_space
second_owner = refl

transferring_reached : Reach 30 transferring
unfolding new
transferring_reached =
    Reach.next Reach.start
      (Step.acquires " a " file_transfer "SER-1" 4 5 reply refl (unfold new in acquires))

transferring-Inv : Inv transferring
transferring-Inv = Reach-Inv transferring_reached

abbrev asking : Coordinator
asking = record transferring {
  control = some (record control {
    request_id = numbered 1;
    timer = true;
    deadline = 30_000_000_010;
    state = confirming;
  });
  next_cancel_request = 1;
}

asks : begin_cancel transferring 8 9 10 ≡ (asking, ok (some (numbered 1)))
unfolding begin_cancel expire_confirmation
asks = refl

asking-Inv : Inv asking
asking-Inv = ground arith

Reach-Inv_example : Inv transferring
Reach-Inv_example = Reach-Inv transferring_reached

acquire_exclusive_example :
    (idle.active_writes ≡ 0)
    × (idle.recovering ≡ none)
    × NoneActive idle.lease 4
    × (transferring.lease ≡ some moving)
    × (moving.owner ≡ trim_space " a ")
    × (moving.kind ≡ file_transfer)
    × (true ≡ true)
    × (moving.expires_at ≡ 5 + idle.ttl)
unfolding new
acquire_exclusive_example =
    acquire_exclusive idle " a " file_transfer "SER-1" 4 5 reply moving (new-Inv 30) refl acquires
      refl

abbrev writing : Coordinator
writing = record transferring { active_writes = 1 }

counted_write : write_begin transferring "a" 20 ≡ some (writing, leased, none)
unfolding write_begin trim_space
counted_write = refl

write_begin_exclusive_example : Lawful leased transferring "a" 20 writing
unfolding write_begin trim_space
write_begin_exclusive_example = write_begin_exclusive transferring writing "a" 20 leased none refl

-- A timer that was set for an earlier deadline.
expire_fenced_example :
    ((transferring ≡ transferring) × (◌≡◌ {A = Option (Lease × Bool)} none none))
    ⊎ (IsDue transferring.lease "a" 20 40 × (transferring.lease ≡ none) × (false ≡ true))
unfolding expire
expire_fenced_example = expire_fenced transferring transferring "a" 20 40 none refl

abbrev closing_state : Coordinator
closing_state = record transferring {
  lease = none;
  timer = none;
  recovering = some moving;
  control = none;
  settled =
      List.◌∷◌
        (record control {
          changed = 1;
          state = expired;
          released = true;
          resolution = some (record { answer = was_expired; progress = no_progress });
        })
        [];
}

-- Somebody else asks for a lease in between, and is refused.
abbrev refused_reply : Reply Lease
refused_reply = record { coordinator = closing_state; result = err closing; notified = none }

asked_meanwhile : Uncleaned closing_state closing_state
unfolding acquire acquire_at trim_space
asked_meanwhile =
    later expired_at (Step.acquires "c" terminal "" 45 46 refused_reply refl refl) refl

closing_excludes_example :
    (Option.map (λ r. is_ok r.result) (acquire closing_state "b" terminal "" 50 51) ≡ some false)
    × (Option.map (λ r. admits r.1) (write_begin closing_state "b" 50) ≡ some false)
unfolding expire_locked
closing_excludes_example =
    closing_excludes transferring closing_state closing_state moving "b" terminal "" 50 51 refl
      asked_meanwhile

checkpoint_proceeds_example : MayProceed transferring.lease transferring.control "a" 20 20
unfolding checkpoint expire_confirmation
checkpoint_proceeds_example = checkpoint_proceeds transferring "a" blank 20 20 transferring-Inv refl

abbrev pending : Control
pending = record control {
  request_id = numbered 1;
  timer = true;
  deadline = 30_000_000_010;
  state = confirming;
}

resolve_fenced_example :
    let (c', r) = resolve_cancel asking (numbered 7) true 11 11 11 in
    (is_ok r ≡ false)
    × (c'.lease ≡ asking.lease)
    × ((c'.control ≡ some pending)
        ⊎ ((k' : Control) × (c'.control ≡ some k') × IsRevoked pending 11 k'))
resolve_fenced_example = resolve_fenced asking pending (numbered 7) true 11 11 11 refl refl

abbrev halted : Coordinator
halted = (checkpoint (resolve_cancel asking (numbered 1) true 11 12 13).0 "a" (numbered 1) 14 15).0

cancel_round_example :
    ((begin_cancel transferring 8 9 10).1 ≡ ok (some (numbered 1)))
    × ((resolve_cancel asking (numbered 1) true 11 12 13).1 ≡ ok (awaits 0))
    × ((checkpoint (resolve_cancel asking (numbered 1) true 11 12 13).0 "a" (numbered 1) 14 15).1
        ≡ ok stop)
    × (Option.map (λ r. r.coordinator.lease) (release halted "a" 16) ≡ some none)
    × (Option.map (λ r. r.result) (release halted "a" 16)
        ≡ some (
            ok (record {
              lease = some moving;
              cancelled_as = some (record { answer = was_cancelled; progress = no_progress });
            })))
    × (Option.map (λ r. await_released r.coordinator 0) (release halted "a" 16)
        ≡ some (some (some (record { answer = was_cancelled; progress = no_progress }))))
unfolding begin_cancel expire_confirmation
cancel_round_example =
    cancel_round transferring 8 9 10 11 12 13 moving control 14 15 16 refl refl refl refl refl
      (omega arith) (omega arith) (omega arith) (omega arith) (omega arith) (omega arith)

-- The transfer ends while its question is open, and the kept answer outlives the lease.
abbrev completed_reply : Reply Release
completed_reply = record {
  coordinator = record asking {
    lease = none;
    timer = none;
    control = some (record pending {
      timer = false;
      changed = 1;
      state = completed;
      released = true;
      resolution = some (record { answer = was_completed; progress = no_progress });
    });
  };
  result = ok (record { lease = some moving; cancelled_as = none });
  notified = none;
}

abbrev later_lease : Lease
later_lease = record {
  owner = "b";
  kind = terminal;
  transfer_id = blank;
  created_at = 22;
  expires_at = 52;
  reference = "";
}

abbrev later_reply : Reply Lease
later_reply = record {
  coordinator = record (completed_reply.coordinator) { lease = some later_lease; timer = some 52 };
  result = ok later_lease;
  notified = none;
}

late_answer_panics_example : release later_reply.coordinator "b" 25 ≡ none
unfolding release end_lease final_state final_resolution cancelled_resolution acquire acquire_at
    grant trim_space
late_answer_panics_example =
    late_answer_panics asking moving later_lease pending "b" "" terminal 20 21 22 25 completed_reply
      later_reply asking-Inv refl refl refl (omega arith) refl refl refl refl
