-- ===== src/Lease/Steps.antt =====
-- The coordinator as a step relation: requests and writes under the session's gate, the dialogue
-- and the timers at any time, and the operations of other sessions, which move the counters.
use Prim.Native.String.{String}
use channel_term.Prelude.{ℕ, ◌≡◌, Bool, true, false, Option, some, arith, ◌<◌}
use channel_term.Lease.State.{LeaseType, Identifier, Lease, Progress, Coordinator, Reply, new}
use channel_term.Lease.Expiry.{expire}
use channel_term.Lease.Requests.{acquire, renew, release, Release, status}
use channel_term.Lease.Transfer.{
  begin_cancel, expire_request, resolve_cancel, checkpoint, record_progress,
}
use channel_term.Lease.Writes.{
  Admission, admits, write_begin, write_end, remove_registration, finish_expiry,
}
use channel_term.Lease.Invariant.{Inv, new-Inv, expire-Inv}
use channel_term.Lease.Invariant.Requests.{acquire-Inv, renew-Inv, release-Inv, status-Inv}
use channel_term.Lease.Invariant.Dialogue.{
  begin_cancel-Inv, resolve_cancel-Inv, checkpoint-Inv, record_progress-Inv, expire_request-Inv,
}
use channel_term.Lease.Invariant.Writes.{
  remove_registration-Inv, finish_expiry-Inv, write_begin-Inv, write_end-Inv,
}

pub data Step (c : Coordinator) : Coordinator → Type 0 where
  acquires :
      (owner : String) (kind : LeaseType) (reference : String) (t t' : ℕ) (r : Reply Lease)
      → c.gate ≡ false
      → acquire c owner kind reference t t' ≡ some r
      → Step c r.coordinator
  renews :
      (owner : String) (t t' : ℕ) (r : Reply Lease)
      → c.gate ≡ false
      → renew c owner t t' ≡ some r
      → Step c r.coordinator
  releases :
      (owner : String) (t : ℕ) (r : Reply Release)
      → c.gate ≡ false
      → release c owner t ≡ some r
      → Step c r.coordinator
  asks_status :
      (t : ℕ) (c' : Coordinator) (l : Option Lease) (n : Option (Lease × Bool))
      → c.gate ≡ false
      → status c t ≡ some (c', l, n)
      → Step c c'
  begins_write :
      (owner : String) (t : ℕ) (c' : Coordinator) (a : Admission) (n : Option (Lease × Bool))
      → c.gate ≡ false
      → write_begin c owner t ≡ some (c', a, n)
      → Step c (record c' { gate = admits a })
  ends_leased_write :
      c.gate ≡ true → 0 < c.active_writes → Step c (record (write_end c) { gate = false })
  ends_unleased_write : c.gate ≡ true → c.active_writes ≡ 0 → Step c (record c { gate = false })
  timer_fires :
      (owner : String) (at t : ℕ) (c' : Coordinator) (n : Option (Lease × Bool))
      → expire c owner at t ≡ some (c', n)
      → Step c c'
  begins_cancel : (t1 t2 t3 : ℕ) → Step c (begin_cancel c t1 t2 t3).0
  request_times_out :
      (serial : ℕ) (request : Identifier) (t1 t2 t3 : ℕ) (c' : Coordinator)
      (n : Option (Lease × Bool))
      → expire_request c serial request t1 t2 t3 ≡ some (c', n)
      → Step c c'
  resolves :
      (request : Identifier) (cancel : Bool) (t1 t2 t3 : ℕ)
      → Step c (resolve_cancel c request cancel t1 t2 t3).0
  checks :
      (owner : String) (seen : Identifier) (t1 t2 : ℕ) → Step c (checkpoint c owner seen t1 t2).0
  reports : (p : Progress) → Step c (record_progress c p)
  removes :
      (reference : String) (c' : Coordinator)
      → c.gate ≡ false
      → remove_registration c reference ≡ some c'
      → Step c c'
  finishes_expiry : (l : Lease) → c.gate ≡ false → Step c (finish_expiry c l)
  elsewhere :
      (cancels transfers serials : ℕ)
      → Step c (record c {
        next_cancel_request = cancels;
        next_transfer_id = transfers;
        serials = serials;
      })

pub data Reach (ttl : ℕ) : Coordinator → Type 0 where
  start : Reach ttl (new ttl)
  next : {c c' : Coordinator} → Reach ttl c → Step c c' → Reach ttl c'

Step-Inv : {c c' : Coordinator} → Step c c' → Inv c → Inv c'
Step-Inv {c} (acquires owner kind reference t t' r g h) v =
    acquire-Inv c owner kind reference t t' r v h
Step-Inv {c} (renews owner t t' r g h) v = renew-Inv c owner t t' r v h
Step-Inv {c} (releases owner t r g h) v = release-Inv c owner t r v g h
Step-Inv {c} (asks_status t c' l n g h) v = status-Inv c t c' l n v h
Step-Inv {c} (begins_write owner t c' a n g h) v = write_begin-Inv c owner t c' a n v g h
Step-Inv {c} (ends_leased_write g h) v = write_end-Inv c v
Step-Inv {c} (ends_unleased_write g h) v = ground arith
Step-Inv {c} (timer_fires owner at t c' n h) v = expire-Inv c owner at t c' n v h
Step-Inv {c} (begins_cancel t1 t2 t3) v = begin_cancel-Inv c t1 t2 t3 v
Step-Inv {c} (request_times_out serial request t1 t2 t3 c' n h) v =
    expire_request-Inv c serial request t1 t2 t3 c' n v h
Step-Inv {c} (resolves request cancel t1 t2 t3) v = resolve_cancel-Inv c request cancel t1 t2 t3 v
Step-Inv {c} (checks owner seen t1 t2) v = checkpoint-Inv c owner seen t1 t2 v
Step-Inv {c} (reports p) v = record_progress-Inv c p v
Step-Inv {c} (removes reference c' g h) v = remove_registration-Inv c reference c' v h
Step-Inv {c} (finishes_expiry l g) v = finish_expiry-Inv c l v g
Step-Inv {c} (elsewhere a b d) v = ground arith

-- In every reachable state of the coordinator: the expiry timer is set for the deadline of the
-- lease; a session that is closing after an expiry has no lease; a control object of a transfer
-- that has not completed is there exactly while a file-transfer lease is; its `released` channel is
-- closed exactly after completion and its confirmation timer set exactly while a request is
-- pending; at most one write is counted, and then the gate is held and a lease is there or being
-- recovered.
pub Reach-Inv : {ttl : ℕ} {c : Coordinator} → Reach ttl c → Inv c
Reach-Inv {ttl} start = new-Inv ttl
Reach-Inv (next r s) = Step-Inv s (Reach-Inv r)
