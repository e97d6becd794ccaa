-- ===== src/Lease/Invariant/Dialogue.antt =====
-- The confirmation dialogue of a file transfer keeps the invariant.
use Prim.Native.String.{String}
use channel_term.Prelude.{ℕ, ◌≡◌, Bool, Option, some, arith}
use channel_term.Lease.State.{Identifier, Lease, Coordinator, Progress}
use channel_term.Lease.Expiry.{expire_locked}
use channel_term.Lease.Transfer.{
  expire_confirmation, begin_cancel, expire_request, resolve_cancel, decide, checkpoint,
  record_progress,
}
use channel_term.Lease.Invariant.{Inv}

pub begin_cancel-Inv : (c : Coordinator) (t1 t2 t3 : ℕ) → Inv c → Inv (begin_cancel c t1 t2 t3).0
unfolding begin_cancel expire_confirmation
begin_cancel-Inv c t1 t2 t3 v = ground arith

pub resolve_cancel-Inv :
    (c : Coordinator) (request : Identifier) (cancel : Bool) (t1 t2 t3 : ℕ)
    → Inv c
    → Inv (resolve_cancel c request cancel t1 t2 t3).0
unfolding resolve_cancel expire_confirmation decide
resolve_cancel-Inv c request cancel t1 t2 t3 v = ground arith

pub checkpoint-Inv :
    (c : Coordinator) (owner : String) (seen : Identifier) (t1 t2 : ℕ)
    → Inv c
    → Inv (checkpoint c owner seen t1 t2).0
unfolding checkpoint expire_confirmation
checkpoint-Inv c owner seen t1 t2 v = ground arith

pub record_progress-Inv : (c : Coordinator) (p : Progress) → Inv c → Inv (record_progress c p)
unfolding record_progress
record_progress-Inv c p v = ground arith

pub expire_request-Inv :
    (c : Coordinator) (serial : ℕ) (request : Identifier) (t1 t2 t3 : ℕ) (c' : Coordinator)
    (n : Option (Lease × Bool))
    → Inv c
    → expire_request c serial request t1 t2 t3 ≡ some (c', n)
    → Inv c'
unfolding expire_request expire_locked expire_confirmation
expire_request-Inv c serial request t1 t2 t3 c' n v h = ground arith
