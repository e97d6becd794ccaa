-- ===== src/Lease/Invariant/Writes.antt =====
-- Writes and the clean-up of a session keep the invariant.
use Prim.Native.String.{String}
use channel_term.Prelude.{ℕ, ◌≡◌, Bool, false, Option, some, arith}
use channel_term.Lease.State.{Lease, Coordinator}
use channel_term.Lease.Expiry.{expire_locked}
use channel_term.Lease.Writes.{
  Admission, admits, write_begin, write_end, remove_registration, finish_expiry,
}
use channel_term.Lease.Invariant.{Inv}

pub remove_registration-Inv :
    (c : Coordinator) (reference : String) (c' : Coordinator)
    → Inv c
    → remove_registration c reference ≡ some c'
    → Inv c'
unfolding remove_registration
remove_registration-Inv c reference c' v h = ground arith

pub finish_expiry-Inv :
    (c : Coordinator) (l : Lease) → Inv c → c.gate ≡ false → Inv (finish_expiry c l)
unfolding finish_expiry
finish_expiry-Inv c l v g = ground arith

-- A write that is let in takes the gate.
pub write_begin-Inv :
    (c : Coordinator) (owner : String) (now : ℕ) (c' : Coordinator) (a : Admission)
    (n : Option (Lease × Bool))
    → Inv c
    → c.gate ≡ false
    → write_begin c owner now ≡ some (c', a, n)
    → Inv (record c' { gate = admits a })
unfolding write_begin expire_locked
write_begin-Inv c owner now c' a n v g h = ground arith

pub write_end-Inv : (c : Coordinator) → Inv c → Inv (record (write_end c) { gate = false })
unfolding write_end
write_end-Inv c v = ground arith
