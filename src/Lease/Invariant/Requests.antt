-- ===== src/Lease/Invariant/Requests.antt =====
-- `acquire`, `renew`, `release` and `status` keep the invariant.
use Prim.Native.String.{String}
use channel_term.Prelude.{ℕ, ◌≡◌, Bool, false, Option, none, some, arith}
use channel_term.Lease.Text.{trim_space}
use channel_term.Lease.State.{LeaseType, Lease, Coordinator, Reply}
use channel_term.Lease.Expiry.{expire_locked}
use channel_term.Lease.Requests.{
  grant, acquire, acquire_at, renew, release, end_lease, final_state, Release, status,
}
use channel_term.Lease.Invariant.{Inv}

grant-Inv :
    (c : Coordinator) (owner : String) (kind : LeaseType) (reference : String) (now : ℕ)
    → Inv c
    → c.lease ≡ none
    → c.recovering ≡ none
    → Inv (grant c owner kind reference now).0
unfolding grant
grant-Inv c owner kind reference now v e f = ground arith

acquire_at-Inv :
    (c : Coordinator) (owner : String) (kind : LeaseType) (reference : String) (now now' : ℕ)
    (r : Reply Lease)
    → Inv c
    → acquire_at c owner kind reference now now' ≡ some r
    → Inv r.coordinator
unfolding acquire_at expire_locked grant
acquire_at-Inv c owner kind reference now now' r v h = ground arith

pub acquire-Inv :
    (c : Coordinator) (owner : String) (kind : LeaseType) (reference : String) (now now' : ℕ)
    (r : Reply Lease)
    → Inv c
    → acquire c owner kind reference now now' ≡ some r
    → Inv r.coordinator
unfolding acquire
acquire-Inv c owner kind reference now now' r v h =
    ground (arith, acquire_at-Inv c (trim_space owner) kind reference now now' r v)

pub renew-Inv :
    (c : Coordinator) (owner : String) (now now' : ℕ) (r : Reply Lease)
    → Inv c
    → renew c owner now now' ≡ some r
    → Inv r.coordinator
unfolding renew expire_locked
renew-Inv c owner now now' r v h = ground arith

end_lease-Inv :
    (c : Coordinator) (l : Lease) (r : Reply Release)
    → Inv c
    → c.gate ≡ false
    → c.lease ≡ some l
    → end_lease c l ≡ some r
    → Inv r.coordinator
unfolding end_lease final_state
end_lease-Inv c l r v g e h = ground arith

pub release-Inv :
    (c : Coordinator) (owner : String) (now : ℕ) (r : Reply Release)
    → Inv c
    → c.gate ≡ false
    → release c owner now ≡ some r
    → Inv r.coordinator
unfolding release expire_locked end_lease final_state
release-Inv c owner now r v g h = ground arith

pub status-Inv :
    (c : Coordinator) (now : ℕ) (c' : Coordinator) (l : Option Lease) (n : Option (Lease × Bool))
    → Inv c
    → status c now ≡ some (c', l, n)
    → Inv c'
unfolding status expire_locked
status-Inv c now c' l n v h = ground arith
