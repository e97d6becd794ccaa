-- ===== src/Lease/Invariant.antt =====
-- What holds of the entries of a session between two operations.
pub mod Requests
pub mod Dialogue
pub mod Writes
use Prim.Native.String.{String}
use channel_term.Prelude.{
  ℕ, ◌+◌, ◌≤◌, ◌<◌, ◌≡◌, refl, ◌⊎◌, inl, inr, Bool, true, false, ◌&&◌, ◌||◌, not, Option, none,
  some, arith, ltb, leb, ◌==◌, if◌then◌else◌, Option-cases,
}
use channel_term.Lease.Text.{trim_space}
use channel_term.Lease.State.{
  LeaseType, is_file_transfer, is_debug, Identifier, Lease, Control, ControlState, running,
  confirming, cancelled, completed, expired, Coordinator, Result, ok, err, Reply, Progress, new,
}
use channel_term.Lease.Expiry.{expire_locked, expire, is_confirming, aborts}
use channel_term.Lease.Requests.{
  grant, acquire, acquire_at, renew, release, end_lease, final_state, Release, status, is_completed,
}
use channel_term.Lease.Transfer.{
  expire_confirmation, begin_cancel, expire_request, resolve_cancel, decide, checkpoint,
  record_progress,
}
use channel_term.Lease.Writes.{
  Admission, admits, write_begin, write_end, remove_registration, finish_expiry,
}

-- Whether the lease is for a file transfer.
abbrev pub transfers : Option Lease → Bool
transfers none = false
transfers (some l) = is_file_transfer l.kind

abbrev pub deadline : Option Lease → Option ℕ
deadline none = none
deadline (some l) = some l.expires_at

-- Whether there is a control object of a transfer that has not completed.
abbrev pub is_live : Option Control → Bool
is_live none = false
is_live (some k) = not (is_completed k.state)

-- Whether the `released` channel is closed exactly after completion, and the confirmation timer is
-- set exactly while a request is pending.
abbrev pub Consistent : Option Control → Type 0
Consistent none = Unit
Consistent (some k) = (k.released ≡ is_completed k.state) × (k.timer ≡ is_confirming k.state)

abbrev pub is_held {ℓ} : {A : Type ℓ} → Option A → Bool
is_held none = false
is_held (some a) = true

pub record Inv (c : Coordinator) : Type 0 where
  -- The expiry timer is set for the deadline of the lease.
  pub timed : c.timer ≡ deadline c.lease
  -- A session that is closing after an expiry has no lease.
  pub fenced : (is_held c.recovering && is_held c.lease) ≡ false
  -- A transfer that has not completed has a control object, and the other way round.
  pub paired : is_live c.control ≡ transfers c.lease
  pub consistent : Consistent c.control
  -- A counted write holds the gate, and its lease is there or being recovered.
  pub counted : c.active_writes ≤ 1
  pub covered :
      0 < c.active_writes → (c.gate ≡ true) × ((is_held c.lease || is_held c.recovering) ≡ true)

pub new-Inv : (ttl : ℕ) → Inv (new ttl)
unfolding new
new-Inv ttl = ground arith

-- Expiry of the session's lease keeps the invariant, and leaves no lease; where it does not ask for
-- the Session to be closed, no write was counted.
expire_locked-Inv :
    (c c' : Coordinator) (l : Lease) (abort : Bool)
    → Inv c
    → c.lease ≡ some l
    → expire_locked c l ≡ some (c', abort)
    → Inv c' × (c'.lease ≡ none) × (c'.gate ≡ c.gate) × (is_held c'.recovering ≡ abort)
unfolding expire_locked
expire_locked-Inv c c' l abort v e h = ground arith

pub expire-Inv :
    (c : Coordinator) (owner : String) (at now : ℕ) (c' : Coordinator) (n : Option (Lease × Bool))
    → Inv c
    → expire c owner at now ≡ some (c', n)
    → Inv c'
unfolding expire expire_locked
expire-Inv c owner at now c' n v h = ground arith
