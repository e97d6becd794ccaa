-- ===== src/Lease/Exclusion.antt =====
-- What the leases exclude: who is granted a lease, who may write, and whom a timer can expire.
use Prim.Native.String.{String}
use text.Mathlib.TextEquality.{eq_iff}
use channel_term.Prelude.{
  ℕ, ◌+◌, ◌≤◌, ◌<◌, ◌≡◌, refl, ◌⊎◌, Bool, true, false, Option, none, some, arith,
}
use channel_term.Lease.Text.{trim_space, is_empty}
use channel_term.Lease.State.{LeaseType, valid, Lease, Coordinator, ok, Reply}
use channel_term.Lease.Expiry.{expire_locked, expire}
use channel_term.Lease.Requests.{grant, acquire, acquire_at}
use channel_term.Lease.Writes.{Admission, denied, unleased, leased, write_begin}
use channel_term.Lease.Invariant.{Inv, is_held}

-- No lease of the session is good at the time `now`.
abbrev pub NoneActive : Option Lease → ℕ → Type 0
NoneActive none now = Unit
NoneActive (some l) now = l.expires_at ≤ now

-- A lease is granted only while no write is counted, the session is not closing after an expiry and
-- no earlier lease is good; it is the session's lease then, for the trimmed owner and the requested
-- type, which is a supported one, and ends one term after the clock reading that it was made at.
pub acquire_exclusive :
    (c : Coordinator) (owner : String) (kind : LeaseType) (reference : String) (now now' : ℕ)
    (r : Reply Lease) (l : Lease)
    → Inv c
    → c.gate ≡ false
    → acquire c owner kind reference now now' ≡ some r
    → r.result ≡ ok l
    → (c.active_writes ≡ 0)
      × (c.recovering ≡ none)
      × NoneActive c.lease now
      × (r.coordinator.lease ≡ some l)
      × (l.owner ≡ trim_space owner)
      × (l.kind ≡ kind)
      × (valid kind ≡ true)
      × (l.expires_at ≡ now' + c.ttl)
unfolding acquire acquire_at grant expire_locked
acquire_exclusive c owner kind reference now now' r l v g h e = ground arith

-- The lease of the session is good at the time `now` and belongs to `owner`.
abbrev pub OwnedBy : Option Lease → String → ℕ → Type 0
OwnedBy none owner now = ⊥
OwnedBy (some l) owner now = (l.owner ≡ owner) × (now < l.expires_at)

module _ (c : Coordinator) (owner : String) (now : ℕ) (c' : Coordinator)
    (n : Option (Lease × Bool)) where
  counted_write :
      (o : Option Lease)
      → c.lease ≡ o
      → write_begin c owner now ≡ some (c', leased, n)
      → (c.recovering ≡ none) × OwnedBy o owner now × (c'.active_writes ≡ c.active_writes + 1)
  unfolding write_begin expire_locked
  counted_write none e h = ground arith
  counted_write (some l) e h = ground (arith, eq_iff l.owner owner)

  plain_write :
      (o : Option Lease)
      → c.lease ≡ o
      → write_begin c owner now ≡ some (c', unleased, n)
      → (c.recovering ≡ none)
        × NoneActive o now
        × (is_empty (trim_space owner) ≡ true)
        × (c'.active_writes ≡ c.active_writes)
  unfolding write_begin expire_locked
  plain_write none e h = ground arith
  plain_write (some l) e h = ground arith

-- Whom each admission lets in: a counted write is the owner's of a good lease, an uncounted one
-- names no owner while no lease is good, and neither happens while the session is closing.
abbrev pub Lawful : Admission → Coordinator → String → ℕ → Coordinator → Type 0
Lawful (denied e) c owner now c' = c'.active_writes ≡ c.active_writes
Lawful leased c owner now c' =
    (c.recovering ≡ none) × OwnedBy c.lease owner now × (c'.active_writes ≡ c.active_writes + 1)
Lawful unleased c owner now c' =
    (c.recovering ≡ none)
    × NoneActive c.lease now
    × (is_empty (trim_space owner) ≡ true)
    × (c'.active_writes ≡ c.active_writes)

-- A write is let in and counted only for the owner of a lease that is good; it is let in without
-- a lease only if it names no owner and no lease is good. Neither happens while the session is
-- closing after an expiry, and a refused write is not counted.
pub write_begin_exclusive :
    (c c' : Coordinator) (owner : String) (now : ℕ) (a : Admission) (n : Option (Lease × Bool))
    → write_begin c owner now ≡ some (c', a, n)
    → Lawful a c owner now c'
unfolding write_begin expire_locked
write_begin_exclusive c c' owner now (denied e) n h = ground arith
write_begin_exclusive c c' owner now leased n h = counted_write c owner now c' n c.lease refl h
write_begin_exclusive c c' owner now unleased n h = plain_write c owner now c' n c.lease refl h

-- The timer's lease: same owner, same deadline, and the deadline has passed.
abbrev pub IsDue : Option Lease → String → ℕ → ℕ → Type 0
IsDue none owner at now = ⊥
IsDue (some l) owner at now = (l.owner ≡ owner) × (l.expires_at ≡ at) × (at ≤ now)

module _ (c c' : Coordinator) (owner : String) (at now : ℕ) (n : Option (Lease × Bool)) where
  fenced_by :
      (o : Option Lease)
      → c.lease ≡ o
      → expire c owner at now ≡ some (c', n)
      → ((c' ≡ c) × (n ≡ none)) ⊎ (IsDue o owner at now × (c'.lease ≡ none) × (is_held n ≡ true))
  unfolding expire expire_locked
  fenced_by none e h = ground arith
  fenced_by (some l) e h = ground (arith, eq_iff l.owner owner)

  -- A timer ends the lease only if it was set for it: the owner and the deadline are the same, and
  -- the deadline has passed. Otherwise it changes nothing and notifies nobody.
  pub expire_fenced :
      expire c owner at now ≡ some (c', n)
      → ((c' ≡ c) × (n ≡ none))
        ⊎ (IsDue c.lease owner at now × (c'.lease ≡ none) × (is_held n ≡ true))
  expire_fenced = fenced_by c.lease refl
