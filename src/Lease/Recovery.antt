-- ===== src/Lease/Recovery.antt =====
-- A session that is closing after an expiry: what happens until its entries are cleaned up.
use Prim.Native.String.{String}
use mathlib.Core.Option
use channel_term.Prelude.{ℕ, ◌≡◌, Bool, true, false, Option, some, arith}
use channel_term.Lease.State.{LeaseType, Lease, Coordinator, is_ok}
use channel_term.Lease.Expiry.{expire_locked, expire}
use channel_term.Lease.Requests.{acquire, acquire_at, renew, release, status}
use channel_term.Lease.Transfer.{
  begin_cancel, expire_request, resolve_cancel, checkpoint, record_progress,
}
use channel_term.Lease.Writes.{admits, write_begin, write_end}
use channel_term.Lease.Steps.{
  Step, acquires, renews, releases, asks_status, begins_write, ends_leased_write,
  ends_unleased_write, timer_fires, begins_cancel, request_times_out, resolves, checks, reports,
  removes, finishes_expiry, elsewhere,
}

-- Whether a step is one of the two that clean up the entries of the session.
abbrev pub cleans_up : {c c' : Coordinator} → Step c c' → Bool
cleans_up (removes reference c' g h) = true
cleans_up (finishes_expiry l g) = true
cleans_up _ = false

-- What the coordinator may become by steps that do not clean up.
pub data Uncleaned (c₀ : Coordinator) : Coordinator → Type 0 where
  expired : Uncleaned c₀ c₀
  later :
      {c c' : Coordinator}
      → Uncleaned c₀ c
      → (s : Step c c') → cleans_up s ≡ false
      → Uncleaned c₀ c'

-- The session has no lease and is closing for the lease `l`.
pub record Recovering (l : Lease) (c : Coordinator) : Type 0 where
  pub gone : c.lease ≡ Option.none
  pub recovers : c.recovering ≡ some l

expired-Recovering :
    (c c' : Coordinator) (l : Lease) → expire_locked c l ≡ some (c', true) → Recovering l c'
unfolding expire_locked
expired-Recovering c c' l h = ground arith

step-Recovering :
    {l : Lease} {c c' : Coordinator}
    → Recovering l c
    → (s : Step c c') → cleans_up s ≡ false
    → Recovering l c'
unfolding acquire acquire_at renew release status write_begin write_end expire begin_cancel
    expire_request resolve_cancel checkpoint record_progress
step-Recovering {l} {c} v (acquires owner kind reference t t' r g h) n = ground arith
step-Recovering {l} {c} v (renews owner t t' r g h) n = ground arith
step-Recovering {l} {c} v (releases owner t r g h) n = ground arith
step-Recovering {l} {c} v (asks_status t c' o n g h) m = ground arith
step-Recovering {l} {c} v (begins_write owner t c' a n g h) m = ground arith
step-Recovering {l} {c} v (ends_leased_write g h) n = ground arith
step-Recovering {l} {c} v (ends_unleased_write g h) n = ground arith
step-Recovering {l} {c} v (timer_fires owner at t c' n h) m = ground arith
step-Recovering {l} {c} v (begins_cancel t1 t2 t3) n = ground arith
step-Recovering {l} {c} v (request_times_out serial request t1 t2 t3 c' n h) m = ground arith
step-Recovering {l} {c} v (resolves request cancel t1 t2 t3) n = ground arith
step-Recovering {l} {c} v (checks owner seen t1 t2) n = ground arith
step-Recovering {l} {c} v (reports p) n = ground arith
step-Recovering {l} {c} v (removes reference c' g h) n = absurd (ground arith)
step-Recovering {l} {c} v (finishes_expiry k g) n = absurd (ground arith)
step-Recovering {l} {c} v (elsewhere a b d) n = ground arith

Uncleaned-Recovering :
    {l : Lease} {c c' : Coordinator} → Recovering l c → Uncleaned c c' → Recovering l c'
Uncleaned-Recovering v expired = v
Uncleaned-Recovering v (later before s n) = step-Recovering (Uncleaned-Recovering v before) s n

-- After an expiry that asks for the Session to be closed, and whatever the coordinator does from
-- then on, refused requests and writes, timers and answers included, until `removeRegistration` or
-- `finishFileTransferExpiry` cleans up: no lease is granted and no write is let in, whoever asks and
-- however late, and neither of the two panics.
pub closing_excludes :
    (c c₁ c' : Coordinator) (l : Lease) (owner : String) (kind : LeaseType) (reference : String)
    (t t' : ℕ)
    → expire_locked c l ≡ some (c₁, true)
    → Uncleaned c₁ c'
    → (Option.map (λ r. is_ok r.result) (acquire c' owner kind reference t t') ≡ some false)
      × (Option.map (λ r. admits r.1) (write_begin c' owner t) ≡ some false)
unfolding acquire acquire_at write_begin
closing_excludes c c₁ c' l owner kind reference t t' h u =
    let v = Uncleaned-Recovering (expired-Recovering c c₁ l h) u in ground (arith, v.recovers)
