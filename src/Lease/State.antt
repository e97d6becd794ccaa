-- ===== src/Lease/State.antt =====
-- The data of the lease coordinator.
use Prim.Native.String.{String}
use channel_term.Prelude.{ℕ, Bool, true, false, Option, none, List, [], ◌==◌}
use text.Mathlib.Text.{◌==◌ as str_eq}

-- `LeaseType`; `other` is any unsupported text.
pub data LeaseType : Type 0 where
  terminal file_transfer debug : LeaseType
  other : String → LeaseType

-- `LeaseType.Valid`
abbrev pub valid : LeaseType → Bool
valid terminal = true
valid file_transfer = true
valid debug = true
valid (other t) = false

abbrev pub is_file_transfer : LeaseType → Bool
is_file_transfer file_transfer = true
is_file_transfer _ = false

abbrev pub is_debug : LeaseType → Bool
is_debug debug = true
is_debug _ = false

-- An identifier text. `numbered n` is the text that `fmt.Sprintf` makes of the counter value `n`
-- ("FT-n" or "file-transfer-cancel-n"); `foreign` is any other text that is not empty.
pub data Identifier : Type 0 where
  blank : Identifier
  numbered : ℕ → Identifier
  foreign : String → Identifier

abbrev pub same_id : Identifier → Identifier → Bool
same_id blank blank = true
same_id (numbered m) (numbered n) = m == n
same_id (foreign s) (foreign t) = str_eq s t
same_id _ _ = false

-- `SessionLease`, less the session ID and the constant state "active". Times are instants.
pub record Lease : Type 0 where
  pub owner : String
  pub kind : LeaseType
  pub transfer_id : Identifier
  pub created_at : ℕ
  pub expires_at : ℕ
  pub reference : String

-- The reported progress, which is only passed on.
pub record Progress : Type 0 where
  pub transferred : ℕ
  pub total : ℕ
  pub percent : ℕ

abbrev pub no_progress : Progress
no_progress = record { transferred = 0; total = 0; percent = 0 }

pub data ControlState : Type 0 where
  running confirming cancelled completed expired : ControlState

-- The states of a `FileTransferCancelResolution`.
pub data Answer : Type 0 where
  resumed was_cancelled was_completed was_expired : Answer

pub record Resolution : Type 0 where
  pub answer : Answer
  pub progress : Progress

-- `fileTransferControl`. `serial` stands for the address of the object. `changed` counts the
-- channels that have been closed and replaced; `released` says whether that channel is closed.
pub record Control : Type 0 where
  pub serial : ℕ
  pub request_id : Identifier
  pub timer : Bool
  pub deadline : ℕ
  pub state : ControlState
  pub changed : ℕ
  pub released : Bool
  pub progress : Progress
  pub resolution : Option Resolution

-- The entries of one session in `leases`, `timers` (its deadline), `gates` (whether it is locked),
-- `fileTransfers`, `activeWrites` and `recovering`, and the shared counters. `serials` counts the
-- control objects made; `settled` holds those that have left `fileTransfers` with their `released`
-- channel closed, newest first: a waiting caller still reads its resolution there.
pub record Coordinator : Type 0 where
  pub lease : Option Lease
  pub timer : Option ℕ
  pub gate : Bool
  pub control : Option Control
  pub settled : List Control
  pub active_writes : ℕ
  pub recovering : Option Lease
  pub next_cancel_request : ℕ
  pub next_transfer_id : ℕ
  pub serials : ℕ
  pub ttl : ℕ

-- `newLeaseCoordinatorWithTTL`
unfoldable pub new : ℕ → Coordinator
new ttl = record {
  lease = none;
  timer = none;
  gate = false;
  control = none;
  settled = [];
  active_writes = 0;
  recovering = none;
  next_cancel_request = 0;
  next_transfer_id = 0;
  serials = 0;
  ttl = ttl;
}

-- 30 seconds, in nanoseconds: `defaultLeaseTTL` and `FileTransferCancelConfirmationTimeout`.
abbrev pub default_lease_ttl : ℕ
default_lease_ttl = 30_000_000_000

abbrev pub confirmation_timeout : ℕ
confirmation_timeout = 30_000_000_000

-- The errors. `busy l` is a `SessionBusyError` for the lease `l`; `closing` is `ErrSessionBusy` for
-- a Session that is closing after an expiry.
pub data LeaseError : Type 0 where
  invalid_owner invalid_type closing not_owned cancel_pending cancel_request : LeaseError
  id_mismatch no_control : LeaseError
  busy : Lease → LeaseError

pub data Result {ℓ} (A : Type ℓ) : Type ℓ where
  ok : A → Result A
  err : LeaseError → Result A

abbrev pub is_ok {ℓ} : {A : Type ℓ} → Result A → Bool
is_ok (ok a) = true
is_ok (err e) = false

-- What an operation leaves: the coordinator, what it returns, and the arguments of the call of
-- `notifyExpired`, if it makes one.
pub record Reply {ℓ} (A : Type ℓ) : Type ℓ where
  pub coordinator : Coordinator
  pub result : Result A
  pub notified : Option (Lease × Bool)
