-- ===== src/Session/Stream.antt =====
-- What the three histories of a Session share: their errors and the outcomes of a wait.
use channel_term.Prelude.{ℕ}

-- The error values of the Session package. `failure n` is an error of the Channel or of the context
-- that is only passed on; the code never looks inside it.
pub data StreamError : Type 0 where
  eof invalid_capacity invalid_activity_capacity invalid_byte_capacity : StreamError
  invalid_event_capacity invalid_limit invalid_id : StreamError
  nil_transport nil_channel not_open invalid_actor short_write bad_state resize_unsupported :
      StreamError
  failure : ℕ → StreamError

-- What a reader gets: a value, or an error.
pub data Result {ℓ} (A : Type ℓ) : Type ℓ where
  ok : A → Result A
  err : StreamError → Result A

-- What ends one wait of a reader: its context is done, or the captured channel was closed and the
-- reader sees the history `b`.
pub data Wake {ℓ} (B : Type ℓ) : Type ℓ where
  cancelled : StreamError → Wake B
  notified : B → Wake B
