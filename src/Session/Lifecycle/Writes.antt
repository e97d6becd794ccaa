-- ===== src/Session/Lifecycle/Writes.antt =====
-- internal/core/session/session.go: `Write`, `recordWriteActivity` and the summary of pending input.
-- What `Channel.Write` returns is given: as many bytes as it took (a writer takes no negative count),
-- and its error.
pub mod Exact
use channel_term.Prelude.{
  ℕ, ◌+◌, min, Bool, true, false, ◌||◌, Option, none, some, List, [], ◌∷◌, ◌++◌, ◌==◌,
  if◌then◌else◌, length, take, drop,
}
use channel_term.Session.Stream.{StreamError, not_open, invalid_actor, short_write}
use channel_term.Session.Activity
use channel_term.Session.Activity.{Actor, user, agent, system, unknown}
use channel_term.Session.Lifecycle.{Core, State, is_open}

-- `Actor.Valid`
abbrev pub is_valid : Actor → Bool
is_valid (unknown n) = false
is_valid _ = true

-- `WriteRequest`
pub record Request : Type 0 where
  pub actor : Actor
  pub payload : List ℕ

-- What one call of `Channel.Write` returns.
pub record Reply : Type 0 where
  pub count : ℕ
  pub failure : Option StreamError

-- What the loop of `Write` ends with: `written`, the error, and the bytes that the Channel took.
pub record Written : Type 0 where
  pub count : ℕ
  pub failure : Option StreamError
  pub taken : List ℕ

-- The loop of `Write` for the rest `p` of the data, after `written` bytes, which are `taken`. It is
-- `none` while a call of `Channel.Write` has not returned.
unfoldable pub write_loop : List Reply → List ℕ → ℕ → List ℕ → Option Written
write_loop rs [] written taken = some (record { count = written; failure = none; taken = taken })
write_loop [] (x ∷ xs) written taken = none
write_loop (r ∷ rs) (x ∷ xs) written taken =
    let p = x ∷ xs in
    let n = min r.count (length p) in
    let taken' = taken ++ take n p in
    let rest = write_loop rs (drop n p) (written + n) taken' in
    elim r.failure [
      | some e ↦ some (record { count = written + n; failure = some e; taken = taken' })
      | none ↦
          if n == 0
          then some (record { count = written + n; failure = some short_write; taken = taken' })
          else rest
    ]

-- What a byte does to the summary: a submit, cancel or clear byte clears it, a backspace leaves it,
-- and any other byte sets it.
pub data Effect : Type 0 where
  clears leaves sets : Effect

abbrev pub effect : ℕ → Effect
effect c =
    if c == 13 || c == 10 || c == 3 || c == 21
    then clears
    else (if c == 8 || c == 127 then leaves else sets)

abbrev pub after_byte : Effect → Bool → Bool
after_byte clears b = false
after_byte leaves b = b
after_byte sets b = true

-- The loop of `recordWriteActivity`.
abbrev pub track_input : List ℕ → Bool → Bool
track_input [] pending = pending
track_input (c ∷ cs) pending = track_input cs (after_byte (effect c) pending)

abbrev pub is_system : Actor → Bool
is_system system = true
is_system _ = false

-- `recordWriteActivity`
unfoldable pub record_write_activity : Core → ℕ → Request → ℕ → Core
record_write_activity s timestamp request written =
    if written == 0
    then s
    else let data_ = take written request.payload in
      record s {
        input_pending =
            (if is_system request.actor
              then s.input_pending
              else track_input data_ s.input_pending);
        activity =
            Activity.append s.activity
              (record { timestamp = timestamp; actor = request.actor; payload = data_ });
      }

-- How `Write` ends: refused, or with the Session, the count and the error.
pub data Outcome : Type 0 where
  refused : StreamError → Outcome
  wrote : Core → ℕ → Option StreamError → Outcome

-- `Write`: `s` is the Session when it is checked, `s'` when the write is recorded.
unfoldable pub write : Core → Core → Request → ℕ → List Reply → Option Outcome
write s s' request timestamp rs =
    if is_valid request.actor
    then (if is_open s.state
        then elim (write_loop rs request.payload 0 []) [
          | none ↦ none
          | some w ↦
              some (wrote (record_write_activity s' timestamp request w.count) w.count w.failure)
        ]
        else some (refused not_open))
    else some (refused invalid_actor)
