-- ===== src/Session/Receive/Waits.antt =====
-- Waiting readers and the notification channel: no wakeup is missed, and the end of the stream.
use channel_term.Prelude.{
  ℕ, ◌+◌, ◌-◌, ◌%◌, min, u64, sub64, ◌<◌, ◌≡◌, ◌≢◌, refl, ap, ◌∙◌, ◌⊎◌, inl, inr, List, [], ◌∷◌,
  Option, none, some, length, arith, ltb, if◌then◌else◌,
}
use channel_term.Circular.{length-read_around}
use channel_term.Session.Stream.{StreamError, eof, err}
use channel_term.Session.Receive.{
  Buffer, copy_locked, append, append_large, append_small, close, release, read_chunk, poll,
}

-- What can happen to a buffer while a reader waits without the lock.
pub data Change : Type 0 where
  appends : List ℕ → Change
  closes : Option StreamError → Change
  releases : Change

unfoldable pub change : Buffer → Change → Buffer
change b (appends p) = append b p
change b (closes e) = close b e
change b releases = release b

unfoldable pub changes : Buffer → List Change → Buffer
changes b [] = b
changes b (c ∷ cs) = changes (change b c) cs

-- One change leaves the buffer as it is, or closes exactly the current notification channel.
change-notify : (b : Buffer) (c : Change) → (change b c ≡ b) ⊎ ((change b c).notify ≡ b.notify + 1)
unfolding change append append_large append_small close release
change-notify b (appends p) = ground arith
change-notify b (closes e) = ground arith
change-notify b releases = ground arith

changes-notify :
    (b : Buffer) (cs : List Change) → (changes b cs ≡ b) ⊎ (b.notify < (changes b cs).notify)
unfolding changes
changes-notify b [] = inl refl
changes-notify b (c ∷ cs) = ground (arith, change-notify b c, changes-notify (change b c) cs)

poll_idle :
    (b : Buffer) (next limit : ℕ)
    → 0 < limit
    → poll b next limit ≡ none
    → (read_chunk b next limit).channel ≡ some b.notify
unfolding poll read_chunk copy_locked
poll_idle b next limit pos idle =
    ground
      (arith, length-read_around 0 b.items ((b.start + sub64 from b.base) % length b.items) count)
  where
    from : ℕ
    from = (if ltb next b.base then b.base else next)

    count : ℕ
    count = min limit (u64 (b.base + b.size) - from)

-- A reader that found nothing captured the notification channel that was open then. If after any
-- further changes it would find something, that channel has been closed, so the reader is woken.
pub no_missed_wakeup :
    (b : Buffer) (cs : List Change) (next limit : ℕ)
    → 0 < limit
    → poll b next limit ≡ none
    → poll (changes b cs) next limit ≢ none
    → ((read_chunk b next limit).channel ≡ some b.notify) × (b.notify < (changes b cs).notify)
no_missed_wakeup b cs next limit pos idle ready = (
  poll_idle b next limit pos idle,
  elim (changes-notify b cs) [
    | inl same ↦ absurd (ready (ap (λ t. poll t next limit) same ∙ idle))
    | inr later ↦ later
  ],
)

change_gone : (b : Buffer) (c : Change) → b.items ≡ [] → (change b c).items ≡ []
unfolding change append close release
change_gone b (appends p) h = ground arith
change_gone b (closes e) h = ground arith
change_gone b releases h = ground arith

changes_gone : (b : Buffer) (cs : List Change) → b.items ≡ [] → (changes b cs).items ≡ []
unfolding changes
changes_gone b [] h = h
changes_gone b (c ∷ cs) h = changes_gone (change b c) cs (change_gone b c h)

poll_gone :
    (b : Buffer) (next limit : ℕ)
    → b.items ≡ []
    → poll b next limit ≡ some (elim b.failure [ none ↦ err eof | some e ↦ err e ])
unfolding poll read_chunk
poll_gone b next limit h = ground arith

-- After `release`, whatever is appended, closed or released later, a reader never waits and gets no
-- data: at any cursor it returns the error retained by then, or the end of the stream.
pub release_ends :
    (b : Buffer) (cs : List Change) (next limit : ℕ)
    → poll (changes (release b) cs) next limit
      ≡ some (elim (changes (release b) cs).failure [ none ↦ err eof | some e ↦ err e ])
unfolding release
release_ends b cs next limit = poll_gone _ next limit (changes_gone _ cs refl)
