-- ===== src/Session/Receive/Tests.antt =====
-- A receive buffer of three bytes, run on concrete input.
use channel_term.Prelude.{
  ◌⊎◌, ◌<◌, ◌≡◌, refl, List, [], ◌∷◌, none, some, arith, false, true, length, ℤ, ◌++◌, take, drop,
  ◌≤◌, ◌-◌,
}
use channel_term.Session.Stream.{failure, ok, err, cancelled, notified}
use channel_term.Session.Receive.{
  Buffer, new, append, append_large, append_small, copy_locked, read_chunk, poll, wait_output,
  read_output, read_recent, close, release,
}
use channel_term.Session.Receive.Log.{Holds, new-Holds}
use channel_term.Session.Receive.Appends.{append-Holds}
use channel_term.Session.Receive.Reads.{visible, poll_output_exact}
use channel_term.Session.Receive.Consumer.{Event, appended, polled, run, produced, consumer_exact}
use channel_term.Session.Receive.Waits.{
  closes, appends, change, changes, no_missed_wakeup, release_ends,
}

abbrev fresh : Buffer
fresh = record {
  items = 0 ∷ 0 ∷ 0 ∷ [];
  start = 0;
  size = 0;
  base = 0;
  notify = 0;
  closed = false;
  failure = none;
}

new-fresh : new (ℤ.pos 3) ≡ ok fresh
unfolding new
new-fresh = refl

fresh-Holds : Holds fresh []
unfolding new
fresh-Holds = new-Holds 2 fresh refl

-- Two bytes, then two more, which overwrite the first.
abbrev two : Buffer
two = append fresh (1 ∷ 2 ∷ [])

abbrev four : Buffer
four = append two (3 ∷ 4 ∷ [])

two-Holds : Holds two (1 ∷ 2 ∷ [])
two-Holds = append-Holds fresh (1 ∷ 2 ∷ []) [] fresh-Holds refl (omega arith)

two_open : two.closed ≡ false
unfolding append append_large append_small
two_open = refl

four-Holds : Holds four (1 ∷ 2 ∷ 3 ∷ 4 ∷ [])
four-Holds = append-Holds two (3 ∷ 4 ∷ []) (1 ∷ 2 ∷ []) two-Holds two_open (omega arith)

four_items : four.items ≡ 4 ∷ 2 ∷ 3 ∷ []
unfolding append append_large append_small
four_items = refl

-- A reader at cursor 0 has lost one byte.
poll-four : poll four 0 10 ≡ some (ok (record { bytes = 2 ∷ 3 ∷ 4 ∷ []; next = 4; dropped = true }))
unfolding append append_large append_small poll read_chunk copy_locked
poll-four = refl

recent_four :
    read_recent four (ℤ.pos 2) ≡ ok (record { bytes = 3 ∷ 4 ∷ []; next = 4; dropped = false })
unfolding append append_large append_small read_recent copy_locked
recent_four = refl

-- A reader waits at the end until data arrives, or until its context is done.
wait_two :
    read_output two 2 (ℤ.pos 1) (notified two ∷ notified four ∷ [])
    ≡ some (ok (record { bytes = 3 ∷ []; next = 3; dropped = false }))
unfolding append append_large append_small read_output wait_output poll read_chunk copy_locked
wait_two = refl

cancelled_two : read_output two 2 (ℤ.pos 1) (cancelled (failure 7) ∷ []) ≡ some (err (failure 7))
unfolding append append_large append_small read_output wait_output poll read_chunk copy_locked
cancelled_two = refl

append-Holds_example : Holds four (1 ∷ 2 ∷ 3 ∷ 4 ∷ [])
append-Holds_example = append-Holds two (3 ∷ 4 ∷ []) (1 ∷ 2 ∷ []) two-Holds two_open (omega arith)

poll_output_exact_example : poll two 1 5 ≡ some (ok (visible two.base (1 ∷ 2 ∷ []) 1 5))
poll_output_exact_example = poll_output_exact two (1 ∷ 2 ∷ []) two-Holds 1 5 (omega arith)

abbrev session : List Event
session = appended (1 ∷ 2 ∷ []) ∷ polled 4 ∷ appended (3 ∷ []) ∷ polled 4 ∷ []

consumer_exact_example :
    let w = run (record { buffer = fresh; cursor = 0; received = []; lost = false }) session in
    ((w.lost ≡ true) ⊎ (w.received ≡ take (w.cursor - 0) (drop 0 ([] ++ produced session))))
    × (0 ≤ w.cursor)
    × (w.cursor ≤ length ([] ++ produced session))
consumer_exact_example =
    consumer_exact fresh [] 0 session fresh-Holds refl (omega arith) (omega arith)

no_missed_wakeup_example :
    ((read_chunk two 2 5).channel ≡ some two.notify)
    × (two.notify < (changes two (appends (3 ∷ 4 ∷ []) ∷ [])).notify)
unfolding append append_large append_small poll read_chunk changes change copy_locked
no_missed_wakeup_example =
    no_missed_wakeup two (appends (3 ∷ 4 ∷ []) ∷ []) 2 5 (omega arith) refl (λ e. cc e)

release_ends_example :
    poll (changes (release two) (appends (9 ∷ []) ∷ closes (some (failure 7)) ∷ [])) 0 5
    ≡ some (err (failure 7))
unfolding append append_large append_small changes change close release
release_ends_example = release_ends two (appends (9 ∷ []) ∷ closes (some (failure 7)) ∷ []) 0 5
