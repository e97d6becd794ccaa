-- ===== src/Session/Lifecycle/Writes/Exact.antt =====
-- What `Write` hands over, returns and records; when it returns; and what the summary of pending
-- input says.
use channel_term.Prelude.{
  length-append, ◌↔◌, ℕ, ◌+◌, ◌≤◌, min, ◌≡◌, ◌≢◌, refl, ap, sym, ◌∙◌, ◌⊎◌, inl, inr, Option,
  Option-cases, Bool-cases, ◌==◌, Bool, true, false, none, some, List, [], ◌∷◌, ◌++◌, length, take,
  drop, arith, length-drop, length-take, length-append, take_of_le, drop-drop, slice_extend,
}
use channel_term.Session.Stream.{StreamError}
use channel_term.Session.Activity
use channel_term.Session.Activity.{unknown}
use channel_term.Session.Lifecycle.{Core, opened}
use channel_term.Session.Lifecycle.Writes.{
  Request, record_write_activity, after_byte, is_system, Reply, Written, write_loop, leaves, sets,
  effect, track_input, write, wrote, is_valid,
}

-- The bytes taken are the first `count` bytes of the data, and they are all unless there is an error.
abbrev pub Reported : List ℕ → Written → Type 0
Reported p w =
    (w.taken ≡ take w.count p) × (w.count ≤ length p) × ((w.failure ≢ none) ⊎ (w.count ≡ length p))

loop-Reported :
    (rs : List Reply) (p data_ : List ℕ) (written : ℕ) (w : Written)
    → p ≡ drop written data_
    → written ≤ length data_
    → write_loop rs p written (take written data_) ≡ some w
    → Reported data_ w
unfolding write_loop
loop-Reported rs [] data_ written w e k h =
    let all : written ≡ length data_ = omega (arith, length-drop written data_, ap length e) in
    ground arith
loop-Reported [] (x ∷ xs) data_ written w e k h = ground arith
loop-Reported (r ∷ rs) (x ∷ xs) data_ written w e k h =
    let step : write_loop rs (drop n (x ∷ xs)) (written + n) (take written data_ ++ take n (x ∷ xs))
          ≡ some w
        → Reported data_ w =
      λ h'. loop-Reported rs (drop n (x ∷ xs)) data_ (written + n) w later bound (rw met at h') in
    ground (arith, step, met, later, bound)
  where
    n : ℕ
    n = min r.count (length (x ∷ xs))

    bound : written + n ≤ length data_
    bound = omega (arith, length-drop written data_, ap length e)

    later : drop n (x ∷ xs) ≡ drop (written + n) data_
    later = ap (drop n) e ∙ drop-drop written n (written + n) data_ refl

    met : take written data_ ++ take n (x ∷ xs) ≡ take (written + n) data_
    met =
        ap (λ t. take written data_ ++ take n t) e
        ∙ slice_extend 0 written written (written + n) n data_ (omega arith) k
            (omega (arith, length-take n (drop written data_), length-drop written data_, bound))

-- What the loop hands over.
write_loop_exact :
    (rs : List Reply) (p : List ℕ) (w : Written) → write_loop rs p 0 [] ≡ some w → Reported p w
write_loop_exact rs p w h = loop-Reported rs p p 0 w refl (omega arith) h

-- What `Write` leaves of the Session `s` and reports, when the Channel took the bytes of `w`: nothing
-- is recorded if it took none, and otherwise one new entry with exactly these bytes.
abbrev pub Recorded : Core → ℕ → Request → Written → Core → Type 0
Recorded s timestamp request w s' =
    ((w.taken ≡ []) × (s' ≡ s))
    ⊎ ((w.taken ≢ [])
        × (s'.activity
            ≡ Activity.append s.activity
                (record { timestamp = timestamp; actor = request.actor; payload = w.taken }))
        × (s'.receive ≡ s.receive)
        × (s'.events ≡ s.events)
        × (s'.state ≡ s.state))

recorded_lem :
    (s : Core) (timestamp : ℕ) (request : Request) (w : Written)
    → Reported request.payload w
    → Recorded s timestamp request w (record_write_activity s timestamp request w.count)
unfolding record_write_activity
recorded_lem s timestamp request w r = elim (Bool-cases (w.count == 0)) [
  | inl none_ ↦
      let zero_count : w.count ≡ 0 = ground (arith, none_) in
      inl (r.0 ∙ ap (λ k. take k request.payload) zero_count, ground (arith, none_))
  | inr some_ ↦
      let taken : take w.count request.payload ≡ w.taken = sym (r.0) in
      inr (
        (λ e.
            ground (
              arith,
              some_,
              r.1,
              length-take w.count request.payload,
              ap length taken,
              ap length e,
            )),
        ground (arith, some_, taken),
        ground (arith, some_),
        ground (arith, some_),
        ground (arith, some_),
      )
]

-- A write that is not refused: what the Channel took is the first part of the payload, each byte
-- once and in order, as long as the count that `Write` returns; exactly this part is recorded as one
-- entry of the activity with the request's actor, or nothing if it is empty; and it is the whole
-- payload unless an error is returned. It is not refused only if the actor is a known one and the
-- Session was open at the check.
pub write_exact :
    (s s' s'' : Core) (request : Request) (timestamp n : ℕ) (rs : List Reply)
    (failure : Option StreamError)
    → write s s' request timestamp rs ≡ some (wrote s'' n failure)
    → (w : Written) × (write_loop rs request.payload 0 [] ≡ some w)
      × Reported request.payload w
      × (n ≡ w.count)
      × (failure ≡ w.failure)
      × Recorded s' timestamp request w s''
      × (s.state ≡ opened)
      × ((k : ℕ) → request.actor ≢ unknown k)
unfolding write
write_exact s s' s'' request timestamp n rs failure h =
    elim (Option-cases (write_loop rs request.payload 0 [])) [
      | inl e ↦ absurd (ground (arith, e))
      | inr (w, e) ↦
          let reported = write_loop_exact rs request.payload w e in
          let after : s'' ≡ record_write_activity s' timestamp request w.count =
            ground (arith, e) in
          (
            w,
            e,
            reported,
            ground (arith, e),
            ground (arith, e),
            rw after (recorded_lem s' timestamp request w reported),
            ground (arith, e),
            (λ k known. ground (arith, ap is_valid known)),
          )
    ]

-- As many replies of the Channel as the payload has bytes are enough for `Write` to return.
pub write_loop_returns :
    (rs : List Reply) (p : List ℕ) (written : ℕ) (taken : List ℕ)
    → length p ≤ length rs
    → write_loop rs p written taken ≢ none
unfolding write_loop
write_loop_returns rs [] written taken h = ground arith
write_loop_returns [] (x ∷ xs) written taken h = absurd (omega arith)
write_loop_returns (r ∷ rs) (x ∷ xs) written taken h = ground (
  arith,
  write_loop_returns rs (drop (min r.count (length (x ∷ xs))) (x ∷ xs))
      (written + min r.count (length (x ∷ xs)))
      (taken ++ take (min r.count (length (x ∷ xs))) (x ∷ xs)),
  length-drop (min r.count (length (x ∷ xs))) (x ∷ xs),
)

-- Whether no byte changes the summary.
abbrev pub all_leave : List ℕ → Bool
all_leave [] = true
all_leave (c ∷ cs) = elim (effect c) [ leaves ↦ all_leave cs | _ ↦ false ]

track_leaves : (ys : List ℕ) (b : Bool) → all_leave ys ≡ true → track_input ys b ≡ b
track_leaves [] b h = refl
track_leaves (c ∷ cs) b h = ground (arith, track_leaves cs b)

track_last :
    (xs ys : List ℕ) (c : ℕ) (b : Bool)
    → all_leave ys ≡ true
    → track_input (xs ++ c ∷ ys) b ≡ after_byte (effect c) (track_input xs b)
track_last [] ys c b h = track_leaves ys (after_byte (effect c) b) h
track_last (x ∷ xs) ys c b h = track_last xs ys c (after_byte (effect x) b) h

-- After a complete write that is not the system's, input is pending exactly if the last byte of the
-- payload other than a backspace is not a submit, cancel or clear byte.
pub pending_exact :
    (s : Core) (t : ℕ) (r : Request) (xs ys : List ℕ) (c : ℕ)
    → r.payload ≡ xs ++ c ∷ ys
    → is_system r.actor ≡ false
    → all_leave ys ≡ true
    → effect c ≢ leaves
    → ((record_write_activity s t r (length r.payload)).input_pending ≡ true) ↔ (effect c ≡ sets)
unfolding record_write_activity
pending_exact s t r xs ys c e user_ h ne = ground (
  arith,
  take_of_le (length r.payload) r.payload,
  track_last xs ys c s.input_pending,
  length-append xs (c ∷ ys),
)
