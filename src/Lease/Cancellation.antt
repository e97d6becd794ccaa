-- ===== src/Lease/Cancellation.antt =====
-- A confirmed cancellation, from the question to the answer of the waiting caller.
use Prim.Native.String.{String}
use mathlib.Core.Option
use text.Mathlib.TextEquality.{eq_iff}
use channel_term.Prelude.{ℕ, ◌+◌, ◌<◌, ◌≡◌, refl, ap, ◌∙◌, true, false, none, some, arith, u64}
use channel_term.Lease.State.{
  is_file_transfer, Identifier, blank, numbered, foreign, same_id, Lease, Control, running,
  cancelled, confirmation_timeout, Coordinator, ok, was_cancelled,
}
use channel_term.Lease.Requests.{
  release, end_lease, final_state, final_resolution, cancelled_resolution,
}
use channel_term.Lease.Transfer.{
  expire_confirmation, begin_cancel, resolve_cancel, decide, awaits, await_released, checkpoint,
  stop,
}

same_id_refl : (i : Identifier) → same_id i i ≡ true
same_id_refl blank = refl
same_id_refl (numbered n) = ground arith
same_id_refl (foreign t) = ground (arith, eq_iff t t)

-- The three coordinators of a confirmed cancellation.
module _ (c : Coordinator) (t1 t2 t3 t4 t5 t6 : ℕ) where
  abbrev asked : Coordinator
  asked = (begin_cancel c t1 t2 t3).0

  abbrev request : Identifier
  request = numbered (u64 (c.next_cancel_request + 1))

  abbrev answered_yes : Coordinator
  answered_yes = (resolve_cancel asked request true t4 t5 t6).0

  abbrev stopped : String → Identifier → ℕ → ℕ → Coordinator
  stopped owner transfer t7 t8 = (checkpoint answered_yes owner transfer t7 t8).0

  -- The coordinator once the cancellation is confirmed.
  abbrev confirmed : Control → Coordinator
  confirmed k = record c {
    next_cancel_request = u64 (c.next_cancel_request + 1);
    control = some (record k {
      request_id = request;
      deadline = t3 + confirmation_timeout;
      timer = false;
      changed = k.changed + 1;
      state = cancelled;
    });
  }

  module _ (l : Lease) (k : Control) (here : c.lease ≡ some l) (moves : c.control ≡ some k)
      (ft : is_file_transfer l.kind ≡ true) where
    answered_lem :
        k.state ≡ running
        → t1 < l.expires_at
        → t4 < l.expires_at
        → t5 < t3 + confirmation_timeout
        → t6 < l.expires_at
        → answered_yes ≡ confirmed k
    unfolding begin_cancel resolve_cancel decide expire_confirmation
    answered_lem run h1 h4 h5 h6 = ground arith

    begun_lem :
        k.state ≡ running → t1 < l.expires_at → (begin_cancel c t1 t2 t3).1 ≡ ok (some request)
    unfolding begin_cancel expire_confirmation
    begun_lem run h1 = ground arith

    awaits_lem :
        k.state ≡ running
        → t1 < l.expires_at
        → t4 < l.expires_at
        → t5 < t3 + confirmation_timeout
        → t6 < l.expires_at
        → (resolve_cancel asked request true t4 t5 t6).1 ≡ ok (awaits k.serial)
    unfolding begin_cancel resolve_cancel decide expire_confirmation
    awaits_lem run h1 h4 h5 h6 = ground arith

    stopped_lem :
        (t7 t8 : ℕ)
        → t7 < l.expires_at
        → (checkpoint (confirmed k) l.owner l.transfer_id t7 t8 ≡ (confirmed k, ok stop))
    unfolding checkpoint expire_confirmation
    stopped_lem t7 t8 h7 = ground (arith, eq_iff l.owner l.owner, same_id_refl l.transfer_id)

  module _ (l : Lease) (k : Control) (here : c.lease ≡ some l) (moves : c.control ≡ some k) where
    release_lem :
        (t9 : ℕ)
        → k.released ≡ false
        → t9 < l.expires_at
        → (Option.map (λ r. r.coordinator.lease) (release (confirmed k) l.owner t9) ≡ some none)
          × (Option.map (λ r. r.result) (release (confirmed k) l.owner t9)
              ≡ some (
                  ok (record {
                    lease = some l;
                    cancelled_as = some (record { answer = was_cancelled; progress = k.progress });
                  })))
          × (Option.map
                (λ r. await_released r.coordinator k.serial)
                (release (confirmed k) l.owner t9)
              ≡ some (some (some (record { answer = was_cancelled; progress = k.progress }))))
    unfolding release end_lease final_state final_resolution cancelled_resolution await_released
    release_lem t9 rel h9 = ground (arith, eq_iff l.owner l.owner)

  -- A cancellation from the question to the end: while a running transfer's lease is good and the
  -- answer comes before the deadline of the question, asking gives a new request, the answer waits
  -- for the transfer to end, the next checkpoint of the owner stops it, and the release that
  -- follows returns the cancellation with the progress so far, which is also what the waiting
  -- caller reads.
  pub cancel_round :
      (l : Lease) (k : Control) (t7 t8 t9 : ℕ)
      → c.lease ≡ some l
      → c.control ≡ some k
      → is_file_transfer l.kind ≡ true
      → k.state ≡ running
      → k.released ≡ false
      → t1 < l.expires_at
      → t4 < l.expires_at
      → t5 < t3 + confirmation_timeout
      → t6 < l.expires_at
      → t7 < l.expires_at
      → t9 < l.expires_at
      → ((begin_cancel c t1 t2 t3).1 ≡ ok (some request))
        × ((resolve_cancel asked request true t4 t5 t6).1 ≡ ok (awaits k.serial))
        × ((checkpoint answered_yes l.owner l.transfer_id t7 t8).1 ≡ ok stop)
        × (Option.map
              (λ r. r.coordinator.lease)
              (release (stopped l.owner l.transfer_id t7 t8) l.owner t9)
            ≡ some none)
        × (Option.map (λ r. r.result) (release (stopped l.owner l.transfer_id t7 t8) l.owner t9)
            ≡ some (
                ok (record {
                  lease = some l;
                  cancelled_as = some (record { answer = was_cancelled; progress = k.progress });
                })))
        × (Option.map
              (λ r. await_released r.coordinator k.serial)
              (release (stopped l.owner l.transfer_id t7 t8) l.owner t9)
            ≡ some (some (some (record { answer = was_cancelled; progress = k.progress }))))
  cancel_round l k t7 t8 t9 e f ft run rel h1 h4 h5 h6 h7 h9 =
      let answer = answered_lem l k e f ft run h1 h4 h5 h6 in
      let round = stopped_lem l k e f ft t7 t8 h7 in
      let halted : stopped l.owner l.transfer_id t7 t8 ≡ confirmed k =
        ap (λ d. (checkpoint d l.owner l.transfer_id t7 t8).0) answer ∙ ap (λ r. r.0) round in
      let (gone, result, read) = release_lem l k e f t9 rel h9 in
      (
        begun_lem l k e f ft run h1,
        awaits_lem l k e f ft run h1 h4 h5 h6,
        ap (λ d. (checkpoint d l.owner l.transfer_id t7 t8).1) answer ∙ ap (λ r. r.1) round,
        ap (λ d. Option.map (λ r. r.coordinator.lease) (release d l.owner t9)) halted ∙ gone,
        ap (λ d. Option.map (λ r. r.result) (release d l.owner t9)) halted ∙ result,
        ap (λ d. Option.map (λ r. await_released r.coordinator k.serial) (release d l.owner t9))
              halted
            ∙ read,
      )
