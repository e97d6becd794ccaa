-- ===== src/Session/Receive/Appends.antt =====
-- `append` extends the history by exactly its input.
use channel_term.Prelude.{
  ℕ, ◌+◌, ◌-◌, ◌%◌, ◌^◌, ◌<◌, ◌≤◌, ◌≡◌, refl, sym, ap, ◌∙◌, inl, inr, List, [], ◌∷◌, ◌++◌, length,
  get_elem?, arith, false, lt-or-ge, drop, splice, u64, length-append, length-drop, length-splice,
  get_elem?-append_left, get_elem?-append_right, get_elem?-drop, get_elem?-splice_in,
}
use channel_term.Circular.{
  wrap_lt, wrap_back, wrap_forward, write_around_new, write_around_old, length-write_around,
  write_around,
}
use mathlib.Core.List.{append-nil}
use native.Mathlib.Nat.{mod-lt, mod-add-mod}
use channel_term.Session.Receive.{Buffer, append, append_large, append_small}
use channel_term.Session.Receive.Log.{Holds}

module _ (b : Buffer) (p log : List ℕ) (h : Holds b log)
    (fits : length log + length p < 2 ^ 64) where
  append_large-Holds : length b.items ≤ length p → Holds (append_large b p) (log ++ p)
  unfolding append_large
  append_large-Holds big = record {
    start_in =
        omega (arith, length-splice b.items 0 (drop (length p - length b.items) p), h.start_in);
    size_min =
        omega (
          arith,
          length-splice b.items 0 (drop (length p - length b.items) p),
          length-append log p,
        );
    tail = omega (arith, length-append log p, h.tail);
    small = omega (arith, length-append log p);
    view = λ i hi.
        ap (get_elem? items') (
          ap (λ t. t % length items') (omega arith)
          ∙ wrap_lt i (length items') (omega (arith, same)))
        ∙ get_elem?-splice_in b.items 0 newest i i (omega arith)
            (omega (arith, length-drop (length p - length b.items) p)) hi
        ∙ get_elem?-drop (length p - length b.items) p i (length p - length b.items + i) refl
        ∙ sym (
            get_elem?-append_right log p
              (u64 (u64 (b.base + b.size) + (length p - length b.items)) + i)
              (length p - length b.items + i) (omega (arith, h.tail)));
  }
    where
      newest : List ℕ
      newest = drop (length p - length b.items) p

      items' : List ℕ
      items' = splice b.items 0 newest

      same : length items' ≡ length b.items
      same = length-splice b.items 0 newest

  abbrev lost : ℕ
  lost = b.size + length p - length b.items

  abbrev written : List ℕ
  written = write_around b.items ((b.start + b.size) % length b.items) p

  same_length : length written ≡ length b.items
  same_length = length-write_around b.items p ((b.start + b.size) % length b.items)

  slot :
      (i : ℕ)
      → ((b.start + lost) % length b.items + i) % length written
        ≡ (b.start + (lost + i)) % length b.items
  slot i =
      ap (◌%◌ ((b.start + lost) % length b.items + i)) same_length
      ∙ mod-add-mod (b.start + lost) (length b.items) i
      ∙ ap (λ t. t % length b.items) (omega arith)

  -- What `append` writes round the end, at the index `k` counted from the old start.
  written_view :
      (k : ℕ)
      → length p < length b.items
      → lost ≤ k
      → k < b.size + length p
      → get_elem? written ((b.start + k) % length b.items) ≡ get_elem? (log ++ p) (b.base + k)
  written_view k short from below = elim (lt-or-ge k b.size) [
    | inl old ↦ rw (wrap_back b.start b.size k (length b.items) (omega arith)) (
        write_around_old b.items p ((b.start + b.size) % length b.items)
          (length b.items + k - b.size) (mod-lt _ (omega arith)) (omega arith) (omega arith)
        ∙ ap (get_elem? b.items) (sym (wrap_back b.start b.size k (length b.items) (omega arith)))
        ∙ h.view k old
        ∙ sym (get_elem?-append_left log p (b.base + k) (omega (arith, h.tail))))
    | inr new ↦
        ap (λ t. get_elem? written ((b.start + t) % length b.items)) (omega arith)
        ∙ ap (get_elem? written) (wrap_forward b.start b.size (k - b.size) (length b.items))
        ∙ write_around_new b.items p ((b.start + b.size) % length b.items) (k - b.size)
            (mod-lt _ (omega arith)) (omega arith) (omega arith)
        ∙ sym (get_elem?-append_right log p (b.base + k) (k - b.size) (omega (arith, h.tail)))
  ]

  append_small-Holds : length p < length b.items → Holds (append_small b p) (log ++ p)
  unfolding append_small
  append_small-Holds short = record {
    start_in =
        omega (arith, same_length, mod-lt (b.start + lost) {m = length b.items} (omega arith));
    size_min = omega (arith, same_length, length-append log p, h.size_min);
    tail = omega (arith, length-append log p, h.tail, h.size_min);
    small = omega (arith, length-append log p);
    view = λ i hi.
        ap (get_elem? written) (slot i)
        ∙ written_view (lost + i) short (omega arith) (omega arith)
        ∙ ap (get_elem? (log ++ p)) (omega (arith, h.tail));
  }

module _ (b : Buffer) (p : List ℕ) (live : 0 < length b.items) (open_ : b.closed ≡ false) where
  append_eq_large : 0 < length p → length b.items ≤ length p → append b p ≡ append_large b p
  unfolding append
  append_eq_large h k = ground arith

  append_eq_small : 0 < length p → length p < length b.items → append b p ≡ append_small b p
  unfolding append
  append_eq_small h k = ground arith

-- `append` on an open buffer that holds `log` gives a buffer that holds `log` followed by the
-- input, as long as fewer than 2^64 bytes have been appended in all.
pub append-Holds :
    (b : Buffer) (p log : List ℕ)
    → Holds b log
    → b.closed ≡ false
    → length log + length p < 2 ^ 64
    → Holds (append b p) (log ++ p)
unfolding append
append-Holds b [] log h open_ fits = rw append-nil h
append-Holds b (x ∷ xs) log h open_ fits = elim (lt-or-ge (length (x ∷ xs)) (length b.items)) [
  | inl short ↦
      rw (append_eq_small b (x ∷ xs) (omega (arith, h.start_in)) open_ (omega arith) short)
        (append_small-Holds b (x ∷ xs) log h fits short)
  | inr big ↦
      rw (append_eq_large b (x ∷ xs) (omega (arith, h.start_in)) open_ (omega arith) big)
        (append_large-Holds b (x ∷ xs) log h fits big)
]

pub append-closed : (b : Buffer) (p : List ℕ) → (append b p).closed ≡ b.closed
unfolding append append_large append_small
append-closed b p = ground arith
