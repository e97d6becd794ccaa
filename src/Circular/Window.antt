-- ===== src/Circular/Window.antt =====
-- Circular storage of whole entries: one entry is written, evicted or overwritten at a time, and
-- the retained ones are a window of the list of all entries ever accepted.
use native.Mathlib.Nat.{mod-lt, mod-add-mod, add-mod_right}
use channel_term.Prelude.{
  ℕ, zero, suc, ◌+◌, ◌-◌, ◌%◌, ◌≤◌, ◌<◌, ◌≡◌, ◌≢◌, refl, sym, ap, ◌∙◌, inl, inr, List, [], ◌∷◌,
  ◌++◌, some, arith, length, get_elem?, get_or, get_elem?-get_or, set, take, drop, length-set,
  length-append, length-take, length-drop, get_elem?-set_self, get_elem?-set_ne,
  get_elem?-append_left, get_elem?-append_right, get_elem?-take, get_elem?-drop, list_ext, lt-or-ge,
}
use channel_term.Circular.{wrap_lt, wrap_ge}

-- The `size` entries from slot `start` on are the entries of `log` from index `base` to its end.
pub record Window {ℓ} {A : Type ℓ} (items : List A) (start size base : ℕ) (log : List A)
    : Type ℓ where
  pub start_in : start < length items
  pub size_in : size ≤ length items
  pub tail : base + size ≡ length log
  pub view :
      (i : ℕ) → i < size → get_elem? items ((start + i) % length items) ≡ get_elem? log (base + i)

-- Fewer than a whole round apart, two slots differ.
slot_ne : (start i k c : ℕ) → start < c → i < k → k < c → (start + i) % c ≢ (start + k) % c
slot_ne start i k c hs hi hk = elim (lt-or-ge (start + k) c) [
  | inl a ↦ omega (arith, wrap_lt (start + k) c a, wrap_lt (start + i) c (omega arith))
  | inr a ↦ elim (lt-or-ge (start + i) c) [
    | inl b ↦ omega (arith, wrap_ge (start + k) c a (omega arith), wrap_lt (start + i) c b)
    | inr b ↦
        omega (arith, wrap_ge (start + k) c a (omega arith), wrap_ge (start + i) c b (omega arith))
  ]
]

-- `copyLocked` of the entry histories: one entry for each index.
unfoldable pub copy_slots {ℓ} : {A : Type ℓ} → A → List A → ℕ → ℕ → List A
copy_slots d items from zero = []
copy_slots d items from (suc n) =
    get_or items (from % length items) d ∷ copy_slots d items (suc from) n

module _ {ℓ} {A : Type ℓ} (d : A) (items : List A) where
  pub length-copy_slots : (from n : ℕ) → length (copy_slots d items from n) ≡ n
  unfolding copy_slots
  length-copy_slots from zero = refl
  length-copy_slots from (suc n) = ap suc (length-copy_slots (suc from) n)

  pub get_elem?-copy_slots :
      (from n j : ℕ)
      → 0 < length items
      → j < n
      → get_elem? (copy_slots d items from n) j ≡ get_elem? items ((from + j) % length items)
  unfolding copy_slots
  get_elem?-copy_slots from zero j pos h = absurd (omega arith)
  get_elem?-copy_slots from (suc n) zero pos h =
      get_elem?-get_or items (from % length items) d (mod-lt from pos)
      ∙ ap (λ t. get_elem? items (t % length items)) (omega arith)
  get_elem?-copy_slots from (suc n) (suc j) pos h =
      get_elem?-copy_slots (suc from) n j pos (omega arith)
      ∙ ap (λ t. get_elem? items (t % length items)) (omega arith)

module _ {ℓ} {A : Type ℓ} {items : List A} {start size base : ℕ} {log : List A}
    (w : Window items start size base log) where
  -- A copy of retained entries is the same part of the list of all entries.
  pub copy_slots-Window :
      (d : A) (from count : ℕ)
      → base ≤ from
      → from + count ≤ length log
      → copy_slots d items (start + (from - base)) count ≡ take count (drop from log)
  copy_slots-Window d from count old new =
      list_ext _ _
        (omega (
          arith,
          length-copy_slots d items (start + (from - base)) count,
          length-take count (drop from log),
          length-drop from log,
        ))
        (λ j hj. entry j (omega (arith, length-copy_slots d items (start + (from - base)) count)))
    where
      entry :
          (j : ℕ)
          → j < count
          → get_elem? (copy_slots d items (start + (from - base)) count) j
            ≡ get_elem? (take count (drop from log)) j
      entry j hj =
          get_elem?-copy_slots d items (start + (from - base)) count j (omega (arith, w.start_in))
            hj
          ∙ ap (λ t. get_elem? items (t % length items)) (omega arith)
          ∙ w.view (from - base + j) (omega (arith, w.tail))
          ∙ ap (get_elem? log) (omega arith)
          ∙ sym (
              get_elem?-take count (drop from log) j hj ∙ get_elem?-drop from log j (from + j) refl)

  -- A new entry goes to the first free slot.
  pub push-Window :
      (v : A)
      → size < length items
      → Window (set items ((start + size) % length items) v) start (size + 1) base (log ++ v ∷ [])
  push-Window v room = record {
    start_in = omega (arith, same, w.start_in);
    size_in = omega (arith, same);
    tail = omega (arith, length-append log (v ∷ []), w.tail);
    view = λ i h. ap (λ c. get_elem? (set items t v) ((start + i) % c)) same ∙ entry i h;
  }
    where
      t : ℕ
      t = (start + size) % length items

      same : length (set items t v) ≡ length items
      same = length-set items t v

      entry :
          (i : ℕ)
          → i < size + 1
          → get_elem? (set items t v) ((start + i) % length items)
            ≡ get_elem? (log ++ v ∷ []) (base + i)
      entry i h = elim (lt-or-ge i size) [
        | inl old ↦
            get_elem?-set_ne items t ((start + i) % length items) v
              (λ e. slot_ne start i size (length items) w.start_in old room (sym e))
            ∙ w.view i old
            ∙ sym (get_elem?-append_left log (v ∷ []) (base + i) (omega (arith, w.tail)))
        | inr new ↦
            let e : i ≡ size = omega arith in
            rw e (
              get_elem?-set_self items t v (mod-lt _ (omega (arith, w.start_in)))
              ∙ sym (get_elem?-append_right log (v ∷ []) (base + size) 0 (omega (arith, w.tail))))
      ]

  -- The oldest entry leaves, and its slot is overwritten.
  pub evict-Window :
      (z : A)
      → 0 < size
      → Window (set items start z) ((start + 1) % length items) (size - 1) (base + 1) log
  evict-Window z some_left = record {
    start_in =
        omega (arith, same, mod-lt (start + 1) {m = length items} (omega (arith, w.start_in)));
    size_in = omega (arith, same, w.size_in);
    tail = omega (arith, w.tail);
    view = λ i h.
        ap (λ c. get_elem? (set items start z) (((start + 1) % length items + i) % c)) same
        ∙ entry i h;
  }
    where
      same : length (set items start z) ≡ length items
      same = length-set items start z

      entry :
          (i : ℕ)
          → i < size - 1
          → get_elem? (set items start z) (((start + 1) % length items + i) % length items)
            ≡ get_elem? log (base + 1 + i)
      entry i h =
          ap (get_elem? (set items start z))
            (mod-add-mod (start + 1) (length items) i ∙ ap (λ t. t % length items) (omega arith))
          ∙ get_elem?-set_ne items start ((start + suc i) % length items) z (λ e.
            slot_ne start 0 (suc i) (length items) w.start_in (omega arith)
              (omega (arith, w.size_in)) (first ∙ e))
          ∙ w.view (suc i) (omega arith)
          ∙ ap (get_elem? log) (omega arith)
        where
          first : (start + 0) % length items ≡ start
          first = ap (λ t. t % length items) (omega arith) ∙ wrap_lt start (length items) w.start_in

module _ {ℓ} {A : Type ℓ} {items : List A} {start size base : ℕ} {log : List A}
    (w : Window items start size base log) where
  -- An entry that already stands in the first free slot joins the window.
  adopt-Window :
      (v : A)
      → size < length items
      → get_elem? items ((start + size) % length items) ≡ some v
      → Window items start (size + 1) base (log ++ v ∷ [])
  adopt-Window v room there = record {
    start_in = w.start_in;
    size_in = omega arith;
    tail = omega (arith, length-append log (v ∷ []), w.tail);
    view = λ i h. elim (lt-or-ge i size) [
      | inl old ↦
          w.view i old ∙ sym (get_elem?-append_left log (v ∷ []) (base + i) (omega (arith, w.tail)))
      | inr new ↦
          let e : i ≡ size = omega arith in
          rw e (
            there
            ∙ sym (get_elem?-append_right log (v ∷ []) (base + size) 0 (omega (arith, w.tail))))
    ];
  }

module _ {ℓ} {A : Type ℓ} {items : List A} {start size base : ℕ} {log : List A}
    (w : Window items start size base log) where
  -- With all slots taken the new entry overwrites the oldest one.
  pub overwrite-Window :
      (v : A)
      → size ≡ length items
      → Window (set items start v) ((start + 1) % length items) size (base + 1) (log ++ v ∷ [])
  overwrite-Window v full =
      let e : size ≡ size - 1 + 1 = omega (arith, w.start_in) in
      rw e (
        adopt-Window (evict-Window w v (omega (arith, w.start_in))) v
          (omega (arith, length-set items start v, w.start_in)) slot)
    where
      slot :
          get_elem?
            (set items start v)
            (((start + 1) % length items + (size - 1)) % length (set items start v))
          ≡ some v
      slot =
          ap (get_elem? (set items start v)) (
            ap (λ c. ((start + 1) % length items + (size - 1)) % c) (length-set items start v)
            ∙ mod-add-mod (start + 1) (length items) (size - 1)
            ∙ ap (λ t. t % length items) (omega (arith, w.start_in))
            ∙ add-mod_right start (length items)
            ∙ wrap_lt start (length items) w.start_in)
          ∙ get_elem?-set_self items start v w.start_in
