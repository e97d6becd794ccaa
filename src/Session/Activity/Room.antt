-- ===== src/Session/Activity/Room.antt =====
-- How an activity buffer makes room for an entry: its limits, `evict` and the loop of `append`.
use channel_term.Prelude.{
  ℕ, zero, suc, ◌+◌, ◌-◌, ◌%◌, ◌^◌, ◌≤◌, ◌<◌, ◌≡◌, refl, sym, ap, ◌∙◌, ◌⊎◌, inl, inr, List, [], ◌∷◌,
  ◌++◌, some, true, false, arith, length, get_elem?, get_or, get_elem?-get_or, drop, length-set,
  length-drop, u64, lt-or-ge, Bool-cases,
}
use channel_term.Circular.Window.{Window, evict-Window}
use channel_term.Circular.{wrap_lt}
use channel_term.Session.Activity.{Entry, no_entry, Buffer, evict, needs_room, make_room}

-- The total of the payload bytes.
abbrev pub weight : List Entry → ℕ
weight [] = 0
weight (e ∷ es) = length e.payload + weight es

pub weight-append : (xs ys : List Entry) → weight (xs ++ ys) ≡ weight xs + weight ys
weight-append [] ys = omega arith
weight-append (x ∷ xs) ys = omega (arith, weight-append xs ys)

pub weight-drop_append :
    (k : ℕ) (xs ys : List Entry)
    → k ≤ length xs
    → weight (drop k (xs ++ ys)) ≡ weight (drop k xs) + weight ys
weight-drop_append zero xs ys h = weight-append xs ys
weight-drop_append (suc k) [] ys h = absurd (omega arith)
weight-drop_append (suc k) (x ∷ xs) ys h = weight-drop_append k xs ys (omega arith)

weight-drop-suc :
    (k : ℕ) (xs : List Entry) (e : Entry)
    → get_elem? xs k ≡ some e
    → weight (drop k xs) ≡ length e.payload + weight (drop (suc k) xs)
weight-drop-suc k [] e h = cc
weight-drop-suc zero (x ∷ xs) e h = ground arith
weight-drop-suc (suc k) (x ∷ xs) e h = weight-drop-suc k xs e h

pub weight-drop_all : (k : ℕ) (xs : List Entry) → length xs ≤ k → weight (drop k xs) ≡ 0
weight-drop_all zero [] h = refl
weight-drop_all zero (x ∷ xs) h = absurd (omega arith)
weight-drop_all (suc k) [] h = refl
weight-drop_all (suc k) (x ∷ xs) h = weight-drop_all k xs (omega arith)

-- An end of the history from an index below `base` breaks one of the limits.
abbrev pub Tight : ℕ → ℕ → List Entry → ℕ → Type 0
Tight cap max_bytes log base =
    (k : ℕ) → k < base → (cap < length (drop k log)) ⊎ (max_bytes < weight (drop k log))

-- The buffer holds the end of `log` from index `base`, counts its bytes, and is within its limits.
pub record Retains (b : Buffer) (log : List Entry) : Type 0 where
  pub window : Window b.items b.start b.size b.base log
  pub counted : b.bytes ≡ weight (drop b.base log)
  pub within : b.bytes ≤ b.max_bytes
  pub small : length log < 2 ^ 64

evict-Retains :
    (b : Buffer) (log : List Entry)
    → 0 < b.size
    → Retains b log
    → Retains (evict b) log × ((evict b).base ≡ suc b.base)
unfolding evict
evict-Retains b log some_left r =
    let later : u64 (b.base + 1) ≡ suc b.base = omega (arith, r.small, r.window.tail) in
    let later' : u64 (b.base + 1) ≡ b.base + 1 = omega (arith, r.small, r.window.tail) in
    (
      record {
        window = rw later' (evict-Window r.window no_entry some_left);
        counted = rw later (omega (arith, r.counted, lighter));
        within = omega (arith, r.within);
        small = r.small;
      },
      later,
    )
  where
    oldest : get_elem? log b.base ≡ some (get_or b.items b.start no_entry)
    oldest =
        ap (get_elem? log) (omega arith)
        ∙ sym (r.window.view 0 some_left)
        ∙ ap (get_elem? b.items) (
            ap (λ t. t % length b.items) (omega arith)
            ∙ wrap_lt b.start (length b.items) r.window.start_in)
        ∙ sym (get_elem?-get_or b.items b.start no_entry r.window.start_in)

    lighter :
        weight (drop b.base log)
        ≡ length (get_or b.items b.start no_entry).payload + weight (drop (suc b.base) log)
    lighter = weight-drop-suc b.base log (get_or b.items b.start no_entry) oldest

-- With an entry of `n` bytes added, the end of the history from `k` would break a limit.
abbrev pub TooMuch : ℕ → ℕ → List Entry → ℕ → ℕ → Type 0
TooMuch cap max_bytes log n k =
    (cap < length (drop k log) + 1) ⊎ (max_bytes < weight (drop k log) + n)

-- What the loop of `append` establishes, from `b` to `b'`.
pub record Roomy (b : Buffer) (log : List Entry) (n : ℕ) (b' : Buffer) : Type 0 where
  pub retains : Retains b' log
  pub room : needs_room b' n ≡ false
  pub capacity : length b'.items ≡ length b.items
  pub limit : b'.max_bytes ≡ b.max_bytes
  pub tight :
      ((k : ℕ) → k < b.base → TooMuch (length b.items) b.max_bytes log n k)
      → (k : ℕ) → k < b'.base
      → TooMuch (length b.items) b.max_bytes log n k

evict_capacity : (b : Buffer) → length (evict b).items ≡ length b.items
unfolding evict
evict_capacity b = length-set b.items b.start no_entry

evict_limit : (b : Buffer) → (evict b).max_bytes ≡ b.max_bytes
unfolding evict
evict_limit b = refl

evict_size : (b : Buffer) → (evict b).size ≡ b.size - 1
unfolding evict
evict_size b = refl

module _ (b : Buffer) (log : List Entry) (n : ℕ) (r : Retains b log) where
  Roomy-done : needs_room b n ≡ false → Roomy b log n b
  Roomy-done full = record {
    retains = r;
    room = full;
    capacity = refl;
    limit = refl;
    tight = λ before k h. before k h;
  }

  full-TooMuch : needs_room b n ≡ true → TooMuch (length b.items) b.max_bytes log n b.base
  full-TooMuch full = ground (arith, length-drop b.base log, r.window.tail, r.counted)

  Roomy-next : needs_room b n ≡ true → (b' : Buffer) → Roomy (evict b) log n b' → Roomy b log n b'
  Roomy-next full b' m = record {
    retains = m.retains;
    room = m.room;
    capacity = m.capacity ∙ evict_capacity b;
    limit = m.limit ∙ evict_limit b;
    tight = λ before k h.
        step
          (λ j hj. elim (lt-or-ge j b.base) [
            | inl old ↦ before j old
            | inr new ↦
                let e : j ≡ b.base = omega (arith, (evict-Retains b log (ground arith) r).1) in
                rw e (full-TooMuch full)
          ])
          k h;
  }
    where
      step :
          ((k : ℕ) → k < (evict b).base → TooMuch (length b.items) b.max_bytes log n k)
          → (k : ℕ) → k < b'.base
          → TooMuch (length b.items) b.max_bytes log n k
      step = rw (evict_capacity b, evict_limit b) at m.tight

pub make_room-Roomy :
    (f : ℕ) (b : Buffer) (log : List Entry) (n : ℕ)
    → b.size ≤ f
    → Retains b log
    → Roomy b log n (make_room f b n)
unfolding make_room
make_room-Roomy zero b log n h r = Roomy-done b log n r (ground arith)
make_room-Roomy (suc f) b log n h r = elim (Bool-cases (needs_room b n)) [
  | inl full ↦ rw full (
      Roomy-next b log n r full _ (
        make_room-Roomy f (evict b) log n (ground (arith, evict_size b))
          (evict-Retains b log (ground arith) r).0))
  | inr fits ↦ rw fits (Roomy-done b log n r fits)
]
