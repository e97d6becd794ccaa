-- ===== src/Circular.antt =====
-- Index arithmetic and two-part copies on circular storage, for the histories of a Session.
pub mod Window
use native.Mathlib.Nat.{mod-eq_of_lt, mod-eq-sub-mod, mod-add-mod, add-mod_right}
use channel_term.Prelude.{
  ℕ, ◌+◌, ◌-◌, ◌%◌, ◌≤◌, ◌<◌, min, ◌≡◌, refl, sym, ap, ◌∙◌, inl, inr, List, arith, length,
  get_elem?, take, drop, replicate, splice, lt-or-ge, length-take, length-drop, length-splice,
  length-replicate, get_elem?-take, get_elem?-drop, get_elem?-splice_in, get_elem?-splice_before,
  get_elem?-splice_after,
}

pub wrap_lt : (a c : ℕ) → a < c → a % c ≡ a
wrap_lt a c h = mod-eq_of_lt h

pub wrap_ge : (a c : ℕ) → c ≤ a → a < c + c → a % c ≡ a - c
wrap_ge a c h k = mod-eq-sub-mod h ∙ mod-eq_of_lt (omega arith)

-- The slot of index `k` counted from the write position behind `s` items instead.
pub wrap_back : (st s k c : ℕ) → s ≤ c + k → (st + k) % c ≡ ((st + s) % c + (c + k - s)) % c
wrap_back st s k c h =
    sym (add-mod_right (st + k) c)
    ∙ ap (λ t. t % c) (omega arith)
    ∙ sym (mod-add-mod (st + s) c (c + k - s))

pub wrap_forward : (st s j c : ℕ) → (st + (s + j)) % c ≡ ((st + s) % c + j) % c
wrap_forward st s j c = ap (λ t. t % c) (omega arith) ∙ sym (mod-add-mod (st + s) c j)

module _ {ℓ} {A : Type ℓ} where
  -- `copy(items[w:w+first], p[:first]); copy(items[:len(p)-first], p[first:])`
  abbrev pub write_around : List A → ℕ → List A → List A
  write_around items w p =
      let first = min (length p) (length items - w) in
      splice (splice items w (take first p)) 0 (drop first p)

  -- `copy(out, items[r:r+first]); copy(out[first:], items[:count-first])` into `count` fresh places.
  abbrev pub read_around : A → List A → ℕ → ℕ → List A
  read_around zero_value items r count =
      let first = min count (length items - r) in
      splice (splice (replicate count zero_value) 0 (take first (drop r items))) first
        (take (count - first) items)

module _ {ℓ} {A : Type ℓ} (items p : List A) (w : ℕ) where
  abbrev first : ℕ
  first = min (length p) (length items - w)

  abbrev front : List A
  front = splice items w (take first p)

  abbrev back : List A
  back = drop first p

  pub length-write_around : length (write_around items w p) ≡ length items
  length-write_around = length-splice front 0 back ∙ length-splice items w (take first p)

  -- The written items stand behind the write position, in order, going round at the end.
  pub write_around_new :
      (j : ℕ)
      → w < length items
      → length p ≤ length items
      → j < length p
      → get_elem? (write_around items w p) ((w + j) % length items) ≡ get_elem? p j
  write_around_new j hw hp hj = elim (lt-or-ge (w + j) (length items)) [
    | inl e ↦ rw (wrap_lt _ _ e) (
        get_elem?-splice_after front 0 back (w + j) (omega (arith, length-drop first p))
        ∙ get_elem?-splice_in items w (take first p) (w + j) j refl
            (omega (arith, length-take first p)) e
        ∙ get_elem?-take first p j (omega arith))
    | inr e ↦ rw (wrap_ge _ _ e (omega arith)) (
        get_elem?-splice_in front 0 back (w + j - length items) (j - first) (omega arith)
          (omega (arith, length-drop first p)) (omega (arith, length-splice items w (take first p)))
        ∙ get_elem?-drop first p (j - first) j (omega arith))
  ]

  -- The other slots keep what they hold.
  pub write_around_old :
      (j : ℕ)
      → w < length items
      → length p ≤ j
      → j < length items
      → get_elem? (write_around items w p) ((w + j) % length items)
        ≡ get_elem? items ((w + j) % length items)
  write_around_old j hw hp hj = elim (lt-or-ge (w + j) (length items)) [
    | inl e ↦ rw (wrap_lt _ _ e) (
        get_elem?-splice_after front 0 back (w + j) (omega (arith, length-drop first p))
        ∙ get_elem?-splice_after items w (take first p) (w + j)
            (omega (arith, length-take first p)))
    | inr e ↦ rw (wrap_ge _ _ e (omega arith)) (
        get_elem?-splice_after front 0 back (w + j - length items)
          (omega (arith, length-drop first p))
        ∙ get_elem?-splice_before items w (take first p) (w + j - length items) (omega arith))
  ]

module _ {ℓ} {A : Type ℓ} (zero_value : A) (items : List A) (r count : ℕ) where
  abbrev head_count : ℕ
  head_count = min count (length items - r)

  abbrev fresh : List A
  fresh = replicate count zero_value

  abbrev opening : List A
  opening = splice fresh 0 (take head_count (drop r items))

  pub length-read_around : length (read_around zero_value items r count) ≡ count
  length-read_around =
      length-splice opening head_count (take (count - head_count) items)
      ∙ length-splice fresh 0 (take head_count (drop r items))
      ∙ length-replicate count zero_value

  pub get_elem?-read_around :
      (j : ℕ)
      → r < length items
      → count ≤ length items
      → j < count
      → get_elem? (read_around zero_value items r count) j
        ≡ get_elem? items ((r + j) % length items)
  get_elem?-read_around j hr hc hj = elim (lt-or-ge (r + j) (length items)) [
    | inl e ↦ rw (wrap_lt _ _ e) (
        get_elem?-splice_before opening head_count (take (count - head_count) items) j (omega arith)
        ∙ get_elem?-splice_in fresh 0 (take head_count (drop r items)) j j (omega arith)
            (omega (arith, length-take head_count (drop r items), length-drop r items))
            (omega (arith, length-replicate count zero_value))
        ∙ get_elem?-take head_count (drop r items) j (omega arith)
        ∙ get_elem?-drop r items j (r + j) refl)
    | inr e ↦ rw (wrap_ge _ _ e (omega arith)) (
        get_elem?-splice_in opening head_count (take (count - head_count) items) j (j - head_count)
          (omega arith) (omega (arith, length-take (count - head_count) items))
          (omega (
            arith,
            length-splice fresh 0 (take head_count (drop r items)),
            length-replicate count zero_value,
          ))
        ∙ get_elem?-take (count - head_count) items (j - head_count) (omega arith)
        ∙ ap (get_elem? items) (omega arith))
  ]
