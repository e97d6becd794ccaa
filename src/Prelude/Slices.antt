-- ===== src/Prelude/Slices.antt =====
-- Parts of lists: what a splice changes, and parts that meet or lie inside a list.
use Prim.Native.Nat.{ℕ, zero, suc, ◌+◌, ◌≤◌, ◌<◌, min}
use mathlib.Core.Path.{◌≡◌, refl, sym, ap, ◌∙◌}
use mathlib.Core.List.{List, [], ◌∷◌, ◌++◌, map}
use native.Mathlib.Omega.{arith}
use channel_term.Prelude.Lists.{length, get_elem?, take, drop, splice, length-take, get_elem?-take}

module _ {ℓ} {A : Type ℓ} where
  pub get_elem?-splice_in :
      (xs : List A) (off : ℕ) (ys : List A) (i j : ℕ)
      → i ≡ off + j
      → j < length ys
      → i < length xs
      → get_elem? (splice xs off ys) i ≡ get_elem? ys j
  get_elem?-splice_in [] off ys i j e h k = absurd (omega arith)
  get_elem?-splice_in (x ∷ xs) zero [] i j e h k = absurd (omega arith)
  get_elem?-splice_in (x ∷ xs) zero (y ∷ ys) zero zero e h k = refl
  get_elem?-splice_in (x ∷ xs) zero (y ∷ ys) zero (suc j) e h k = absurd (omega arith)
  get_elem?-splice_in (x ∷ xs) zero (y ∷ ys) (suc i) zero e h k = absurd (omega arith)
  get_elem?-splice_in (x ∷ xs) zero (y ∷ ys) (suc i) (suc j) e h k =
      get_elem?-splice_in xs zero ys i j (omega arith) (omega arith) (omega arith)
  get_elem?-splice_in (x ∷ xs) (suc off) ys zero j e h k = absurd (omega arith)
  get_elem?-splice_in (x ∷ xs) (suc off) ys (suc i) j e h k =
      get_elem?-splice_in xs off ys i j (omega arith) h (omega arith)

  pub get_elem?-splice_before :
      (xs : List A) (off : ℕ) (ys : List A) (i : ℕ)
      → i < off
      → get_elem? (splice xs off ys) i ≡ get_elem? xs i
  get_elem?-splice_before [] off ys i h = refl
  get_elem?-splice_before (x ∷ xs) zero ys i h = absurd (omega arith)
  get_elem?-splice_before (x ∷ xs) (suc off) ys zero h = refl
  get_elem?-splice_before (x ∷ xs) (suc off) ys (suc i) h =
      get_elem?-splice_before xs off ys i (omega arith)

  pub get_elem?-splice_after :
      (xs : List A) (off : ℕ) (ys : List A) (i : ℕ)
      → off + length ys ≤ i
      → get_elem? (splice xs off ys) i ≡ get_elem? xs i
  get_elem?-splice_after [] off ys i h = refl
  get_elem?-splice_after (x ∷ xs) zero [] i h = refl
  get_elem?-splice_after (x ∷ xs) zero (y ∷ ys) zero h = absurd (omega arith)
  get_elem?-splice_after (x ∷ xs) zero (y ∷ ys) (suc i) h =
      get_elem?-splice_after xs zero ys i (omega arith)
  get_elem?-splice_after (x ∷ xs) (suc off) ys zero h = absurd (omega arith)
  get_elem?-splice_after (x ∷ xs) (suc off) ys (suc i) h =
      get_elem?-splice_after xs off ys i (omega arith)

  -- Lists of one length that agree at each index are equal.
  pub list_ext :
      (xs ys : List A)
      → length xs ≡ length ys
      → ((i : ℕ) → i < length xs → get_elem? xs i ≡ get_elem? ys i)
      → xs ≡ ys
  list_ext [] [] e h = refl
  list_ext [] (y ∷ ys) e h = absurd (omega arith)
  list_ext (x ∷ xs) [] e h = absurd (omega arith)
  list_ext (x ∷ xs) (y ∷ ys) e h =
      cc (h 0 (omega arith), list_ext xs ys (omega arith) (λ i k. h (suc i) (omega arith)))

  -- A bound that goes past the end takes all.
  pub take_of_min : (m n : ℕ) (xs : List A) → m ≡ min n (length xs) → take m xs ≡ take n xs
  take_of_min m n xs e =
      list_ext (take m xs) (take n xs) (omega (arith, length-take m xs, length-take n xs)) (λ i h.
        get_elem?-take m xs i (omega (arith, length-take m xs))
        ∙ sym (get_elem?-take n xs i (omega (arith, length-take m xs))))

  pub take_of_le : (n : ℕ) (xs : List A) → length xs ≤ n → take n xs ≡ xs
  take_of_le zero [] h = refl
  take_of_le zero (x ∷ xs) h = absurd (omega arith)
  take_of_le (suc n) [] h = refl
  take_of_le (suc n) (x ∷ xs) h = ap (◌∷◌ x) (take_of_le n xs (omega arith))

  -- A part that lies inside a list is the same part of each extension of it.
  pub slice_append :
      (c k : ℕ) (xs ys : List A)
      → c + k ≤ length xs
      → take k (drop c (xs ++ ys)) ≡ take k (drop c xs)
  slice_append zero zero xs ys h = refl
  slice_append zero (suc k) [] ys h = absurd (omega arith)
  slice_append zero (suc k) (x ∷ xs) ys h = ap (◌∷◌ x) (slice_append zero k xs ys (omega arith))
  slice_append (suc c) zero xs ys h = refl
  slice_append (suc c) (suc k) [] ys h = absurd (omega arith)
  slice_append (suc c) (suc k) (x ∷ xs) ys h = slice_append c (suc k) xs ys (omega arith)

  -- Two parts that meet are one part.
  pub slice_extend :
      (c a d m n : ℕ) (xs : List A)
      → d ≡ c + a
      → d ≤ length xs
      → m ≡ a + length (take n (drop d xs))
      → take a (drop c xs) ++ take n (drop d xs) ≡ take m (drop c xs)
  slice_extend zero zero zero m n xs e h k =
      sym (take_of_min m n xs (omega (arith, length-take n xs)))
  slice_extend zero zero (suc d) m n xs e h k = absurd (omega arith)
  slice_extend zero (suc a) zero m n xs e h k = absurd (omega arith)
  slice_extend zero (suc a) (suc d) m n [] e h k = absurd (omega arith)
  slice_extend zero (suc a) (suc d) zero n (x ∷ xs) e h k = absurd (omega arith)
  slice_extend zero (suc a) (suc d) (suc m) n (x ∷ xs) e h k =
      ap (◌∷◌ x) (slice_extend zero a d m n xs (omega arith) (omega arith) (omega arith))
  slice_extend (suc c) a zero m n xs e h k = absurd (omega arith)
  slice_extend (suc c) a (suc d) m n [] e h k = absurd (omega arith)
  slice_extend (suc c) a (suc d) m n (x ∷ xs) e h k =
      slice_extend c a d m n xs (omega arith) (omega arith) k

  pub drop-drop : (m n k : ℕ) (xs : List A) → k ≡ m + n → drop n (drop m xs) ≡ drop k xs
  drop-drop zero n k xs e = ap (λ i. drop i xs) (omega arith)
  drop-drop (suc m) n zero xs e = absurd (omega arith)
  drop-drop (suc m) zero (suc k) [] e = refl
  drop-drop (suc m) (suc n) (suc k) [] e = refl
  drop-drop (suc m) n (suc k) (x ∷ xs) e = drop-drop m n k xs (omega arith)

  pub nil_of_length : (xs : List A) → length xs ≡ 0 → xs ≡ []
  nil_of_length [] h = refl
  nil_of_length (x ∷ xs) h = absurd (omega arith)

module _ {ℓ κ} {A : Type ℓ} {B : Type κ} (f : A → B) where
  pub map-take-drop :
      (n k : ℕ) (xs : List A) → map f (take n (drop k xs)) ≡ take n (drop k (map f xs))
  map-take-drop zero zero [] = refl
  map-take-drop zero zero (x ∷ xs) = refl
  map-take-drop zero (suc k) [] = refl
  map-take-drop zero (suc k) (x ∷ xs) = map-take-drop zero k xs
  map-take-drop (suc n) zero [] = refl
  map-take-drop (suc n) zero (x ∷ xs) = ap (◌∷◌ (f x)) (map-take-drop n zero xs)
  map-take-drop (suc n) (suc k) [] = refl
  map-take-drop (suc n) (suc k) (x ∷ xs) = map-take-drop (suc n) k xs
