-- ===== src/Prelude/Maps.antt =====
-- Go's maps with string keys, as lists of their entries. `range` goes through them in list order,
-- which is one of the orders that Go may take.
use Prim.Native.String.{String}
use mathlib.Core.Path.{◌≡◌, refl, sym, ◌∙◌}
use mathlib.Core.List.{List, [], ◌∷◌}
use mathlib.Core.Option.{Option, none, some}
use mathlib.Core.Logic.{◌≢◌, ◌⊎◌, inl, inr}
use native.Mathlib.Omega.{arith}
use text.Mathlib.Text.{◌==◌ as str_eq}
use text.Mathlib.TextEquality.{eq_iff}
use channel_term.Prelude.Tests.{if◌then◌else◌}

-- Two strings are equal or not.
pub text-cases : (s t : String) → (s ≡ t) ⊎ (s ≢ t)
text-cases s t = ground (arith, eq_iff s t)

abbrev pub Map {ℓ} : Type ℓ → Type ℓ
Map V = List (String × V)

module _ {ℓ} {V : Type ℓ} where
  unfoldable pub lookup : Map V → String → Option V
  lookup [] k = none
  lookup ((j, v) ∷ m) k = let rest = lookup m k in if str_eq j k then some v else rest

  -- `m[k] = v`
  unfoldable pub put : Map V → String → V → Map V
  put [] k v = (k, v) ∷ []
  put ((j, w) ∷ m) k v = let rest = put m k v in if str_eq j k then (j, v) ∷ m else (j, w) ∷ rest

  -- `delete(m, k)`
  unfoldable pub erase : Map V → String → Map V
  erase [] k = []
  erase ((j, v) ∷ m) k = let rest = erase m k in if str_eq j k then rest else (j, v) ∷ rest

  pub lookup-put_self : (m : Map V) (k : String) (v : V) → lookup (put m k v) k ≡ some v
  unfolding lookup put
  lookup-put_self [] k v = ground (arith, eq_iff k k)
  lookup-put_self ((j, w) ∷ m) k v = ground (arith, lookup-put_self m k v)

  pub lookup-put_other :
      (m : Map V) (k j : String) (v : V) → k ≢ j → lookup (put m k v) j ≡ lookup m j
  unfolding lookup put
  lookup-put_other [] k j v h = ground (arith, eq_iff k j)
  lookup-put_other ((i, w) ∷ m) k j v h =
      ground (arith, lookup-put_other m k j v h, eq_iff i j, eq_iff i k)

  pub lookup-erase_self : (m : Map V) (k : String) → lookup (erase m k) k ≡ none
  unfolding lookup erase
  lookup-erase_self [] k = refl
  lookup-erase_self ((j, w) ∷ m) k = ground (arith, lookup-erase_self m k)

  pub lookup-erase_other : (m : Map V) (k j : String) → k ≢ j → lookup (erase m k) j ≡ lookup m j
  unfolding lookup erase
  lookup-erase_other [] k j h = refl
  lookup-erase_other ((i, w) ∷ m) k j h =
      ground (arith, lookup-erase_other m k j h, eq_iff i j, eq_iff i k)

  -- Each key has one entry.
  abbrev pub Once : Map V → Type ℓ
  Once [] = Unit
  Once ((k, v) ∷ m) = (lookup m k ≡ none) × Once m

  lookup-put-none :
      (m : Map V) (k j : String) (v : V) → k ≢ j → lookup m j ≡ none → lookup (put m k v) j ≡ none
  lookup-put-none m k j v h e = lookup-put_other m k j v h ∙ e

  pub put-Once : (m : Map V) (k : String) (v : V) → Once m → Once (put m k v)
  unfolding lookup put
  put-Once [] k v o = (refl, tt)
  put-Once ((j, w) ∷ m) k v o =
      ground (arith, put-Once m k v o.1, lookup-put-none m k j v, eq_iff j k, eq_iff k j)

  -- An entry of what `put` makes is the new one or an old one.
  pub lookup-put_cases :
      (m : Map V) (k j : String) (v w : V)
      → lookup (put m k v) j ≡ some w
      → ((k ≡ j) × (v ≡ w)) ⊎ (lookup m j ≡ some w)
  lookup-put_cases m k j v w h = elim (text-cases k j) [
    | inl same ↦ inl (same, ground (arith, lookup-put_self m k v, same, h))
    | inr other ↦ inr (sym (lookup-put_other m k j v other) ∙ h)
  ]

  -- An entry of what `erase` makes is an old one.
  pub lookup-erase-some :
      (m : Map V) (k j : String) (v : V) → lookup (erase m k) j ≡ some v → lookup m j ≡ some v
  lookup-erase-some m k j v h = elim (text-cases k j) [
    | inl same ↦ absurd (ground (arith, lookup-erase_self m k, same, h))
    | inr other ↦ sym (lookup-erase_other m k j other) ∙ h
  ]

  lookup-erase-none : (m : Map V) (k j : String) → lookup m j ≡ none → lookup (erase m k) j ≡ none
  unfolding lookup erase
  lookup-erase-none [] k j h = refl
  lookup-erase-none ((i, w) ∷ m) k j h = ground (arith, lookup-erase-none m k j)

  pub erase-Once : (m : Map V) (k : String) → Once m → Once (erase m k)
  unfolding erase
  erase-Once [] k o = o
  erase-Once ((i, w) ∷ m) k o = ground (arith, erase-Once m k o.1, lookup-erase-none m k i)
