-- ===== src/Session/Manager/Fresh.antt =====
-- The loop of `nextReferenceLocked` ends: each round takes one of the names that are in use, and there
-- are two for each Session.
use Prim.Native.String.{String}
use channel_term.Prelude.{
  ℕ, zero, suc, ◌+◌, ◌*◌, ◌^◌, ◌<◌, ◌≡◌, ◌≢◌, refl, ap, ◌∙◌, arith, length, if◌then◌else◌, Bool,
  true, false, ◌||◌, List, [], ◌∷◌, Option, none, some, Option-cases, inl, inr, Map, lookup, put,
  u64,
}
use text.Mathlib.Text.{◌==◌ as str_eq}
use text.Mathlib.TextEquality.{eq_iff}
use channel_term.Session.Manager.Names.{reference_name, reference_key, reference_prefix, CaseTables}
use channel_term.Session.Manager.Numbers.{reference_name-injective}
use channel_term.Session.Manager.{
  Registered, with_reference, session_id, next_free, picked, Manager, counter, with_counter,
  next_reference,
}

abbrev mem : List String → String → Bool
mem [] x = false
mem (y ∷ ys) x = str_eq y x || mem ys x

unfoldable without : List String → String → List String
without [] x = []
without (y ∷ ys) x = let rest = without ys x in if str_eq y x then ys else y ∷ rest

length-without :
    (ys : List String) (x : String) → mem ys x ≡ true → suc (length (without ys x)) ≡ length ys
unfolding without
length-without [] x h = ground arith
length-without (y ∷ ys) x h = ground (arith, length-without ys x)

mem-without :
    (ys : List String) (x y : String) → x ≢ y → mem ys y ≡ true → mem (without ys x) y ≡ true
unfolding without
mem-without [] x y ne h = h
mem-without (z ∷ ys) x y ne h = ground (arith, mem-without ys x y ne, eq_iff z x, eq_iff z y)

-- The names in use: IDs and references.
names : Map Registered → List String
names [] = []
names ((id, r) ∷ ss) = id ∷ r.metadata.reference ∷ names ss

length-names : (ss : Map Registered) → length (names ss) ≡ 2 * length ss
unfolding names
length-names [] = refl
length-names ((id, r) ∷ ss) = omega (arith, length-names ss)

mem-lookup :
    (ss : Map Registered) (x : String) (r : Registered)
    → lookup ss x ≡ some r
    → mem (names ss) x ≡ true
unfolding names lookup
mem-lookup [] x r h = ground arith
mem-lookup ((id, s) ∷ ss) x r h = ground (arith, mem-lookup ss x r)

mem-with_reference :
    (ss : Map Registered) (x : String) (p : String × Registered)
    → with_reference ss x ≡ some p
    → mem (names ss) x ≡ true
unfolding names with_reference
mem-with_reference [] x p h = ground arith
mem-with_reference ((id, s) ∷ ss) x p h = ground (arith, mem-with_reference ss x p)

mem-session_id :
    (ss : Map Registered) (x : String) (p : String × Registered)
    → session_id ss x ≡ some p
    → mem (names ss) x ≡ true
unfolding session_id
mem-session_id ss x p h = elim (Option-cases (lookup ss x)) [
  | inl e ↦ mem-with_reference ss x p (ground (arith, e))
  | inr (r, e) ↦ mem-lookup ss x r e
]

next_free-step :
    (f : ℕ) (ss : Map Registered) (prefix : String) (n : ℕ)
    → n + 1 < 2 ^ 64
    → let name = reference_name prefix (n + 1) in
      next_free (suc f) ss prefix n
      ≡ picked (session_id ss name) (name, n + 1) (next_free f ss prefix (n + 1))
unfolding next_free
next_free-step f ss prefix n h =
    ap
      (λ k.
        picked (session_id ss (reference_name prefix k)) (reference_name prefix k, k)
          (next_free f ss prefix k))
      small
  where
    small : u64 (n + 1) ≡ n + 1
    small = omega arith

-- With more rounds than names in use, and the counter far from its bound, there is a reference.
next_free-returns :
    (f : ℕ) (ss : Map Registered) (prefix : String) (n : ℕ) (taken : List String)
    → length taken < f
    → n + f < 2 ^ 64
    → ((j : ℕ) (p : String × Registered)
        → n < j
        → session_id ss (reference_name prefix j) ≡ some p
        → mem taken (reference_name prefix j) ≡ true)
    → (r : String × ℕ) × (next_free f ss prefix n ≡ some r)
next_free-returns zero ss prefix n taken short far covers = absurd (omega arith)
next_free-returns (suc f) ss prefix n taken short far covers =
    elim (Option-cases (session_id ss (reference_name prefix (n + 1)))) [
      | inl e ↦ (
        (reference_name prefix (n + 1), n + 1),
        next_free-step f ss prefix n (omega arith)
            ∙ ap
                (λ o.
                  picked o (reference_name prefix (n + 1), n + 1) (next_free f ss prefix (n + 1)))
                e,
      )
      | inr (p, e) ↦
          let rest =
            next_free-returns f ss prefix (n + 1) (without taken (reference_name prefix (n + 1)))
              (omega (
                arith,
                length-without taken (reference_name prefix (n + 1))
                    (covers (n + 1) p (omega arith) e),
              ))
              (omega arith)
              (λ j q later found.
                mem-without taken (reference_name prefix (n + 1)) (reference_name prefix j)
                  (λ eq. absurd (omega (arith, reference_name-injective prefix (n + 1) j eq)))
                  (covers j q (omega arith) found)) in
          (
            rest.0,
            next_free-step f ss prefix n (omega arith)
                ∙ ap
                    (λ o.
                      picked o (reference_name prefix (n + 1), n + 1)
                        (next_free f ss prefix (n + 1)))
                    e
                ∙ rest.1,
          )
    ]

-- What the loop returns is no name in use.
pub next_free-fresh :
    (f : ℕ) (ss : Map Registered) (prefix : String) (n : ℕ) (r : String × ℕ)
    → next_free f ss prefix n ≡ some r
    → session_id ss r.0 ≡ none
unfolding next_free
next_free-fresh zero ss prefix n r h = ground arith
next_free-fresh (suc f) ss prefix n r h =
    fresh (session_id ss (reference_name prefix (u64 (n + 1)))) refl h
      (λ rest. next_free-fresh f ss prefix (u64 (n + 1)) r rest)
  where
    fresh :
        (o : Option (String × Registered))
        → session_id ss (reference_name prefix (u64 (n + 1))) ≡ o
        → picked o
            (reference_name prefix (u64 (n + 1)), u64 (n + 1))
            (next_free f ss prefix (u64 (n + 1)))
          ≡ some r
        → (next_free f ss prefix (u64 (n + 1)) ≡ some r → session_id ss r.0 ≡ none)
        → session_id ss r.0 ≡ none
    fresh none e h ih = ground (arith, e)
    fresh (some p) e h ih = ih h

abbrev pub counter_of : CaseTables → Manager → String → ℕ
counter_of u m transport = counter m.next_references (reference_key u transport)

pub next_reference-returns :
    (u : CaseTables) (m : Manager) (transport : String)
    → counter_of u m transport + 2 * length m.sessions + 1 < 2 ^ 64
    → (name : String) × (n : ℕ) × (next_reference u m transport
        ≡ with_counter m (reference_key u transport) (some (name, n)))
      × (session_id m.sessions name ≡ none)
unfolding next_reference
next_reference-returns u m transport far =
    let ((name, n), e) =
      next_free-returns (suc (2 * length m.sessions)) m.sessions
        (reference_prefix u (reference_key u transport))
        (counter m.next_references (reference_key u transport)) (names m.sessions)
        (omega (arith, length-names m.sessions)) (omega arith)
        (λ j p later found. mem-session_id m.sessions _ p found) in
    (
      name,
      n,
      ap (with_counter m (reference_key u transport)) e,
      next_free-fresh (suc (2 * length m.sessions)) m.sessions _ _ (name, n) e,
    )

-- A reference that the Manager gives, and what is left of the Manager.
pub next_reference-fresh :
    (u : CaseTables) (m : Manager) (transport : String) (name : String) (m' : Manager)
    → next_reference u m transport ≡ some (name, m')
    → (session_id m.sessions name ≡ none)
      × (counters : Map ℕ) × (m' ≡ record m { next_references = counters })
unfolding next_reference
next_reference-fresh u m transport name m' h =
    given
      (next_free (suc (2 * length m.sessions)) m.sessions
        (reference_prefix u (reference_key u transport))
        (counter m.next_references (reference_key u transport)))
      refl h
  where
    given :
        (o : Option (String × ℕ))
        → next_free
            (suc (2 * length m.sessions))
            m.sessions
            (reference_prefix u (reference_key u transport))
            (counter m.next_references (reference_key u transport))
          ≡ o
        → with_counter m (reference_key u transport) o ≡ some (name, m')
        → (session_id m.sessions name ≡ none)
          × (counters : Map ℕ) × (m' ≡ record m { next_references = counters })
    given none e h = absurd (ground arith)
    given (some (r, n)) e h = (
      ground (arith, next_free-fresh (suc (2 * length m.sessions)) m.sessions _ _ (r, n) e),
      put m.next_references (reference_key u transport) n,
      ground arith,
    )
