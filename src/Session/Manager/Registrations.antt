-- ===== src/Session/Manager/Registrations.antt =====
-- The registrations: each Session is under its own ID, and no two have one reference, so that a
-- reference leads to one Session whatever the order in which the map is gone through.
use Prim.Native.String.{String}
use channel_term.Prelude.{
  ◌≡◌, ◌≢◌, refl, sym, ap, ◌∙◌, arith, [], ◌∷◌, none, some, Option-cases, ◌⊎◌, inl, inr, Map,
  lookup, put, erase, Once, put-Once, erase-Once, lookup-put_self, lookup-put_cases,
  lookup-put_other, lookup-put_self, lookup-erase-some, text-cases, lookup-put_other,
}
use text.Mathlib.TextEquality.{eq_iff}
use channel_term.Session.Manager.{Session, Metadata, Registered, with_reference, session_id}

pub record Named (ss : Map Registered) : Type 0 where
  pub once : Once ss
  pub own : (k : String) (r : Registered) → lookup ss k ≡ some r → r.session.id ≡ k
  pub distinct :
      (j k : String) (r s : Registered)
      → lookup ss j ≡ some r
      → lookup ss k ≡ some s
      → r.metadata.reference ≡ s.metadata.reference
      → j ≡ k

pub with_reference-none :
    (ss : Map Registered) (x k : String) (r : Registered)
    → with_reference ss x ≡ none
    → lookup ss k ≡ some r
    → r.metadata.reference ≢ x
unfolding with_reference lookup
with_reference-none [] x k r h e = ground arith
with_reference-none ((id, s) ∷ ss) x k r h e =
    ground (arith, with_reference-none ss x k r, eq_iff s.metadata.reference x)

with_reference-some :
    (ss : Map Registered) (x : String) (id : String) (r : Registered)
    → Once ss
    → with_reference ss x ≡ some (id, r)
    → (lookup ss id ≡ some r) × (r.metadata.reference ≡ x)
unfolding with_reference lookup
with_reference-some [] x id r o h = absurd (ground arith)
with_reference-some ((k, s) ∷ ss) x id r o h = ground (
  arith,
  with_reference-some ss x id r o.1,
  eq_iff s.metadata.reference x,
  eq_iff k id,
  eq_iff k k,
)

session_id-free :
    (ss : Map Registered) (x : String) → lookup ss x ≡ none → session_id ss x ≡ with_reference ss x
unfolding session_id
session_id-free ss x h = ground (arith, h)

pub session_id-found :
    (ss : Map Registered) (x : String) (r : Registered)
    → lookup ss x ≡ some r
    → session_id ss x ≡ some (x, r)
unfolding session_id
session_id-found ss x r h = ground (arith, h)

session_id-none :
    (ss : Map Registered) (x : String)
    → session_id ss x ≡ none
    → (lookup ss x ≡ none) × (with_reference ss x ≡ none)
unfolding session_id
session_id-none ss x h = elim (Option-cases (lookup ss x)) [
  | inl e ↦ (e, ground (arith, h, e))
  | inr (r, e) ↦ absurd (ground (arith, h, e))
]

-- The reference of a registration leads to it, or is the ID of a Session.
pub session_id-reference :
    (ss : Map Registered) (id : String) (r : Registered)
    → Named ss
    → lookup ss id ≡ some r
    → (session_id ss r.metadata.reference ≡ some (id, r))
      ⊎ ((s : Registered) × (lookup ss r.metadata.reference ≡ some s))
session_id-reference ss id r named h = elim (Option-cases (lookup ss r.metadata.reference)) [
  | inr shadowed ↦ inr shadowed
  | inl free ↦ elim (Option-cases (with_reference ss r.metadata.reference)) [
    | inl e ↦ absurd (with_reference-none ss _ id r e h refl)
    | inr ((j, s), e) ↦
        let (at, same) = with_reference-some ss _ j s named.once e in
        let key = named.distinct j id s r at h same in
        inl (
          ground (
            arith,
            session_id-free ss r.metadata.reference free,
            e,
            sym at ∙ ap (lookup ss) key ∙ h,
            key,
          ))
  ]
]

pub put-Named :
    (ss : Map Registered) (s : Session) (metadata : Metadata)
    → Named ss
    → session_id ss metadata.reference ≡ none
    → Named (put ss s.id (record { session = s; metadata = metadata }))
unfolding session_id
put-Named ss s metadata named fresh = record {
  once = put-Once ss s.id _ named.once;
  own = λ k r e. elim (lookup-put_cases ss s.id k _ r e) [
    | inl (same, new) ↦ sym (ap (λ t. t.session.id) new) ∙ same
    | inr old ↦ named.own k r old
  ];
  distinct = λ j k r t e f same. elim (lookup-put_cases ss s.id j _ r e) [
    | inl (here, new) ↦ elim (lookup-put_cases ss s.id k _ t f) [
      | inl (there, _) ↦ sym here ∙ there
      | inr old ↦ absurd (unused k t old (sym (ap (λ t. t.metadata.reference) new ∙ same)))
    ]
    | inr old ↦ elim (lookup-put_cases ss s.id k _ t f) [
      | inl (_, new) ↦ absurd (unused j r old (same ∙ sym (ap (λ t. t.metadata.reference) new)))
      | inr older ↦ named.distinct j k r t old older same
    ]
  ];
}
  where
    unused :
        (k : String) (t : Registered)
        → lookup ss k ≡ some t
        → t.metadata.reference ≢ metadata.reference
    unused k t e = with_reference-none ss metadata.reference k t (session_id-none ss _ fresh).1 e

pub erase-Named : (ss : Map Registered) (id : String) → Named ss → Named (erase ss id)
erase-Named ss id named = record {
  once = erase-Once ss id named.once;
  own = λ k r e. named.own k r (lookup-erase-some ss id k r e);
  distinct = λ j k r s e f.
      named.distinct j k r s (lookup-erase-some ss id j r e) (lookup-erase-some ss id k s f);
}

pub none-Named : Named []
unfolding lookup
none-Named = record {
  once = tt;
  own = λ k r e. absurd (ground arith);
  distinct = λ j k r s e f same. absurd (ground arith);
}

with_reference-put :
    (ss : Map Registered) (k : String) (r : Registered)
    → with_reference ss r.metadata.reference ≡ none
    → with_reference (put ss k r) r.metadata.reference ≡ some (k, r)
unfolding with_reference put
with_reference-put [] k r h = ground (arith, eq_iff r.metadata.reference r.metadata.reference)
with_reference-put ((j, s) ∷ ss) k r h =
    ground (
      arith,
      with_reference-put ss k r,
      eq_iff j k,
      eq_iff r.metadata.reference r.metadata.reference,
    )

-- A reference that nothing had leads to what is put with it.
pub session_id-put :
    (ss : Map Registered) (k : String) (r : Registered)
    → session_id ss r.metadata.reference ≡ none
    → session_id (put ss k r) r.metadata.reference ≡ some (k, r)
session_id-put ss k r fresh = elim (text-cases k r.metadata.reference) [
  | inl same ↦
      session_id-found (put ss k r) _ r
        (ap (lookup (put ss k r)) (sym same) ∙ lookup-put_self ss k r)
      ∙ ap (λ x. some (x, r)) (sym same)
  | inr other ↦
      session_id-free (put ss k r) _
        (lookup-put_other ss k _ r other ∙ (session_id-none ss _ fresh).0)
      ∙ with_reference-put ss k r (session_id-none ss _ fresh).1
]
