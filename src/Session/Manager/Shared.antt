-- ===== src/Session/Manager/Shared.antt =====
-- The openings of `GetOrCreate`: while one is under way nobody opens its endpoint again, and all who
-- joined it get what its owner got.
use mathlib.Core.Path.{subst⁻¹}
use Prim.Native.String.{String}
use channel_term.Prelude.{
  ℕ, suc, ◌≤◌, ◌<◌, ◌≡◌, ◌≢◌, refl, sym, ap, ◌∙◌, arith, Bool, true, false, not, List, [], ◌∷◌,
  Option, none, some, ◌⊎◌, inl, inr, Map, lookup, put, erase, lookup-put_cases, lookup-put_other,
  lookup-erase-some, lookup-erase_other, lookup-erase_self, text-cases, if◌then◌else◌,
}
use channel_term.Session.Lifecycle.{State}
use channel_term.Session.Manager.Names.{CaseTables, session_endpoint_key}
use channel_term.Session.Manager.{
  nil_create, manager_closed, Metadata, Info, ManagerError, Outcome, Manager, new,
}
use channel_term.Session.Manager.Openings.{
  is_opens, join_or_open, use_or_open, refused, active_session, get_or_create_begin, outcome, join,
  by_opening,
}
use channel_term.Session.Manager.Steps.{Reach, start, next}
use channel_term.Session.Manager.Changes.{OpeningChange, quiet, begun, ended, step-Change}

-- Of the openings, what has ended, and the number of the next.
record Fenced (os : Map ℕ) (fs : List (ℕ × Outcome)) (created : ℕ) : Type 0 where
  below : (key : String) (n : ℕ) → lookup os key ≡ some n → n < created
  one : (j k : String) (n : ℕ) → lookup os j ≡ some n → lookup os k ≡ some n → j ≡ k
  pending : (key : String) (n : ℕ) → lookup os key ≡ some n → outcome fs n ≡ none
  fresh : (n : ℕ) → created ≤ n → outcome fs n ≡ none

begun-Fenced :
    (os : Map ℕ) (fs : List (ℕ × Outcome)) (created : ℕ) (key : String)
    → Fenced os fs created
    → Fenced (put os key created) fs (suc created)
begun-Fenced os fs created key fenced = record {
  below = λ k n e. elim (lookup-put_cases os key k created n e) [
    | inl (_, new) ↦ omega arith
    | inr old ↦ omega (arith, fenced.below k n old)
  ];
  one = λ j k n e f. elim (lookup-put_cases os key j created n e) [
    | inl (here, new) ↦ elim (lookup-put_cases os key k created n f) [
      | inl (there, _) ↦ sym here ∙ there
      | inr old ↦ absurd (omega (arith, fenced.below k n old))
    ]
    | inr old ↦ elim (lookup-put_cases os key k created n f) [
      | inl (_, new) ↦ absurd (omega (arith, fenced.below j n old))
      | inr older ↦ fenced.one j k n old older
    ]
  ];
  pending = λ k n e. elim (lookup-put_cases os key k created n e) [
    | inl (_, new) ↦ fenced.fresh n (omega arith)
    | inr old ↦ fenced.pending k n old
  ];
  fresh = λ n h. fenced.fresh n (omega arith);
}

outcome-other :
    (fs : List (ℕ × Outcome)) (i n : ℕ) (o : Outcome)
    → i ≢ n
    → outcome ((i, o) ∷ fs) n ≡ outcome fs n
unfolding outcome
outcome-other fs i n o h = ground arith

outcome_self : (fs : List (ℕ × Outcome)) (n : ℕ) (o : Outcome) → outcome ((n, o) ∷ fs) n ≡ some o
unfolding outcome
outcome_self fs n o = ground arith

ended-Fenced :
    (os : Map ℕ) (fs : List (ℕ × Outcome)) (created : ℕ) (key : String) (n : ℕ) (o : Outcome)
    → lookup os key ≡ some n
    → Fenced os fs created
    → Fenced (erase os key) ((n, o) ∷ fs) created
ended-Fenced os fs created key n o at fenced = record {
  below = λ k i e. fenced.below k i (lookup-erase-some os key k i e);
  one = λ j k i e f.
      fenced.one j k i (lookup-erase-some os key j i e) (lookup-erase-some os key k i f);
  pending = λ k i e.
      outcome-other fs n i o (λ same. absurd (gone k i e same))
      ∙ fenced.pending k i (lookup-erase-some os key k i e);
  fresh = λ i h.
      outcome-other fs n i o (λ same. absurd (omega (arith, fenced.below key n at)))
      ∙ fenced.fresh i h;
}
  where
    gone : (k : String) (i : ℕ) → lookup (erase os key) k ≡ some i → n ≢ i
    gone k i e same =
        let here = fenced.one key k i (at ∙ ap some same) (lookup-erase-some os key k i e) in
        absurd (ground (arith, lookup-erase_self os key, here, e))

abbrev Fences : Manager → Type 0
Fences m = Fenced m.openings m.finished m.created

moved :
    (os os' : Map ℕ) (fs fs' : List (ℕ × Outcome)) (c c' : ℕ)
    → os' ≡ os
    → fs' ≡ fs
    → c' ≡ c
    → Fenced os fs c
    → Fenced os' fs' c'
moved os os' fs fs' c c' e f g fenced =
    subst⁻¹ (λ x. Fenced x fs' c') e
      (subst⁻¹ (λ y. Fenced os y c') f (subst⁻¹ (λ z. Fenced os fs z) g fenced))

opening-Fences : (m m' : Manager) → OpeningChange m m' → Fences m → Fences m'
opening-Fences m m' (quiet e f g) fenced = moved _ _ _ _ _ _ e f g fenced
opening-Fences m m' (begun key _ e f g) fenced =
    moved _ _ _ _ _ _ e f g (begun-Fenced m.openings m.finished m.created key fenced)
opening-Fences m m' (ended key n o at e f g) fenced =
    moved _ _ _ _ _ _ e f g (ended-Fenced m.openings m.finished m.created key n o at fenced)

none-Fenced : Fenced [] [] 0
unfolding outcome lookup
none-Fenced = record {
  below = λ k n e. absurd (ground arith);
  one = λ j k n e f. absurd (ground arith);
  pending = λ k n e. refl;
  fresh = λ n h. refl;
}

-- The same opening still under way, or over.
abbrev Stage : Manager → String → ℕ → Type 0
Stage m key n =
    ((lookup m.openings key ≡ some n) × (outcome m.finished n ≡ none))
    ⊎ ((o : Outcome) × (outcome m.finished n ≡ some o))

over-opening :
    (m m' : Manager) (n : ℕ) (o : Outcome)
    → Fences m
    → OpeningChange m m'
    → outcome m.finished n ≡ some o
    → outcome m'.finished n ≡ some o
over-opening m m' n o fenced (quiet e f g) h = ap (λ fs. outcome fs n) f ∙ h
over-opening m m' n o fenced (begun key _ e f g) h = ap (λ fs. outcome fs n) f ∙ h
over-opening m m' n o fenced (ended key i p at e f g) h =
    ap (λ fs. outcome fs n) f ∙ outcome-other m.finished i n p ended_other ∙ h
  where
    ended_other : i ≢ n
    ended_other same =
        absurd (ground (arith, fenced.pending key i at, ap (outcome m.finished) same, h))

Stage-opening :
    (m m' : Manager) (key : String) (n : ℕ)
    → Fences m
    → OpeningChange m m'
    → Stage m key n
    → Stage m' key n
Stage-opening m m' key n fenced op (inr (o, h)) = inr (o, over-opening m m' n o fenced op h)
Stage-opening m m' key n fenced (quiet e f g) (inl (at, h)) =
    inl (ap (λ os. lookup os key) e ∙ at, ap (λ fs. outcome fs n) f ∙ h)
Stage-opening m m' key n fenced (begun k free e f g) (inl (at, h)) = inl (
  ap (λ os. lookup os key) e ∙ lookup-put_other m.openings k key m.created other ∙ at,
  ap (λ fs. outcome fs n) f ∙ h,
)
  where
    other : k ≢ key
    other same = absurd (ground (arith, free, ap (lookup m.openings) same, at))
Stage-opening m m' key n fenced (ended k i o there e f g) (inl (at, h)) = elim (text-cases k key) [
  | inl same ↦ inr (
    o,
    ap (λ fs. outcome fs n) f ∙ ap (outcome _) (sym (numbered same)) ∙ outcome_self m.finished i o,
  )
  | inr other ↦ inl (
    ap (λ os. lookup os key) e ∙ lookup-erase_other m.openings k key other ∙ at,
    ap (λ fs. outcome fs n) f
        ∙ outcome-other m.finished i n o
            (λ same. other (fenced.one k key n (there ∙ ap some same) at))
        ∙ h,
  )
]
  where
    numbered : k ≡ key → i ≡ n
    numbered same = ground (arith, there, ap (lookup m.openings) same, at)

Fences-Reach : (u : CaseTables) (m m' : Manager) → Fences m → Reach u m m' → Fences m'
Fences-Reach u m _ fenced start = fenced
Fences-Reach u m m'' fenced (next {m = m'} r s) =
    opening-Fences m' m'' (step-Change u m' m'' s).1 (Fences-Reach u m m' fenced r)

Stage-Reach :
    (u : CaseTables) (m m' : Manager) (key : String) (n : ℕ)
    → Fences m
    → Reach u m m'
    → Stage m key n
    → Fences m' × Stage m' key n
Stage-Reach u m _ key n fenced start stage = (fenced, stage)
Stage-Reach u m m'' key n fenced (next {m = m'} r s) stage =
    let (fenced', stage') = Stage-Reach u m m' key n fenced r stage in
    let op = (step-Change u m' m'' s).1 in
    (opening-Fences m' m'' op fenced', Stage-opening m' m'' key n fenced' op stage')

over-Reach :
    (u : CaseTables) (m m' : Manager) (n : ℕ) (o : Outcome)
    → Fences m
    → Reach u m m'
    → outcome m.finished n ≡ some o
    → outcome m'.finished n ≡ some o
over-Reach u m _ n o fenced start h = h
over-Reach u m m'' n o fenced (next {m = m'} r s) h =
    over-opening m' m'' n o (Fences-Reach u m m' fenced r) (step-Change u m' m'' s).1
      (over-Reach u m m' n o fenced r h)

-- Nobody opens an endpoint whose opening is under way.
begin-shared :
    (states : ℕ → State) (m : Manager) (cancelled : Option ManagerError) (has_create : Bool)
    (metadata : Metadata) (n : ℕ)
    → lookup m.openings (session_endpoint_key metadata.transport metadata.endpoint) ≡ some n
    → is_opens (get_or_create_begin states m cancelled has_create metadata).1 ≡ false
unfolding get_or_create_begin
begin-shared states m (some e) has_create metadata n h = refl
begin-shared states m none has_create metadata n h = finds has_create m.closed
  where
    key : String
    key = session_endpoint_key metadata.transport metadata.endpoint

    uses : (o : Option Info) → is_opens (use_or_open m key o).1 ≡ false
    uses (some i) = refl
    uses none = ap (λ x. is_opens (join_or_open m key x).1) h

    finds :
        (has_create closed : Bool)
        → is_opens
            (if not has_create
              then (m, refused nil_create)
              else (if closed
                  then (m, refused manager_closed)
                  else use_or_open m key
                      (active_session states m.sessions metadata.transport metadata.endpoint))).1
          ≡ false
    finds false closed = refl
    finds true true = refl
    finds true false = uses (active_session states m.sessions metadata.transport metadata.endpoint)

-- Let an opening be under way in a state that a new Manager reaches. In every later state either it
-- is still under way, those who joined it wait for it, and no caller of `GetOrCreate` for that
-- endpoint opens it a second time, or it is over, and those who joined it get one result, in that
-- state and in every state after it.
pub opening_shared :
    (u : CaseTables) (m m' m'' : Manager) (metadata : Metadata) (n : ℕ) (states : ℕ → State)
    (cancelled : Option ManagerError) (has_create : Bool)
    → Reach u new m
    → lookup m.openings (session_endpoint_key metadata.transport metadata.endpoint) ≡ some n
    → Reach u m m'
    → Reach u m' m''
    → ((join m' n by_opening ≡ none)
        × (is_opens (get_or_create_begin states m' cancelled has_create metadata).1 ≡ false))
      ⊎ ((o : Outcome) × (join m' n by_opening ≡ some o) × (join m'' n by_opening ≡ some o))
unfolding join
opening_shared u m m' m'' metadata n states cancelled has_create r at r' r'' =
    let fenced = Fences-Reach u new m none-Fenced r in
    let key = session_endpoint_key metadata.transport metadata.endpoint in
    let (fenced', stage) = Stage-Reach u m m' key n fenced r' (inl (at, fenced.pending key n at)) in
    elim stage [
      | inl (at', h) ↦ inl (h, begin-shared states m' cancelled has_create metadata n at')
      | inr (o, h) ↦ inr (o, h, over-Reach u m' m'' n o fenced' r'' h)
    ]
