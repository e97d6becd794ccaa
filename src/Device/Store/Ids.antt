-- ===== src/Device/Store/Ids.antt =====
-- The IDs of the records and of the runtime identities, and what allocation, a new record and an
-- updated one do to them.
use Prim.Native.String.{String}
use channel_term.Prelude.{
  ap, ℕ, suc, zero, ◌+◌, ◌≡◌, ◌≢◌, refl, true, false, ◌||◌, Option, some, List, [], ◌∷◌, ◌++◌,
  arith, set, get_elem?, Bool-cases, Map, lookup, inl, inr,
}
use text.Mathlib.Text.{◌==◌ as str_eq}
use text.Mathlib.TextEquality.{eq_iff}
use channel_term.Device.Store.{
  Evidence, Endpoint, Method, Identity, StateDevice, Store, device_has_id, runtime_has_id, matches,
  is_match, update_record,
}
use channel_term.Device.Store.Resolve.{allocate_id}

-- No two records have one ID.
abbrev pub Unique : List StateDevice → Type 0
Unique [] = Unit
Unique (d ∷ ds) = (device_has_id ds d.device_id ≡ false) × Unique ds

pub device_has_id-append :
    (ds : List StateDevice) (d : StateDevice) (id : String)
    → device_has_id (ds ++ d ∷ []) id ≡ (device_has_id ds id || str_eq d.device_id id)
unfolding device_has_id
device_has_id-append [] d id = ground arith
device_has_id-append (x ∷ ds) d id = ground (arith, device_has_id-append ds d id)

pub append-Unique :
    (ds : List StateDevice) (d : StateDevice)
    → Unique ds
    → device_has_id ds d.device_id ≡ false
    → Unique (ds ++ d ∷ [])
unfolding device_has_id
append-Unique [] d u h = (refl, tt)
append-Unique (x ∷ ds) d u h = (
  ground (
    arith,
    device_has_id-append ds d x.device_id,
    eq_iff d.device_id x.device_id,
    eq_iff x.device_id d.device_id,
  ),
  append-Unique ds d u.1 (ground arith),
)

pub device_has_id-set :
    (ds : List StateDevice) (i : ℕ) (d d' : StateDevice) (id : String)
    → get_elem? ds i ≡ some d
    → d'.device_id ≡ d.device_id
    → device_has_id (set ds i d') id ≡ device_has_id ds id
unfolding device_has_id
device_has_id-set [] i d d' id h e = refl
device_has_id-set (x ∷ ds) zero d d' id h e = ground arith
device_has_id-set (x ∷ ds) (suc i) d d' id h e = ground (arith, device_has_id-set ds i d d' id h e)

pub set-Unique :
    (ds : List StateDevice) (i : ℕ) (d d' : StateDevice)
    → get_elem? ds i ≡ some d
    → d'.device_id ≡ d.device_id
    → Unique ds
    → Unique (set ds i d')
set-Unique [] i d d' h e u = u
set-Unique (x ∷ ds) zero d d' h e u = ground arith
set-Unique (x ∷ ds) (suc i) d d' h e u =
    ground (arith, set-Unique ds i d d' h e u.1, device_has_id-set ds i d d' x.device_id h e)

pub device_has_id-get :
    (ds : List StateDevice) (i : ℕ) (d : StateDevice)
    → get_elem? ds i ≡ some d
    → device_has_id ds d.device_id ≡ true
unfolding device_has_id
device_has_id-get [] i d h = ground arith
device_has_id-get (x ∷ ds) zero d h = ground (arith, eq_iff x.device_id d.device_id)
device_has_id-get (x ∷ ds) (suc i) d h = ground (arith, device_has_id-get ds i d h)

-- A single match is the record at its index.
pub matches-get :
    (ds : List StateDevice) (k : ℕ) (transport : String) (method : Method) (e : Evidence) (i : ℕ)
    (d : StateDevice)
    → matches ds k transport method e ≡ (i, d) ∷ []
    → (j : ℕ) × (i ≡ k + j) × (get_elem? ds j ≡ some d)
unfolding matches
matches-get [] k transport method e i d h = ground arith
matches-get (x ∷ ds) k transport method e i d h =
    elim (Bool-cases (is_match transport method e x)) [
      | inl matching ↦ (0, ground arith, ground arith)
      | inr other ↦
          let (j, at, found) = matches-get ds (suc k) transport method e i d (ground arith) in
          (suc j, omega (arith, at), found)
    ]

pub update_record-id :
    (d : StateDevice) (e : Endpoint) (evidence : Evidence) (now : ℕ)
    → (update_record d e evidence now).0.device_id ≡ d.device_id
unfolding update_record
update_record-id d e evidence now = ground arith

pub runtime_has_id-lookup :
    (m : Map Identity) (k id : String) (i : Identity)
    → runtime_has_id m id ≡ false
    → lookup m k ≡ some i
    → i.device_id ≢ id
unfolding runtime_has_id lookup
runtime_has_id-lookup [] k id i h e = ground arith
runtime_has_id-lookup ((j, x) ∷ m) k id i h e =
    ground (arith, runtime_has_id-lookup m k id i, eq_iff x.device_id id)

-- Allocation changes only the count of draws.
pub allocate_id-frame :
    (tries : ℕ) (drawn : ℕ → Option String) (s : Store)
    → let s' = (allocate_id tries drawn s).0 in
      (s'.devices ≡ s.devices) × (s'.runtime ≡ s.runtime) × (s'.file ≡ s.file)
unfolding allocate_id
allocate_id-frame zero drawn s = (refl, refl, refl)
allocate_id-frame (suc n) drawn s =
    ground (arith, allocate_id-frame n drawn (record s { draws = s.draws + 1 }))

-- An allocated ID is that of no record and of no runtime identity.
pub allocate_id-fresh :
    (tries : ℕ) (drawn : ℕ → Option String) (s : Store) (id : String)
    → (allocate_id tries drawn s).1 ≡ some id
    → (device_has_id s.devices id ≡ false) × (runtime_has_id s.runtime id ≡ false)
unfolding allocate_id
allocate_id-fresh zero drawn s id h = ground arith
allocate_id-fresh (suc n) drawn s id h =
    ground (arith, allocate_id-fresh n drawn (record s { draws = s.draws + 1 }) id)

pub update_record-same :
    (d : StateDevice) (e : Endpoint) (evidence : Evidence) (now : ℕ)
    → (update_record d e evidence now).1 ≡ false
    → (update_record d e evidence now).0 ≡ d
unfolding update_record
update_record-same d e evidence now h = ground arith

-- Writing what is there changes nothing.
pub set_same :
    {A : Type 0} (xs : List A) (i : ℕ) (x : A) → get_elem? xs i ≡ some x → set xs i x ≡ xs
set_same [] i x h = refl
set_same (y ∷ ys) zero x h = cc h
set_same (y ∷ ys) (suc i) x h = ap (◌∷◌ y) (set_same ys i x h)
