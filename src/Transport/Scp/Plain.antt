-- ===== src/Transport/Scp/Plain.antt =====
-- What a name that `ValidFileName` accepts cannot do: it names no other directory.
use channel_term.Prelude.{
  ℕ, ◌≡◌, ◌≢◌, refl, arith, Bool, true, false, ◌&&◌, not, [], ◌∷◌, ◌⊎◌, inl, inr, Bytes, same_bytes,
}
use channel_term.Transport.Scp.Names.{
  valid_file_name, trim_right, are_allowed, has_byte, forbidden, is_device, upper, before_dot,
}
use channel_term.Debugger.Mi.Text.{is_nil}

-- A byte is in a name.
abbrev pub Has : Bytes → ℕ → Type 0
Has [] x = ⊥
Has (c ∷ cs) x = (c ≡ x) ⊎ Has cs x

-- One element of a path: it is not empty, neither `.` nor `..`, and has no slash, no backslash and
-- no NUL.
abbrev pub IsPlain : Bytes → Type 0
IsPlain name =
    (name ≢ [])
    × (name ≢ b'.' ∷ [])
    × (name ≢ b'.' ∷ b'.' ∷ [])
    × ¬ (Has name b'/')
    × ¬ (Has name b'\\')
    × ¬ (Has name 0)

are_allowed-not-Has :
    (name : Bytes) (x : ℕ) → has_byte forbidden x ≡ true → are_allowed name ≡ true → ¬ (Has name x)
unfolding are_allowed
are_allowed-not-Has [] x f h k = k
are_allowed-not-Has (c ∷ cs) x f h (inl e) = absurd (ground arith)
are_allowed-not-Has (c ∷ cs) x f h (inr k) = are_allowed-not-Has cs x f (ground arith) k

conjuncts :
    (a b c d e f : Bool)
    → (a && b && c && d && e && f) ≡ true
    → (a ≡ true) × (b ≡ true) × (c ≡ true) × (e ≡ true)
conjuncts a b c d e f h = ground arith

pub valid_file_name-IsPlain : (name : Bytes) → valid_file_name name ≡ true → IsPlain name
unfolding valid_file_name
valid_file_name-IsPlain name h =
    let (filled, here, above, allowed) =
      conjuncts (not (is_nil name)) (not (same_bytes name (b'.' ∷ [])))
        (not (same_bytes name (b'.' ∷ b'.' ∷ []))) (same_bytes (trim_right name) name)
        (are_allowed name) (not (is_device (upper false (before_dot name)))) h in
    (
      λ e. cc (filled, e),
      λ e. cc (here, e),
      λ e. cc (above, e),
      are_allowed-not-Has name b'/' refl allowed,
      are_allowed-not-Has name b'\\' refl allowed,
      are_allowed-not-Has name 0 refl allowed,
    )
