-- ===== src/ConnectionPolicy.antt =====
-- internal/core/connectionpolicy/policy.go: what a client does with a discovered device. `Parse` and
-- `FromConfig` read a policy from its text; `strings.ToLower` is modelled for the letters of ASCII
-- and for the two other characters that it turns into one of them.
mod Tests
use Prim.Native.String.{String}
use Prim.Native.Char.{code}
use channel_term.Prelude.{
  same_bytes, same_bytes_iff, ℕ, ◌+◌, ◌≡◌, ◌≢◌, ◌↔◌, refl, Bool, true, false, ◌&&◌, ◌||◌, not,
  Option, none, some, List, [], ◌∷◌, leb, ◌==◌, if◌then◌else◌, ap, arith,
}
use channel_term.Lease.Text.{is_empty, trim_space}

-- `Policy`: the three names, and any other string.
pub data Policy : Type 0 where
  ask auto deny : Policy
  unnamed : String → Policy

-- `Action`
pub data Action : Type 0 where
  no_action ask_user connect ignore : Action

-- `Default`
abbrev pub default_policy : Policy
default_policy = ask

-- The text of the constants.
abbrev pub name : Policy → String
name ask = "ask"
name auto = "auto"
name deny = "deny"
name (unnamed s) = s

abbrev pub lower : ℕ → ℕ
lower c =
    if leb 65 c && leb c 90
    then c + 32
    else (if c == 8490 then 107 else (if c == 304 then 105 else c))

pub lowered : String → List ℕ
lowered String.[] = []
lowered (String.◌∷◌ c s) = lower (code c) ∷ lowered s

-- `Parse`; the error is `none`.
pub parse : String → Option Policy
parse value =
    let text = lowered (trim_space value) in
    if same_bytes text (lowered "ask")
    then some ask
    else (if same_bytes text (lowered "auto")
        then some auto
        else (if same_bytes text (lowered "deny") then some deny else none))

-- `FromConfig`
pub from_config : String → Option Policy
from_config value = if is_empty (trim_space value) then some default_policy else parse value

-- `Decide`
pub decide : Policy → Bool → Bool → Action
decide policy present connected =
    if not present || connected
    then no_action
    else elim policy [ auto ↦ connect | deny ↦ ignore | _ ↦ ask_user ]

-- Whether a policy is one of the three that have a name.
abbrev pub is_named : Policy → Bool
is_named (unnamed s) = false
is_named _ = true

-- `Parse` gives one of the three policies exactly for its name, in any case and with any white space
-- around it.
pub parse_iff :
    (value : String) (p : Policy)
    → is_named p ≡ true
    → (parse value ≡ some p) ↔ (lowered (trim_space value) ≡ lowered (name p))
unfolding parse lowered
parse_iff value ask h = ground (arith, same_bytes_iff (lowered (trim_space value)) (lowered "ask"))
parse_iff value auto h = ground (
  arith,
  same_bytes_iff (lowered (trim_space value)) (lowered "ask"),
  same_bytes_iff (lowered (trim_space value)) (lowered "auto"),
)
parse_iff value deny h = ground (
  arith,
  same_bytes_iff (lowered (trim_space value)) (lowered "ask"),
  same_bytes_iff (lowered (trim_space value)) (lowered "auto"),
  same_bytes_iff (lowered (trim_space value)) (lowered "deny"),
)
parse_iff value (unnamed s) h = ground arith

lowered_empty : (s : String) → is_empty s ≡ true → lowered s ≡ []
unfolding is_empty lowered
lowered_empty String.[] h = refl
lowered_empty (String.◌∷◌ c s) h = ground arith

parse_auto :
    (value : String) → (parse value ≡ some auto) ↔ (lowered (trim_space value) ≡ lowered "auto")
parse_auto value = parse_iff value auto refl

from_config_auto :
    (value : String) (p : Policy)
    → from_config value ≡ some p
    → (p ≡ auto) ↔ (lowered (trim_space value) ≡ lowered "auto")
unfolding from_config lowered
from_config_auto value p h = ground (arith, parse_auto value, lowered_empty (trim_space value))

-- For every text of the configuration that is accepted: a discovered device is opened without asking
-- exactly if it is present, has no active Session, and the text is the name `auto` in any case and
-- with any white space around it.
pub opened_iff :
    (value : String) (p : Policy) (present connected : Bool)
    → from_config value ≡ some p
    → (decide p present connected ≡ connect)
      ↔ ((present ≡ true) × (connected ≡ false) × (lowered (trim_space value) ≡ lowered "auto"))
unfolding from_config decide
opened_iff value p present connected h = ground (arith, from_config_auto value p h)
