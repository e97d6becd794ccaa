-- ===== src/Debugger/Mi/Height.antt =====
-- How deep a value is nested, and what `addResult` makes of that.
use Prim.Native.Nat.{max}
use channel_term.Prelude.{ℕ, suc, ◌≤◌, ◌≡◌, arith, Bytes, Option, none, some}
use channel_term.Debugger.Mi.{
  Value, text, tuple, array, Fields, end, field, Items, nil, cons, snoc, joined, add_result,
  labelled,
}

-- A string is one deep; a tuple or a list is one deeper than the deepest of its values.
unfoldable mutual
  pub height : Value → ℕ
  height (text b) = 1
  height (tuple m) = suc (fields_height m)
  height (array vs) = suc (items_height vs)

  pub fields_height : Fields → ℕ
  fields_height end = 0
  fields_height (field k v m) = max (height v) (fields_height m)

  pub items_height : Items → ℕ
  items_height nil = 0
  items_height (cons v vs) = max (height v) (items_height vs)

-- The same, with one to spare for a value that a second one of its key makes a list of.
abbrev slot : Value → ℕ
slot (array vs) = height (array vs)
slot v = suc (height v)

abbrev pub slots : Fields → ℕ
slots end = 0
slots (field k v m) = max (slot v) (slots m)

items_height-snoc :
    (vs : Items) (v : Value) → items_height (snoc vs v) ≡ max (items_height vs) (height v)
unfolding items_height
items_height-snoc nil v = omega arith
items_height-snoc (cons w ws) v = omega (arith, items_height-snoc ws v)

pub height-snoc :
    (vs : Items) (v : Value) (n : ℕ)
    → items_height vs ≤ n
    → height v ≤ n
    → items_height (snoc vs v) ≤ n
height-snoc vs v n h k = omega (arith, items_height-snoc vs v)

height_pos : (v : Value) → 1 ≤ height v
unfolding height
height_pos (text b) = omega arith
height_pos (tuple m) = omega arith
height_pos (array vs) = omega arith

slot_le : (v : Value) → (slot v ≤ suc (height v)) × (height v ≤ slot v)
slot_le (text b) = omega arith
slot_le (tuple m) = omega arith
slot_le (array vs) = omega arith

slot-joined : (old v : Value) → slot (joined old v) ≤ max (slot old) (suc (height v))
unfolding height items_height
slot-joined (text b) v = omega (arith, height_pos v)
slot-joined (tuple m) v = omega arith
slot-joined (array vs) v = omega (arith, items_height-snoc vs v)

pub slots-add_result :
    (m : Fields) (k : Bytes) (v : Value) → slots (add_result m k v) ≤ max (slots m) (suc (height v))
unfolding add_result
slots-add_result end k v = omega (arith, slot_le v)
slots-add_result (field k' old m) k v = ground (arith, slots-add_result m k v, slot-joined old v)

pub fields_height_le : (m : Fields) → fields_height m ≤ slots m
unfolding fields_height
fields_height_le end = omega arith
fields_height_le (field k v m) = omega (arith, fields_height_le m, slot_le v)

pub height-labelled : (k : Option Bytes) (v : Value) → height (labelled k v) ≤ suc (height v)
unfolding height fields_height
height-labelled none v = omega arith
height-labelled (some k) v = omega arith
