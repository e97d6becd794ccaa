-- ===== src/Session/Events/Copy.antt =====
-- Event metadata, and its deep copy (`cloneEventMetadata`, `cloneEventValue`).
use Prim.Native.String.{String}
use channel_term.Prelude.{ℕ, List, ◌≡◌, refl, ap}

-- A `map[string]any` is nil or has entries. A value is a map, a `[]any`, a `[]string`, or a scalar,
-- which is only passed on. Entries stand in the order of one traversal.
mutual
  pub data Metadata : Type 0 where
    nil_map : Metadata
    map_of : Entries → Metadata

  pub data Entries : Type 0 where
    end : Entries
    field : String → Value → Entries → Entries

  pub data Value : Type 0 where
    scalar : ℕ → Value
    texts : List String → Value
    array : Items → Value
    object : Metadata → Value

  pub data Items : Type 0 where
    nil : Items
    cons : Value → Items → Items

unfoldable mutual
  -- `cloneEventMetadata`: a map without entries becomes nil.
  pub clone_metadata : Metadata → Metadata
  clone_metadata nil_map = nil_map
  clone_metadata (map_of end) = nil_map
  clone_metadata (map_of (field k v es)) = map_of (field k (clone_value v) (clone_entries es))

  pub clone_entries : Entries → Entries
  clone_entries end = end
  clone_entries (field k v es) = field k (clone_value v) (clone_entries es)

  -- `cloneEventValue`
  pub clone_value : Value → Value
  clone_value (scalar n) = scalar n
  clone_value (texts ts) = texts ts
  clone_value (array xs) = array (clone_items xs)
  clone_value (object m) = object (clone_metadata m)

  pub clone_items : Items → Items
  clone_items nil = nil
  clone_items (cons v vs) = cons (clone_value v) (clone_items vs)

-- `n` is a copy of `m`: the same keys and values at every depth, but nil for a map without entries.
mutual
  pub data IsCopy : Metadata → Metadata → Type 0 where
    nil_copied : IsCopy nil_map nil_map
    empty_copied : IsCopy (map_of end) nil_map
    map_copied :
        (k : String) (v w : Value) (es fs : Entries)
        → AreCopied (field k v es) (field k w fs)
        → IsCopy (map_of (field k v es)) (map_of (field k w fs))

  pub data AreCopied : Entries → Entries → Type 0 where
    end_copied : AreCopied end end
    field_copied :
        (k : String) (v w : Value) (es fs : Entries)
        → IsCopied v w
        → AreCopied es fs
        → AreCopied (field k v es) (field k w fs)

  pub data IsCopied : Value → Value → Type 0 where
    scalar_copied : (n : ℕ) → IsCopied (scalar n) (scalar n)
    texts_copied : (ts : List String) → IsCopied (texts ts) (texts ts)
    array_copied : (xs ys : Items) → ItemsCopied xs ys → IsCopied (array xs) (array ys)
    object_copied : (m n : Metadata) → IsCopy m n → IsCopied (object m) (object n)

  pub data ItemsCopied : Items → Items → Type 0 where
    no_items : ItemsCopied nil nil
    item_copied :
        (v w : Value) (vs ws : Items)
        → IsCopied v w
        → ItemsCopied vs ws
        → ItemsCopied (cons v vs) (cons w ws)

mutual
  unfolding clone_metadata clone_entries clone_value clone_items

  pub clone_metadata-IsCopy : (m : Metadata) → IsCopy m (clone_metadata m)
  clone_metadata-IsCopy nil_map = nil_copied
  clone_metadata-IsCopy (map_of end) = empty_copied
  clone_metadata-IsCopy (map_of (field k v es)) =
      map_copied k v (clone_value v) es (clone_entries es) (
        field_copied k v (clone_value v) es (clone_entries es) (value-IsCopied v)
          (entries-AreCopied es))

  entries-AreCopied : (es : Entries) → AreCopied es (clone_entries es)
  entries-AreCopied end = end_copied
  entries-AreCopied (field k v es) =
      field_copied k v (clone_value v) es (clone_entries es) (value-IsCopied v)
        (entries-AreCopied es)

  value-IsCopied : (v : Value) → IsCopied v (clone_value v)
  value-IsCopied (scalar n) = scalar_copied n
  value-IsCopied (texts ts) = texts_copied ts
  value-IsCopied (array xs) = array_copied xs (clone_items xs) (items-ItemsCopied xs)
  value-IsCopied (object m) = object_copied m (clone_metadata m) (clone_metadata-IsCopy m)

  items-ItemsCopied : (vs : Items) → ItemsCopied vs (clone_items vs)
  items-ItemsCopied nil = no_items
  items-ItemsCopied (cons v vs) =
      item_copied v (clone_value v) vs (clone_items vs) (value-IsCopied v) (items-ItemsCopied vs)

-- A copy of a copy is the copy.
mutual
  unfolding clone_metadata clone_entries clone_value clone_items

  metadata_twice : (m : Metadata) → clone_metadata (clone_metadata m) ≡ clone_metadata m
  metadata_twice nil_map = refl
  metadata_twice (map_of end) = refl
  metadata_twice (map_of (field k v es)) = cc (value_twice v, entries_twice es)

  entries_twice : (es : Entries) → clone_entries (clone_entries es) ≡ clone_entries es
  entries_twice end = refl
  entries_twice (field k v es) = cc (value_twice v, entries_twice es)

  value_twice : (v : Value) → clone_value (clone_value v) ≡ clone_value v
  value_twice (scalar n) = refl
  value_twice (texts ts) = refl
  value_twice (array xs) = ap array (items_twice xs)
  value_twice (object m) = ap object (metadata_twice m)

  items_twice : (vs : Items) → clone_items (clone_items vs) ≡ clone_items vs
  items_twice nil = refl
  items_twice (cons v vs) = cc (value_twice v, items_twice vs)

pub clone_metadata_idem : (m : Metadata) → clone_metadata (clone_metadata m) ≡ clone_metadata m
clone_metadata_idem m = metadata_twice m
