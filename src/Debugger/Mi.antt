-- ===== src/Debugger/Mi.antt =====
-- internal/core/debugger/mi.go: `Parse` and `Quote`. The parser's position `i` in the line is the rest
-- of the line from there. A map is the list of its entries in the order of their first insertion.
pub mod Text
pub mod Quote
pub mod Height
pub mod Fuel
pub mod Reads
mod Tests
use channel_term.Prelude.{
  ◌*◌, ℕ, suc, zero, ◌+◌, Bool, true, false, ◌&&◌, ◌||◌, not, Option, none, some, List, [], ◌∷◌,
  ◌++◌, ltb, leb, ◌==◌, if◌then◌else◌, length, Bytes, same_bytes,
}
use Text.{
  MiError, Parsed, parsed, failed, exhausted, text_body, take_byte, is_digit, bad_result, bad_value,
  bad_tuple, bad_list, missing_kind, not_a_string, empty_class, bad_separator, bad_kind, trailing,
  is_prompt,
}

-- A parsed value: a string, a `map[string]any`, or a `[]any`.
mutual
  pub data Value : Type 0 where
    text : Bytes → Value
    tuple : Fields → Value
    array : Items → Value

  pub data Fields : Type 0 where
    end : Fields
    field : Bytes → Value → Fields → Fields

  pub data Items : Type 0 where
    nil : Items
    cons : Value → Items → Items

abbrev pub snoc : Items → Value → Items
snoc nil v = cons v nil
snoc (cons w ws) v = cons w (snoc ws v)

-- What becomes of the value `old` of a key that comes again with `v`.
abbrev pub joined : Value → Value → Value
joined (array vs) v = array (snoc vs v)
joined old v = array (cons old (cons v nil))

-- `addResult`
unfoldable pub add_result : Fields → Bytes → Value → Fields
add_result end k v = field k v end
add_result (field k' old m) k v =
    let rest = add_result m k v in
    if same_bytes k' k then field k' (joined old v) m else field k' old rest

-- The key characters of `result`.
abbrev pub is_key : ℕ → Bool
is_key c =
    (leb b'a' c && leb c b'z') || (leb b'A' c && leb c b'Z') || is_digit c || c == b'-' || c == b'_'

abbrev pub span_key : Bytes → Bytes × Bytes
span_key [] = ([], [])
span_key (c ∷ cs) = let (k, r) = span_key cs in if is_key c then (c ∷ k, r) else ([], c ∷ cs)

-- `result` up to the call of `value`: the key, and what follows the `=`.
unfoldable pub key : Bytes → Option (Bytes × Bytes)
key s =
    let (k, r) = span_key s in
    elim k [ [] ↦ none | k' ↦ elim (take_byte b'=' r) [ none ↦ none | some r' ↦ some (k', r') ] ]

-- The checks and the switch of `value`.
pub data Opening : Type 0 where
  refused : Opening
  opens_text opens_tuple opens_list : Bytes → Opening

unfoldable pub opening : ℕ → Bytes → Opening
opening depth [] = refused
opening depth (c ∷ cs) =
    if ltb 64 depth
    then refused
    else (if c == b'"'
        then opens_text cs
        else (if c == b'{' then opens_tuple cs else (if c == b'[' then opens_list cs else refused)))

-- Where the value of a list element starts, its depth, and its key, if the element is a result.
abbrev pub starts_value : Bytes → Bool
starts_value [] = false
starts_value (c ∷ cs) = c == b'"' || c == b'{' || c == b'['

unfoldable pub element : ℕ → Bytes → Option (Option Bytes × ℕ × Bytes)
element depth s =
    if starts_value s
    then some (none, depth + 1, s)
    else elim (key s) [ none ↦ none | some (k, r) ↦ some (some k, depth + 2, r) ]

abbrev pub labelled : Option Bytes → Value → Value
labelled none v = v
labelled (some k) v = tuple (field k v end)

abbrev pub as_text : Parsed Bytes → Parsed Value
as_text (parsed b r) = parsed (text b) r
as_text (failed e) = failed e
as_text exhausted = exhausted

-- `value`, and the loops of its tuple and list cases, on fuel.
unfoldable mutual
  pub value : ℕ → ℕ → Bytes → Parsed Value
  value zero depth s = exhausted
  value (suc f) depth s = elim (opening depth s) [
    | refused ↦ failed bad_value
    | opens_text r ↦ as_text (text_body (length r) r [])
    | opens_tuple r ↦ elim (take_byte b'}' r) [
      | some r' ↦ parsed (tuple end) r'
      | none ↦ fields f depth r end
    ]
    | opens_list r ↦ elim (take_byte b']' r) [
      | some r' ↦ parsed (array nil) r'
      | none ↦ items f depth r nil
    ]
  ]

  pub fields : ℕ → ℕ → Bytes → Fields → Parsed Value
  fields zero depth s m = exhausted
  fields (suc f) depth s m = elim (key s) [
    | none ↦ failed bad_result
    | some (k, r) ↦ elim (value f (depth + 2) r) [
      | exhausted ↦ exhausted
      | failed e ↦ failed e
      | parsed v r1 ↦ elim (take_byte b'}' r1) [
        | some r2 ↦ parsed (tuple (add_result m k v)) r2
        | none ↦ elim (take_byte b',' r1) [
          | some r2 ↦ fields f depth r2 (add_result m k v)
          | none ↦ failed bad_tuple
        ]
      ]
    ]
  ]

  pub items : ℕ → ℕ → Bytes → Items → Parsed Value
  items zero depth s a = exhausted
  items (suc f) depth s a = elim (element depth s) [
    | none ↦ failed bad_result
    | some (k, d, r) ↦ elim (value f d r) [
      | exhausted ↦ exhausted
      | failed e ↦ failed e
      | parsed v r1 ↦ elim (take_byte b']' r1) [
        | some r2 ↦ parsed (array (snoc a (labelled k v))) r2
        | none ↦ elim (take_byte b',' r1) [
          | some r2 ↦ items f depth r2 (snoc a (labelled k v))
          | none ↦ failed bad_list
        ]
      ]
    ]
  ]

-- The loop of `Parse` over the results of a record.
unfoldable pub results : ℕ → Bytes → Fields → Parsed Fields
results f [] m = parsed m []
results zero (c ∷ cs) m = exhausted
results (suc f) (c ∷ cs) m = elim (take_byte b',' (c ∷ cs)) [
  | none ↦ failed bad_separator
  | some r ↦ elim (key r) [
    | none ↦ failed bad_result
    | some (k, r1) ↦ elim (value (suc (2 * length r1)) 1 r1) [
      | exhausted ↦ exhausted
      | failed e ↦ failed e
      | parsed v r2 ↦ results f r2 (add_result m k v)
    ]
  ]
]

-- `Record`; a kind is its character, and a prompt has no other part.
pub data Record : Type 0 where
  prompt : Record
  stream : Bytes → ℕ → Bytes → Record
  message : Bytes → ℕ → Bytes → Fields → Record

abbrev pub span_digits : Bytes → Bytes × Bytes
span_digits [] = ([], [])
span_digits (c ∷ cs) =
    let (d, r) = span_digits cs in if is_digit c then (c ∷ d, r) else ([], c ∷ cs)

abbrev pub span_class : Bytes → Bytes × Bytes
span_class [] = ([], [])
span_class (c ∷ cs) = let (k, r) = span_class cs in if c == b',' then ([], c ∷ cs) else (c ∷ k, r)

abbrev pub is_stream : ℕ → Bool
is_stream c = c == b'~' || c == b'@' || c == b'&'

abbrev pub is_message : ℕ → Bool
is_message c = c == b'^' || c == b'*' || c == b'+' || c == b'='

-- The case of a stream record, behind its kind.
unfoldable pub parse_stream : Bytes → ℕ → Bytes → Parsed Record
parse_stream token kind s = elim (value (suc (2 * length s)) 0 s) [
  | exhausted ↦ exhausted
  | failed e ↦ failed e
  | parsed (text b) [] ↦ parsed (stream token kind b) []
  | parsed (text b) (c ∷ cs) ↦ failed trailing
  | parsed v r ↦ failed not_a_string
]

-- The case of a result or asynchronous record, behind its kind.
unfoldable pub parse_message : Bytes → ℕ → Bytes → Parsed Record
parse_message token kind s =
    let (class_, r) = span_class s in
    elim class_ [
      | [] ↦ failed empty_class
      | class' ↦ elim (results (length r) r end) [
        | exhausted ↦ exhausted
        | failed e ↦ failed e
        | parsed m r' ↦ parsed (message token kind class' m) r'
      ]
    ]

-- `Parse`
unfoldable pub parse : Bytes → Parsed Record
parse line =
    if is_prompt line
    then parsed prompt []
    else let (token, r) = span_digits line in
      elim r [
        | [] ↦ failed missing_kind
        | kind ∷ s ↦
            if is_stream kind
            then parse_stream token kind s
            else (if is_message kind then parse_message token kind s else failed bad_kind)
      ]
