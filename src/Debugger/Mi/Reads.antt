-- ===== src/Debugger/Mi/Reads.antt =====
-- `Parse` always ends: twice the length of the line is fuel enough. And what it returns is nested at
-- most 65 deep, since `value` refuses a depth above 64.
use channel_term.Prelude.{
  ℕ, suc, zero, ◌+◌, ◌-◌, ◌*◌, ◌≤◌, ◌<◌, ◌≡◌, refl, inl, inr, Option, none, some, [], ◌∷◌, arith,
  length, Bytes,
}
use channel_term.Debugger.Mi.Text.{Parsed, parsed, failed, exhausted, text_body}
use channel_term.Debugger.Mi.Height.{
  height, fields_height, items_height, slots, height-snoc, slots-add_result, fields_height_le,
}
use channel_term.Debugger.Mi.{
  Value, text, tuple, array, Fields, end, Items, nil, value, fields, items, results, key, element,
  opening, Opening, refused, opens_text, opens_tuple, opens_list, parse, parse_stream,
  parse_message, span_digits, span_class, snoc, add_result, labelled,
}
use channel_term.Debugger.Mi.Fuel.{
  Reads, text_body-Ends, take_byte_lt, key_lt, element_le, text-Reads, opening_lt,
}
use channel_term.Debugger.Mi.{Record, prompt, stream, message}

module _ (f d : ℕ) (s : Bytes) where
  -- `value`, when its loops read.
  value_step :
      2 * length s < suc f
      → ((r : Bytes) → length r < length s → d ≤ 64 → Reads (length r) d (fields f d r end))
      → ((r : Bytes) → length r < length s → d ≤ 64 → Reads (length r) d (items f d r nil))
      → (o : Opening) → opening d s ≡ o
      → Reads (length s) d (value (suc f) d s)
  unfolding value height fields_height items_height
  value_step enough fs is refused e = ground arith
  value_step enough fs is (opens_text r) e =
      let (deep, short) = opening_lt d s r (inl (inl e)) in
      ground (
        arith,
        text-Reads (length s) d (text_body (length r) r []) deep,
        text_body-Ends (length r) r [] (omega arith),
      )
  value_step enough fs is (opens_tuple r) e =
      let (deep, short) = opening_lt d s r (inl (inr e)) in
      ground (arith, fs r short deep, take_byte_lt b'}' r)
  value_step enough fs is (opens_list r) e =
      let (deep, short) = opening_lt d s r (inr e) in
      ground (arith, is r short deep, take_byte_lt b']' r)

module _ (f d : ℕ) (s : Bytes) where
  -- A round of the tuple loop, when the value and the next round read.
  fields_step :
      (m : Fields)
      → slots m + d ≤ 64
      → ((r : Bytes) → length r < length s → Reads (length r) (d + 2) (value f (d + 2) r))
      → ((r : Bytes) (m' : Fields)
          → length r < length s
          → slots m' + d ≤ 64
          → Reads (length r) d (fields f d r m'))
      → (o : Option (Bytes × Bytes)) → key s ≡ o
      → Reads (length s) d (fields (suc f) d s m)
  unfolding fields height
  fields_step m room vs fs none e = ground arith
  fields_step m room vs fs (some (k, r)) e = after (value f (d + 2) r) refl (vs r (key_lt s k r e))
    where
      after :
          (p : Parsed Value)
          → value f (d + 2) r ≡ p
          → Reads (length r) (d + 2) p
          → Reads (length s) d (fields (suc f) d s m)
      after (failed x) e' h = ground arith
      after exhausted e' h = ground arith
      after (parsed v []) e' h = ground arith
      after (parsed v (x ∷ xs)) e' h =
          let shorter : length xs < length s = omega (arith, key_lt s k r e, h) in
          let room' : slots (add_result m k v) + d ≤ 64 =
            omega (arith, slots-add_result m k v, room, h) in
          let end_room : height (tuple (add_result m k v)) + d ≤ 65 =
            omega (arith, fields_height_le (add_result m k v), room') in
          ground (arith, fs xs (add_result m k v) shorter room')

module _ (f d : ℕ) (s : Bytes) where
  -- A round of the list loop, when the value and the next round read.
  items_step :
      (a : Items)
      → items_height a + d ≤ 64
      → ((d' : ℕ) (r : Bytes) → length r ≤ length s → Reads (length r) d' (value f d' r))
      → ((r : Bytes) (a' : Items)
          → length r < length s
          → items_height a' + d ≤ 64
          → Reads (length r) d (items f d r a'))
      → (o : Option (Option Bytes × ℕ × Bytes)) → element d s ≡ o
      → Reads (length s) d (items (suc f) d s a)
  unfolding items height
  items_step a room vs is none e = ground arith
  items_step a room vs is (some (k, d', r)) e =
      after (value f d' r) refl (vs d' r (element_le d s k d' r e).0)
    where
      after :
          (p : Parsed Value)
          → value f d' r ≡ p
          → Reads (length r) d' p
          → Reads (length s) d (items (suc f) d s a)
      after (failed x) e' h = ground arith
      after exhausted e' h = ground arith
      after (parsed v []) e' h = ground arith
      after (parsed v (x ∷ xs)) e' h =
          let shorter : length xs < length s = omega (arith, (element_le d s k d' r e).0, h) in
          let low : height (labelled k v) + d + 1 ≤ 65 =
            (element_le d s k d' r e).1 v (omega (arith, h)) in
          let room' : items_height (snoc a (labelled k v)) + d ≤ 64 = omega (
            arith,
            height-snoc a (labelled k v) (64 - d) (omega (arith, room)) (omega (arith, low)),
            low,
          ) in
          ground (arith, is xs (snoc a (labelled k v)) shorter room')

mutual
  unfolding items_height

  value-Reads : (f d : ℕ) (s : Bytes) → 2 * length s < f → Reads (length s) d (value f d s)
  value-Reads zero d s enough = absurd (omega arith)
  value-Reads (suc f) d s enough =
      value_step f d s enough (λ r h deep. fields-Reads f d r end (omega arith) (omega arith))
        (λ r h deep. items-Reads f d r nil (omega arith) (omega arith)) (opening d s) refl

  fields-Reads :
      (f d : ℕ) (s : Bytes) (m : Fields)
      → 2 * length s + 1 < f
      → slots m + d ≤ 64
      → Reads (length s) d (fields f d s m)
  fields-Reads zero d s m enough room = absurd (omega arith)
  fields-Reads (suc f) d s m enough room =
      fields_step f d s m room (λ r h. value-Reads f (d + 2) r (omega arith))
        (λ r m' h room'. fields-Reads f d r m' (omega arith) room') (key s) refl

  items-Reads :
      (f d : ℕ) (s : Bytes) (a : Items)
      → 2 * length s + 1 < f
      → items_height a + d ≤ 64
      → Reads (length s) d (items f d s a)
  items-Reads zero d s a enough room = absurd (omega arith)
  items-Reads (suc f) d s a enough room =
      items_step f d s a room (λ d' r h. value-Reads f d' r (omega arith))
        (λ r a' h room'. items-Reads f d r a' (omega arith) room') (element d s) refl

-- The results of a record have been read, to the end of the line.
abbrev Collects : Parsed Fields → Type 0
Collects (parsed m r) = (r ≡ []) × (slots m ≤ 65)
Collects (failed e) = Unit
Collects exhausted = ⊥

results-Collects :
    (f : ℕ) (s : Bytes) (m : Fields) → length s ≤ f → slots m ≤ 65 → Collects (results f s m)
unfolding results
results-Collects f [] m enough room = (refl, room)
results-Collects zero (c ∷ cs) m enough room = absurd (omega arith)
results-Collects (suc f) (c ∷ cs) m enough room =
    named (λ r m'. results-Collects f r m') (key cs) refl
  where
    after :
        ((r : Bytes) (m' : Fields) → length r ≤ f → slots m' ≤ 65 → Collects (results f r m'))
        → (k r : Bytes) → key cs ≡ some (k, r)
        → (p : Parsed Value) → value (suc (2 * length r)) 1 r ≡ p
        → Reads (length r) 1 p
        → Collects (results (suc f) (c ∷ cs) m)
    after ih k r e (failed x) e' h = ground arith
    after ih k r e exhausted e' h = ground arith
    after ih k r e (parsed v r2) e' h =
        let short : length r2 ≤ f = omega (arith, key_lt cs k r e, h) in
        let room' : slots (add_result m k v) ≤ 65 =
          omega (arith, slots-add_result m k v, room, h) in
        ground (arith, ih r2 (add_result m k v) short room')

    named :
        ((r : Bytes) (m' : Fields) → length r ≤ f → slots m' ≤ 65 → Collects (results f r m'))
        → (o : Option (Bytes × Bytes)) → key cs ≡ o
        → Collects (results (suc f) (c ∷ cs) m)
    named ih none e = ground arith
    named ih (some (k, r)) e =
        after ih k r e (value (suc (2 * length r)) 1 r) refl
          (value-Reads (suc (2 * length r)) 1 r (omega arith))

-- How deep a record is nested.
abbrev pub record_height : Record → ℕ
record_height prompt = 0
record_height (stream token kind b) = 1
record_height (message token kind class_ m) = fields_height m

-- `Parse` has ended; a record is read to the end of the line and nested at most 65 deep.
abbrev pub Parses : Parsed Record → Type 0
Parses (parsed r rest) = (rest ≡ []) × (record_height r ≤ 65)
Parses (failed e) = Unit
Parses exhausted = ⊥

stream-Parses : (token : Bytes) (kind : ℕ) (s : Bytes) → Parses (parse_stream token kind s)
unfolding parse_stream
stream-Parses token kind s =
    read (value (suc (2 * length s)) 0 s) refl (value-Reads _ 0 s (omega arith))
  where
    read :
        (p : Parsed Value)
        → value (suc (2 * length s)) 0 s ≡ p
        → Reads (length s) 0 p
        → Parses (parse_stream token kind s)
    read (failed x) e h = ground arith
    read exhausted e h = ground arith
    read (parsed (text b) []) e h = ground arith
    read (parsed (text b) (c ∷ cs)) e h = ground arith
    read (parsed (tuple m) r) e h = ground arith
    read (parsed (array a) r) e h = ground arith

message-Parses : (token : Bytes) (kind : ℕ) (s : Bytes) → Parses (parse_message token kind s)
unfolding parse_message
message-Parses token kind s =
    read (results (length (span_class s).1) (span_class s).1 end) refl
      (results-Collects (length (span_class s).1) (span_class s).1 end (omega arith) (omega arith))
  where
    read :
        (p : Parsed Fields)
        → results (length (span_class s).1) (span_class s).1 end ≡ p
        → Collects p
        → Parses (parse_message token kind s)
    read (failed x) e h = ground arith
    read exhausted e h = ground arith
    read (parsed m r) e h = ground (arith, fields_height_le m)

-- For every line `Parse` ends with a record or an error: it never runs out of the fuel that the
-- length of the line gives. A record has used the whole line, and is nested at most 65 deep.
pub parse-Parses : (line : Bytes) → Parses (parse line)
unfolding parse
parse-Parses line = read (span_digits line).1 refl
  where
    read : (r : Bytes) → (span_digits line).1 ≡ r → Parses (parse line)
    read [] e = ground arith
    read (kind ∷ s) e = ground (
      arith,
      stream-Parses (span_digits line).0 kind s,
      message-Parses (span_digits line).0 kind s,
    )
