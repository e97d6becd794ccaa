-- ===== src/Transport/Scp/Admits.antt =====
-- What follows the header of a record: one round of `receiveSCP` delivers the entry.
use channel_term.Prelude.{
  ℕ, zero, suc, ◌≤◌, ◌<◌, ◌≡◌, refl, ap, ◌∙◌, arith, true, false, ◌&&◌, ◌||◌, some, List, [], ◌∷◌,
  ◌++◌, ◌==◌, leb, if◌then◌else◌, length, take, drop, Bytes,
}
use channel_term.Transport.Scp.Names.{is_one_of}
use channel_term.Transport.Scp.Records.{
  line_within, write_failed, verify_failed, short_payload, over_limit, acked, scp_ack,
}
use channel_term.Transport.Scp.Receive.{
  Entry, Client, Transfer, Turn, goes, fails, then_ok, count_file, finish_file, take_payload,
  deliver, receive_file, receive_dir, enter_dir, entry_at, admit, receive_record, round,
  max_entries, max_depth,
}
use channel_term.Transport.Scp.Contained.{paths}
use channel_term.Transport.Scp.Upload.{end_line}
use channel_term.Transport.Scp.Reads.{Willing, between, header}

-- The place of an entry that is neither known nor out of the limits.
abbrev pub Free : List Bytes → List Entry → Entry → Type 0
Free ns es e =
    (is_one_of (paths es) e.path ≡ false) × (length (paths es) < 100000) × (length ns < 128)

pub then_ok-next :
    (c : Client) (t : Transfer) (next : Transfer → Turn)
    → Willing c
    → then_ok c t next ≡ next (record t { written = suc t.written })
then_ok-next c t next will =
    ap
      (λ b.
        if b
        then next (record t { written = suc t.written })
        else fails (record t { written = suc t.written }) write_failed)
      (will.writes t.written)

finish_file-goes :
    (c : Client) (e : Entry) (t : Transfer) (s : Bytes)
    → Willing c
    → finish_file c e t (acked s)
      ≡ goes (record t { input = s; written = suc t.written; files = suc t.files })
finish_file-goes c e t s will =
    then_ok-next c (record t { input = s }) (count_file c e) will
    ∙ ap
        (λ b.
          if b
          then goes (record t { input = s; written = suc t.written; files = suc t.files })
          else fails (record t { input = s; written = suc t.written }) verify_failed)
        (will.verifies t.files e)

drop-payload :
    (n : ℕ) (content rest : Bytes)
    → n ≤ length content
    → (drop n (take n content ++ rest) ≡ rest) × (leb n (length (take n content ++ rest)) ≡ true)
drop-payload zero content rest h = (refl, ground arith)
drop-payload (suc n) [] rest h = absurd (omega arith)
drop-payload (suc n) (x ∷ xs) rest h =
    let (same, fits) = drop-payload n xs rest (omega arith) in (same, ground (arith, fits))

payload_goes :
    (c : Client) (e : Entry) (t : Transfer) (content rest : Bytes)
    → Willing c
    → e.size ≤ length content
    → t.input ≡ take e.size content ++ 0 ∷ rest
    → take_payload c e t (some e.size)
      ≡ goes (record t { input = rest; written = suc t.written; files = suc t.files })
unfolding scp_ack
payload_goes c e t content rest will enough at =
    ap
      (λ b.
        if b
        then finish_file c e (record t { input = drop e.size t.input })
            (scp_ack (drop e.size t.input))
        else fails t short_payload)
      fits
    ∙ ap (λ s. finish_file c e (record t { input = s }) (scp_ack s))
        (ap (drop e.size) at ∙ (drop-payload e.size content (0 ∷ rest) enough).0)
    ∙ finish_file-goes c e (record t { input = 0 ∷ rest }) rest will
  where
    fits : (e.size == e.size && leb e.size (length t.input)) ≡ true
    fits =
        ap (λ s. e.size == e.size && leb e.size (length s)) at
        ∙ ground (arith, (drop-payload e.size content (0 ∷ rest) enough).1)

Free-test :
    (ns : List Bytes) (es : List Entry) (e : Entry)
    → Free ns es e
    → (is_one_of (paths es) e.path
        || leb max_entries (length (paths es))
        || leb max_depth (length ns))
      ≡ false
Free-test ns es e free = ground (arith, free.0)

-- The rest of a file record.
pub admit-file :
    (c : Client) (mode size : ℕ) (name content rest : Bytes) (ns : List Bytes) (es : List Entry)
    (w k : ℕ)
    → Willing c
    → size ≤ length content
    → let t = between (take size content ++ 0 ∷ rest) ns es true w k in
      let e = entry_at false (header mode size name) t in
      Free ns es e
      → admit c false (header mode size name) t
        ≡ goes (between rest ns (e ∷ es) true (suc (suc w)) (suc k))
admit-file c mode size name content rest ns es w k will enough free =
    let t = between (take size content ++ 0 ∷ rest) ns es true w k in
    let e = entry_at false (header mode size name) t in
    let t' = record t { seen = e.path ∷ paths es } in
    let d = deliver (record t' { written = suc w }) e in
    ap (λ b. if b then fails t over_limit else then_ok c t' (receive_file c e))
      (Free-test ns es e free)
    ∙ then_ok-next c t' (receive_file c e) will
    ∙ ap (take_payload c e d)
        (will.receives (length es) e (take size (take size content ++ 0 ∷ rest)))
    ∙ payload_goes c e d content rest will enough refl

-- The rest of a directory record.
pub admit-dir :
    (c : Client) (mode : ℕ) (name rest : Bytes) (ns : List Bytes) (es : List Entry) (w k : ℕ)
    → Willing c
    → let t = between rest ns es true w k in
      let e = entry_at true (header mode 0 name) t in
      Free ns es e
      → admit c true (header mode 0 name) t
        ≡ goes (between rest (name ∷ ns) (e ∷ es) true (suc w) k)
admit-dir c mode name rest ns es w k will free =
    let t = between rest ns es true w k in
    let e = entry_at true (header mode 0 name) t in
    let t' = record t { seen = e.path ∷ paths es } in
    let d = deliver t' e in
    ap (λ b. if b then fails t over_limit else receive_dir c name e t') (Free-test ns es e free)
    ∙ ap (enter_dir c name d) (will.receives (length es) e [])
    ∙ then_ok-next c (record d { stack = name ∷ ns }) goes will

-- The record that ends a directory.
pub end_read :
    (c : Client) (rest m : Bytes) (ns : List Bytes) (es : List Entry) (w k : ℕ)
    → Willing c
    → round c (between (end_line ++ rest) (m ∷ ns) es true w k)
      ≡ goes (between rest ns es true (suc w) k)
unfolding receive_record line_within
end_read c rest m ns es w k will = then_ok-next c (between rest ns es true w k) goes will
