-- ===== src/Transport/Scp/Receive.antt =====
-- internal/transport/ssh/scp.go: `receiveSCP`, the download from a peer that is not trusted. What the
-- client brings is given: whether its n-th write succeeds, how much of the payload `receive` reads on
-- its n-th call (`none` is an error), and whether `verify` succeeds.
use channel_term.Prelude.{
  ℕ, zero, suc, ◌%◌, Bool, true, false, ◌&&◌, ◌||◌, not, Option, none, some, List, [], ◌∷◌, ◌++◌,
  ◌==◌, leb, if◌then◌else◌, length, take, drop, Bytes, same_bytes,
}
use channel_term.Debugger.Mi.Text.{is_nil}
use channel_term.Transport.Scp.Names.{is_one_of}
use channel_term.Transport.Scp.Records.{
  ScpError, cut_short, write_failed, bad_timestamp, unmatched_end, unexpected_record, bad_root,
  over_limit, receive_failed, short_payload, verify_failed, remote_error, scp_line, Acked, acked,
  refused, scp_ack, is_timestamp, Header, Parsed, entry_of, invalid, parse_header,
}

-- `SCPEntry`; of the mode, the permissions and whether it is a directory.
pub record Entry : Type 0 where
  pub path : Bytes
  pub size : ℕ
  pub permissions : ℕ
  pub is_dir : Bool

pub record Client : Type 0 where
  pub expected : Bytes
  pub recursive : Bool
  pub writes : ℕ → Bool
  pub receive : ℕ → Entry → Bytes → Option ℕ
  pub verify : ℕ → Entry → Bool

-- The variables of `receiveSCP`. The stack has the innermost directory first; `received` has the
-- entries that `receive` was called with, the last one first.
pub record Transfer : Type 0 where
  pub input : Bytes
  pub stack : List Bytes
  pub seen : List Bytes
  pub root_seen : Bool
  pub written : ℕ
  pub received : List Entry
  pub files : ℕ

pub data Turn : Type 0 where
  goes : Transfer → Turn
  ends : Transfer → Turn
  fails : Transfer → ScpError → Turn

abbrev pub is_empty : List Bytes → Bool
is_empty [] = true
is_empty (_ ∷ _) = false

abbrev pub max_entries : ℕ
max_entries = 100000

abbrev pub max_depth : ℕ
max_depth = 128

-- `strings.Join` of the names with slashes, the innermost name first.
unfoldable pub path_of : List Bytes → Bytes
path_of [] = []
path_of (n ∷ []) = n
path_of (n ∷ m ∷ ns) = path_of (m ∷ ns) ++ b'/' ∷ n

-- `scpOK`, and what follows it.
abbrev pub then_ok : Client → Transfer → (Transfer → Turn) → Turn
then_ok c t next =
    if c.writes t.written
    then next (record t { written = suc t.written })
    else fails (record t { written = suc t.written }) write_failed

abbrev pub acknowledge : Client → Transfer → Turn
acknowledge c t = then_ok c t goes

-- The end of a file record: `verify`, and the count.
abbrev pub count_file : Client → Entry → Transfer → Turn
count_file c e t =
    if c.verify t.files e then goes (record t { files = suc t.files }) else fails t verify_failed

-- The acknowledgement of the peer after a payload.
abbrev pub finish_file : Client → Entry → Transfer → Acked → Turn
finish_file c e t (refused x) = fails t x
finish_file c e t (acked s) = then_ok c (record t { input = s }) (count_file c e)

-- What `receive` has read of the payload.
abbrev pub take_payload : Client → Entry → Transfer → Option ℕ → Turn
take_payload c e t none = fails t receive_failed
take_payload c e t (some n) =
    if n == e.size && leb e.size (length t.input)
    then finish_file c e (record t { input = drop e.size t.input }) (scp_ack (drop e.size t.input))
    else fails t short_payload

abbrev pub deliver : Transfer → Entry → Transfer
deliver t e = record t { received = e ∷ t.received }

abbrev pub receive_file : Client → Entry → Transfer → Turn
receive_file c e t =
    take_payload c e (deliver t e) (c.receive (length t.received) e (take e.size t.input))

-- What `receive` makes of a directory, which then becomes the innermost one.
abbrev pub enter_dir : Client → Bytes → Transfer → Option ℕ → Turn
enter_dir c name t none = fails t receive_failed
enter_dir c name t (some _) = acknowledge c (record t { stack = name ∷ t.stack })

abbrev pub receive_dir : Client → Bytes → Entry → Transfer → Turn
receive_dir c name e t = enter_dir c name (deliver t e) (c.receive (length t.received) e [])

abbrev pub entry_at : Bool → Header → Transfer → Entry
entry_at is_dir h t = record {
  path = path_of (h.name ∷ t.stack);
  size = h.size;
  permissions = h.mode % 512;
  is_dir = is_dir;
}

-- From the checks against the tree on, with the path of the entry.
abbrev pub admit : Client → Bool → Header → Transfer → Turn
admit c is_dir h t =
    let e = entry_at is_dir h t in
    if is_one_of t.seen e.path || leb max_entries (length t.seen) || leb max_depth (length t.stack)
    then fails t over_limit
    else (if is_dir
        then receive_dir c h.name e (record t { seen = e.path ∷ t.seen })
        else then_ok c (record t { seen = e.path ∷ t.seen }) (receive_file c e))

-- The rule for the root: one entry, with the name that was asked for.
abbrev pub check_root : Client → Bool → Header → Transfer → List Bytes → Turn
check_root c is_dir h t [] =
    if t.root_seen || not (same_bytes h.name c.expected)
    then fails t bad_root
    else admit c is_dir h (record t { root_seen = true })
check_root c is_dir h t (_ ∷ _) = admit c is_dir h t

abbrev pub receive_entry : Client → Bool → Transfer → Parsed → Turn
receive_entry c is_dir t (invalid x) = fails t x
receive_entry c is_dir t (entry_of h) = check_root c is_dir h t t.stack

abbrev pub leave_dir : Client → Bytes → Transfer → List Bytes → Turn
leave_dir c line t [] = fails t unmatched_end
leave_dir c line t (_ ∷ outer) =
    if is_nil line then acknowledge c (record t { stack = outer }) else fails t unmatched_end

-- A record of a kind, with its line.
unfoldable pub receive_record : Client → Transfer → ℕ → Bytes → Turn
receive_record c t kind line =
    if kind == 1 || kind == 2
    then fails t (remote_error line)
    else (if kind == b'T'
        then (if is_timestamp line then acknowledge c t else fails t bad_timestamp)
        else (if kind == b'E'
            then leave_dir c line t t.stack
            else (if not (kind == b'C' || kind == b'D')
                then fails t unexpected_record
                else receive_entry c (kind == b'D') t
                    (parse_header (kind == b'D') c.recursive line))))

abbrev pub receive_line : Client → Transfer → ℕ → Option (Bytes × Bytes) → Turn
receive_line c t kind none = fails t cut_short
receive_line c t kind (some (line, s)) = receive_record c (record t { input = s }) kind line

-- One round of the loop.
abbrev pub receive_next : Client → Transfer → Bytes → Turn
receive_next c t [] = if t.root_seen && is_empty t.stack then ends t else fails t cut_short
receive_next c t (kind ∷ s) = receive_line c (record t { input = s }) kind (scp_line s)

abbrev pub round : Client → Transfer → Turn
round c t = receive_next c t t.input

abbrev pub continue : (Transfer → Option Turn) → Turn → Option Turn
continue loop (goes t) = loop t
continue loop (ends t) = some (ends t)
continue loop (fails t x) = some (fails t x)

-- The loop, on fuel: `none` is fuel that ran out.
unfoldable pub rounds : Client → ℕ → Transfer → Option Turn
rounds c zero t = none
rounds c (suc f) t = continue (rounds c f) (round c t)

abbrev pub begin : Bytes → Transfer
begin input = record {
  input = input;
  stack = [];
  seen = [];
  root_seen = false;
  written = 0;
  received = [];
  files = 0;
}

-- `receiveSCP`: each round reads a byte, so one round more than there are bytes is enough.
unfoldable pub receive_scp : Client → Bytes → Option Turn
receive_scp c input = continue (rounds c (suc (length input))) (then_ok c (begin input) goes)
