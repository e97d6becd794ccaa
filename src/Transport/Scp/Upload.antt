-- ===== src/Transport/Scp/Upload.antt =====
-- internal/transport/ssh/scp.go: `UploadSCP`: the command that it starts, and the records that it
-- writes. The source is a tree of what `fs.Stat` and `fs.ReadDir` tell; the reading of a file is its
-- content, of which `size` bytes are copied. What the caller brings is given: whether its n-th write
-- succeeds; whether the n-th entry is cancelled, or refused by `progress` before its payload or by
-- `verify`; and after how many bytes its payload breaks off, if it does.
use Prim.Native.Char.{code}
use Prim.Native.String.{String}
use channel_term.Prelude.{
  ℕ, zero, suc, ◌+◌, ◌/◌, ◌%◌, Bool, true, false, ◌&&◌, not, Option, none, some, [], ◌∷◌, ◌++◌,
  ◌==◌, ltb, leb, if◌then◌else◌, length, take, Bytes,
}
use channel_term.Debugger.Mi.Text.{is_nil}
use channel_term.Transport.Scp.{scp_path}
use channel_term.Transport.Scp.Names.{valid_file_name}
use channel_term.Transport.Scp.Records.{
  ScpError, write_failed, too_deep, unsafe_name, not_regular, not_recursive, payload_failed,
  receive_failed, verify_failed, cut_short, Acked, acked, refused, scp_ack,
}

-- The bytes of a text of ASCII.
unfoldable pub ascii : String → Bytes
ascii String.[] = []
ascii (String.◌∷◌ c s) = code c ∷ ascii s

-- `strings.TrimRight` of slashes.
unfoldable pub trim_slashes : Bytes → Bytes
trim_slashes [] = []
trim_slashes (c ∷ cs) =
    let rest = trim_slashes cs in if is_nil rest && c == b'/' then [] else c ∷ rest

abbrev pub sink_command : Bool → Bytes → Bytes
sink_command recursive quoted =
    (if recursive then ascii "scp -r -t -- " else ascii "scp -t -- ") ++ quoted

-- The guard that the destination does not exist.
abbrev pub guarded : Bytes → Bytes → Bytes → Bytes
guarded quoted child command =
    ascii "if { test -d "
    ++ quoted
    ++ ascii " && { test -e "
    ++ child
    ++ ascii " || test -L "
    ++ child
    ++ ascii "; }; } || { ! test -d "
    ++ quoted
    ++ ascii " && { test -e "
    ++ quoted
    ++ ascii " || test -L "
    ++ quoted
    ++ ascii "; }; }; then printf '\\001destination exists\\n'; exit 1; fi; exec "
    ++ command

abbrev pub guard_command : Bytes → Bytes → Option Bytes → Option Bytes
guard_command quoted command none = none
guard_command quoted command (some child) = some (guarded quoted child command)

abbrev pub command_for : Bytes → Bytes → Bool → Bool → Option Bytes → Option Bytes
command_for name destination recursive overwrite none = none
command_for name destination recursive overwrite (some quoted) =
    if overwrite
    then some (sink_command recursive quoted)
    else guard_command quoted (sink_command recursive quoted)
        (scp_path (trim_slashes destination ++ b'/' ∷ name))

-- `scpUploadCommand`; the error is `none`.
unfoldable pub scp_upload_command : Bytes → Bytes → Bool → Bool → Option Bytes
scp_upload_command name destination recursive overwrite =
    if valid_file_name name
    then command_for name destination recursive overwrite (scp_path destination)
    else none

-- What a name of the source stands for. A `special` is neither a regular file nor a
-- directory; a `link` is a symbolic link in a directory (the root is what it leads to); an `unreadable`
-- has no `fs.Stat`. Directories are read without error.
mutual
  pub data Node : Type 0 where
    file : (permissions : ℕ) (name : Bytes) (size : ℕ) (content : Bytes) → Node
    dir : (permissions : ℕ) (name : Bytes) (children : Nodes) → Node
    special link unreadable : (name : Bytes) → Node

  pub data Nodes : Type 0 where
    nil : Nodes
    cons : Node → Nodes → Nodes

abbrev pub node_name : Node → Bytes
node_name (file _ name _ _) = name
node_name (dir _ name _) = name
node_name (special name) = name
node_name (link name) = name
node_name (unreadable name) = name

pub record Caller : Type 0 where
  pub recursive : Bool
  pub writes : ℕ → Bool
  pub cancelled : ℕ → Bool
  pub progress : ℕ → Bool
  pub breaks : ℕ → Option ℕ
  pub verify : ℕ → Bool

-- What has been written, what the peer has yet to reply, and the results of `uploadSCP`; `writings`
-- and `entries` count the writes and the calls of `send`.
pub record Sent : Type 0 where
  pub out : Bytes
  pub replies : Bytes
  pub files : ℕ
  pub total_bytes : ℕ
  pub writings : ℕ
  pub entries : ℕ

-- After a call that may fail: the state, and the error.
abbrev pub Sending : Type 0
Sending = Sent × Option ScpError

abbrev pub and_then : Sending → (Sent → Sending) → Sending
and_then (s, none) next = next s
and_then (s, some x) next = (s, some x)

abbrev pub await : Sent → Acked → Sending
await s (acked replies) = (record s { replies = replies }, none)
await s (refused x) = (s, some x)

-- `scpAck`
abbrev pub get_ack : Sent → Sending
get_ack s = await s (scp_ack s.replies)

abbrev pub check : Bool → ScpError → Sent → Sending
check good x s = if good then (s, none) else (s, some x)

abbrev pub write : Caller → Bytes → Sent → Sending
write c p s =
    if c.writes s.writings
    then (record s { out = s.out ++ p; writings = suc s.writings }, none)
    else (record s { writings = suc s.writings }, some write_failed)

-- `%04o` of permissions.
abbrev pub octal : ℕ → Bytes
octal n = (b'0' + n / 512) ∷ (b'0' + n / 64 % 8) ∷ (b'0' + n / 8 % 8) ∷ (b'0' + n % 8) ∷ []

-- `%d`, on fuel: each round divides the number by ten.
unfoldable pub decimal_digits : ℕ → ℕ → Bytes
decimal_digits zero n = []
decimal_digits (suc f) n =
    let rest = decimal_digits f (n / 10) in
    if ltb n 10 then (b'0' + n) ∷ [] else rest ++ (b'0' + n % 10) ∷ []

abbrev pub decimal : ℕ → Bytes
decimal n = decimal_digits (suc n) n

abbrev pub header_text : ℕ → ℕ → Bytes → Bytes
header_text permissions size name = octal permissions ++ b' ' ∷ (decimal size ++ b' ' ∷ name)

abbrev pub file_line : ℕ → ℕ → Bytes → Bytes
file_line permissions size name = b'C' ∷ (header_text permissions size name ++ 10 ∷ [])

abbrev pub dir_line : ℕ → Bytes → Bytes
dir_line permissions name = b'D' ∷ (header_text permissions 0 name ++ 10 ∷ [])

abbrev pub end_line : Bytes
end_line = b'E' ∷ 10 ∷ []

-- So much of a payload has been written.
abbrev pub put_payload : Bytes → Sent → Sent
put_payload p s = record s {
  out = s.out ++ p;
  total_bytes = s.total_bytes + length p;
  writings = suc s.writings;
}

-- `io.CopyN` of the payload through `scpProgressWriter`: an error ends it after so many bytes, or
-- there is none.
abbrev pub copy_until : Option ℕ → ℕ → Bytes → Sent → Sending
copy_until (some k) size content s =
    (put_payload (take k (take size content)) s, some payload_failed)
copy_until none size content s = (
  put_payload (take size content) s,
  (if leb size (length content) then none else some payload_failed),
)

abbrev pub copy_payload : Caller → ℕ → Bytes → Sent → Sending
copy_payload c size content s = copy_until (c.breaks s.entries) size content s

abbrev pub count_sent : Sent → Sending
count_sent s = (record s { files = suc s.files }, none)

-- A regular file, from its record on.
abbrev pub send_file : Caller → ℕ → Bytes → ℕ → Bytes → Sent → Sending
send_file c permissions name size content s =
    and_then (write c (file_line permissions size name) s) λ s. and_then (get_ack s) λ s.
      and_then (check (c.progress s.entries) receive_failed s) λ s.
        and_then (copy_payload c size content s) λ s. and_then (write c (0 ∷ []) s) λ s.
          and_then (get_ack s) λ s. and_then (check (c.verify s.entries) verify_failed s) count_sent

abbrev pub end_dir : Caller → Sent → Sending
end_dir c s = and_then (write c end_line s) get_ack

-- What `send` checks before it looks at the entry.
abbrev pub check_depth : Caller → ℕ → Sent → Sending
check_depth c depth s =
    and_then (check (not (c.cancelled s.entries)) cut_short (record s { entries = suc s.entries }))
      (check (leb depth 128) too_deep)

-- What it checks before it looks at the kind of the entry.
abbrev pub begin_entry : Caller → ℕ → Bytes → Sent → Sending
begin_entry c depth name s =
    and_then (check_depth c depth s) (check (valid_file_name name) unsafe_name)

abbrev pub is_link : Node → Bool
is_link (link _) = true
is_link _ = false

unfoldable mutual
  -- `send`
  pub send : Caller → ℕ → Node → Sent → Sending
  send c depth (file permissions name size content) s =
      and_then (begin_entry c depth name s) (send_file c (permissions % 512) name size content)
  send c depth (special name) s = and_then (begin_entry c depth name s) (check false not_regular)
  send c depth (link name) s = and_then (check_depth c depth s) (check false cut_short)
  send c depth (unreadable name) s = and_then (check_depth c depth s) (check false cut_short)
  send c depth (dir permissions name children) s = and_then (begin_entry c depth name s) λ s.
      and_then (check c.recursive not_recursive s) λ s.
        and_then (write c (dir_line (permissions % 512) name) s)
          λ s. and_then (get_ack s) λ s. and_then (send_all c (suc depth) children s) (end_dir c)

  -- The loop over the entries of a directory.
  pub send_all : Caller → ℕ → Nodes → Sent → Sending
  send_all c depth nil s = (s, none)
  send_all c depth (cons node nodes) s =
      and_then (check (not (is_link node) && valid_file_name (node_name node)) unsafe_name s)
        λ s. and_then (send c depth node s) (send_all c depth nodes)

-- `uploadSCP`, from the first acknowledgement on.
unfoldable pub upload_scp : Caller → Node → Bytes → Sending
upload_scp c node replies =
    and_then
      (get_ack (record {
        out = [];
        replies = replies;
        files = 0;
        total_bytes = 0;
        writings = 0;
        entries = 0;
      }))
      (send c 0 node)
