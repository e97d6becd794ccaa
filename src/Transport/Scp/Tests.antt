-- ===== src/Transport/Scp/Tests.antt =====
-- A path with a quote in it; a directory with a file in it, sent and received; and a peer that answers a
-- download with a path that leads out of the tree.
use channel_term.Prelude.{
  ◌≡◌, ◌≤◌, refl, arith, true, false, none, some, [], ◌∷◌, ◌⊎◌, Bytes, length, ◌≢◌,
}
use channel_term.Transport.Scp.{scp_path, has_break, replace_quotes}
use channel_term.Transport.Scp.Names.{valid_file_name, trim_right, are_allowed, upper, before_dot}
use channel_term.Transport.Scp.Records.{
  scp_ack, line_within, parse_header, split_three, cut_space, bad_entry,
}
use channel_term.Transport.Scp.Receive.{
  Client, Transfer, Turn, ends, fails, receive_scp, rounds, receive_record, path_of, begin,
}
use channel_term.Transport.Scp.Download.{Over, receive_scp-Over}
use channel_term.Transport.Scp.Upload.{
  Node, file, dir, nil, cons, Caller, Sent, upload_scp, send, decimal_digits,
}
use channel_term.Transport.Scp.Reads.{Willing}
use channel_term.Transport.Scp.Sends.{upload_scp-wire}
use channel_term.Transport.Scp.Trees.{entries, Portable, Distinct}
use channel_term.Transport.Scp.Wire.{wire, files_of, bytes_of, Sendable}
use channel_term.Transport.Scp.RoundTrip.{upload_scp-receive_scp}
use channel_term.Transport.Scp.Words.{shell_word, outside, is_rooted, Breaks, scp_path-shell_word}

-- -'x
abbrev dashed : Bytes
dashed = b'-' ∷ 39 ∷ b'x' ∷ []

quoted : scp_path dashed ≡ some (39 ∷ b'.' ∷ b'/' ∷ b'-' ∷ 39 ∷ 34 ∷ 39 ∷ 34 ∷ 39 ∷ b'x' ∷ 39 ∷ [])
unfolding scp_path has_break replace_quotes
quoted = refl

scp_path-shell_word_example :
    ((q : Bytes) × (word : Bytes) × (scp_path dashed ≡ some q)
      × (shell_word outside q ≡ some word)
      × (word ≡ b'.' ∷ b'/' ∷ dashed)
      × (is_rooted word ≡ true)
      × (dashed ≢ [])
      × ¬ (Breaks dashed))
    ⊎ ((scp_path dashed ≡ none) × ((dashed ≡ []) ⊎ Breaks dashed))
scp_path-shell_word_example = scp_path-shell_word dashed

-- d/f, with two bytes
abbrev tree : Node
tree = dir 0o755 (b'd' ∷ []) (cons (file 0o644 (b'f' ∷ []) 2 (b'h' ∷ b'i' ∷ [])) nil)

abbrev sender : Caller
sender = record {
  recursive = true;
  writes = λ n. true;
  cancelled = λ n. false;
  progress = λ n. true;
  breaks = λ n. none;
  verify = λ n. true;
}

abbrev receiver : Client
receiver = record {
  expected = b'd' ∷ [];
  recursive = true;
  writes = λ n. true;
  receive = λ n e p. some e.size;
  verify = λ n e. true;
}

abbrev acks : Bytes
acks = 0 ∷ 0 ∷ 0 ∷ 0 ∷ 0 ∷ []

-- D0755 0 d, C0644 2 f, hi, E
abbrev records : Bytes
records =
    b'D' ∷ b'0' ∷ b'7' ∷ b'5' ∷ b'5' ∷ b' ' ∷ b'0' ∷ b' ' ∷ b'd' ∷ 10 ∷ b'C' ∷ b'0' ∷ b'6' ∷ b'4'
    ∷ b'4' ∷ b' ' ∷ b'2' ∷ b' ' ∷ b'f' ∷ 10 ∷ b'h' ∷ b'i' ∷ 0 ∷ b'E' ∷ 10 ∷ []

abbrev sent_tree : Sent
sent_tree = record {
  out = records;
  replies = [];
  files = 1;
  total_bytes = 2;
  writings = 5;
  entries = 2;
}

uploaded : upload_scp sender tree acks ≡ (sent_tree, none)
unfolding upload_scp send scp_ack decimal_digits valid_file_name trim_right are_allowed upper
    before_dot
uploaded = refl

receiver-Willing : Willing receiver
receiver-Willing = record { writes = λ n. refl; receives = λ n e p. refl; verifies = λ n e. refl }

upload_scp-wire_example :
    (records ≡ wire tree [])
    × (sent_tree.files ≡ files_of tree)
    × (sent_tree.total_bytes ≡ bytes_of tree)
    × Sendable true tree
upload_scp-wire_example = upload_scp-wire sender tree acks sent_tree uploaded

tree-Portable : Portable 0 tree
unfolding Portable decimal_digits
tree-Portable = omega arith

tree-Distinct : Distinct (entries [] tree [])
unfolding entries path_of
tree-Distinct = (refl, (refl, tt))

tree-few : length (entries [] tree []) ≤ 100000
unfolding entries
tree-few = omega arith

upload_scp-receive_scp_example :
    (t : Transfer) × (receive_scp receiver records ≡ some (ends t))
    × (t.received ≡ entries [] tree [])
    × (t.files ≡ sent_tree.files)
upload_scp-receive_scp_example =
    upload_scp-receive_scp sender receiver tree acks sent_tree uploaded receiver-Willing refl refl
      tree-Portable tree-Distinct tree-few

-- C0644 0 ../x
abbrev escaping : Bytes
escaping =
    b'C' ∷ b'0' ∷ b'6' ∷ b'4' ∷ b'4' ∷ b' ' ∷ b'0' ∷ b' ' ∷ b'.' ∷ b'.' ∷ b'/' ∷ b'x' ∷ 10 ∷ []

escaping-refused :
    receive_scp receiver escaping ≡ some (fails (record (begin []) { written = 1 }) bad_entry)
unfolding receive_scp rounds receive_record line_within parse_header split_three cut_space
    valid_file_name trim_right are_allowed upper before_dot
escaping-refused = refl

receive_scp-Over_example : (r : Turn) × (receive_scp receiver records ≡ some r) × Over receiver r
receive_scp-Over_example = receive_scp-Over receiver records
